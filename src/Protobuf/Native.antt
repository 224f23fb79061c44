-- ===== src/Protobuf/Native.antt =====
-- `native_histogram` of src/protobuf.rs.
pub mod Limits
use prometheus_scrape_rs.Base.{
  ℕ, zero, suc, ◌+◌, ◌-◌, Bool, true, false, not, ◌&&◌, ◌||◌, List, [], ◌∷◌, Option, none, some,
  map, ltb, leb, ◌==◌, if◌then◌else◌, length,
}
use prometheus_scrape_rs.Base.Int.{ℤ, pos, negsuc, pos_part, ◌-ℤ◌, ◌+ℤ◌, leb_ℤ, ltb_ℤ}
use prometheus_scrape_rs.Base.Result.{Result, ok, err, ◌>>=◌, ◌>>◌, refuse}
use prometheus_scrape_rs.Model.{
  BucketSpan, Histogram, HistogramCount, int, float, Float, ResetHint, gauge, unknown, is_positive,
}
use prometheus_scrape_rs.Protobuf.{
  ExposedHistogram, ExposedSpan, or_zero, or_zero_int, Side, negative, positive, Error,
  schema_below_minimum, above_bucket_limit, out_of_fuel,
}
use prometheus_scrape_rs.Protobuf.Spans.{validate_side, reduce_resolution}

-- `SCHEMA_MAX`, `SCHEMA_MIN`
abbrev pub schema_max : ℤ
schema_max = pos 8

abbrev pub schema_min : ℤ
schema_min = negsuc 3

abbrev pub is_none_or_empty {ℓ} : {A : Type ℓ} → List A → Bool
is_none_or_empty [] = true
is_none_or_empty (x ∷ xs) = false

unfoldable pub is_native : ExposedHistogram → Bool
is_native h =
    not (is_none_or_empty h.positive_span)
    || not (is_none_or_empty h.negative_span)
    || is_positive (or_zero h.zero_threshold)
    || ltb 0 (or_zero h.zero_count)
    || is_positive (or_zero h.zero_count_float)

abbrev pub exposed_spans : List ExposedSpan → List BucketSpan
exposed_spans spans =
    map (λ s. record { offset = or_zero_int s.offset; length = or_zero s.length }) spans

-- Any float count makes it a float histogram.
unfoldable pub is_float : ExposedHistogram → Bool
is_float h = is_positive (or_zero h.sample_count_float) || is_positive (or_zero h.zero_count_float)

unfoldable pub bucket_len : Histogram → Side → ℕ
bucket_len h negative = length h.negative_deltas + length h.negative_counts
bucket_len h positive = length h.positive_deltas + length h.positive_counts

abbrev pub buckets : Histogram → ℕ
buckets h = bucket_len h negative + bucket_len h positive

-- The histogram as exposed, before it is checked and reduced.
unfoldable pub exposed_histogram : ExposedHistogram → Bool → Histogram
unfolding is_float
exposed_histogram h is_gauge = record {
  count = if is_float h then float (or_zero h.sample_count_float) else int (or_zero h.sample_count);
  sum = or_zero h.sample_sum;
  schema = or_zero_int h.schema;
  zero_threshold = or_zero h.zero_threshold;
  zero_count =
      if is_float h then float (or_zero h.zero_count_float) else int (or_zero h.zero_count);
  negative_spans = exposed_spans h.negative_span;
  negative_deltas = if is_float h then [] else h.negative_delta;
  negative_counts = if is_float h then h.negative_count else [];
  positive_spans = exposed_spans h.positive_span;
  positive_deltas = if is_float h then [] else h.positive_delta;
  positive_counts = if is_float h then h.positive_count else [];
  reset_hint = if is_gauge then gauge else unknown;
}

module _ (add_f64 : Float → Float → Float) where
  -- The loop under `if bucket_limit > 0`. The schema falls with each round and is no lower than the
  -- least one, which bounds the rounds.
  unfoldable pub limit_buckets : ℕ → ℕ → Histogram → Result Error Histogram
  unfolding reduce_resolution bucket_len
  limit_buckets zero limit h = err out_of_fuel
  limit_buckets (suc fuel) limit h =
      let rest = reduce_resolution add_f64 h (h.schema -ℤ pos 1) >>= limit_buckets fuel limit in
      if ltb limit (buckets h)
      then (if leb_ℤ h.schema schema_min then err (above_bucket_limit limit) else rest)
      else ok h

  unfoldable pub cap_schema : Histogram → Result Error Histogram
  unfolding reduce_resolution
  cap_schema h = if ltb_ℤ schema_max h.schema then reduce_resolution add_f64 h schema_max else ok h

  -- After `cap_schema` the schema is at most 8, so 14 rounds are enough.
  unfoldable pub native_histogram : ExposedHistogram → Bool → ℕ → Result Error Histogram
  unfolding exposed_histogram validate_side cap_schema limit_buckets
  native_histogram exposed is_gauge bucket_limit = do
    refuse (ltb_ℤ (or_zero_int exposed.schema) schema_min)
        (schema_below_minimum (or_zero_int exposed.schema))
    let h = exposed_histogram exposed is_gauge
    validate_side negative h.negative_spans (bucket_len h negative) h.negative_deltas
    validate_side positive h.positive_spans (bucket_len h positive) h.positive_deltas
    capped ← cap_schema h
    if ltb 0 bucket_limit then limit_buckets 14 bucket_limit capped else ok capped
