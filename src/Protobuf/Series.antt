-- ===== src/Protobuf/Series.antt =====
-- `SeriesBuilder` and `format_float` of src/protobuf.rs.
use prometheus_scrape_rs.Base.{
  ℕ, suc, ◌^◌, ◌%◌, Bool, false, ◌&&◌, ◌||◌, List, [], ◌∷◌, ◌++◌, Option, none, some, Bytes, ltb,
  ◌==◌, if◌then◌else◌, text, any, decimal,
}
use prometheus_scrape_rs.Base.Int.{ℤ, pos, negsuc, leb_ℤ, ltb_ℤ}
use prometheus_scrape_rs.Base.Result.{Result, ok, err, ◌>>=◌}
use prometheus_scrape_rs.Model.{Label, TimeSeries, Histogram, Float, is_positive}
use prometheus_scrape_rs.Labels.{has_name}
use prometheus_scrape_rs.Hash.{write}
use prometheus_scrape_rs.Protobuf.{
  ExposedHistogram, Bucket, Summary, Quantile, or_zero, FloatText, Error, colliding_label,
}

-- `f64::INFINITY`, and the tests on bit patterns.
abbrev pub infinity : Float
infinity = 0x7ff0_0000_0000_0000

abbrev pub magnitude : Float → ℕ
magnitude value = value % 2 ^ 63

unfoldable pub two_digits : ℕ → Bytes
unfolding decimal
two_digits n = if ltb n 10 then b'0' ∷ decimal n else decimal n

abbrev pub is_marked : ℕ → Bool
is_marked c = c == b'.' || c == b'e' || c == b'E'

-- `format!("{mantissa}e{sign}{:02}")`
unfoldable pub exponent_form : Bytes → ℤ → Bytes
unfolding two_digits
exponent_form mantissa (pos n) = mantissa ++ (b'e' ∷ b'+' ∷ two_digits n)
exponent_form mantissa (negsuc n) = mantissa ++ (b'e' ∷ b'-' ∷ two_digits (suc n))

unfoldable pub format_float : FloatText → Float → Bytes
unfolding exponent_form any
format_float f value =
    let plain =
      if leb_ℤ (negsuc 3) (f.exponent value) && ltb_ℤ (f.exponent value) (pos 6)
      then f.display value
      else exponent_form (f.mantissa value) (f.exponent value) in
    if ltb infinity (magnitude value)
    then text "NaN"
    else if magnitude value == infinity
    then (if ltb value (2 ^ 63) then text "+Inf" else text "-Inf")
    else if any is_marked plain
    then plain
    else plain ++ text ".0"

pub record SeriesBuilder : Type 0 where
  pub name : Bytes
  pub labels : List Label
  pub timestamp : ℤ

-- `labels[0].value = name`
abbrev pub rename_first : Bytes → List Label → List Label
rename_first value [] = []
rename_first value (l ∷ ls) = record l { value = value } ∷ ls

abbrev pub suffixed : Bytes → Bytes → List Label → List Label
suffixed name [] labels = labels
suffixed name (c ∷ cs) labels = rename_first (name ++ c ∷ cs) labels

unfoldable pub builder_labels : SeriesBuilder → Bytes → Option Label → Result Error (List Label)
unfolding has_name
builder_labels b suffix none = ok (suffixed b.name suffix b.labels)
builder_labels b suffix (some extra) =
    let labels = suffixed b.name suffix b.labels in
    if has_name extra.name labels
    then err (colliding_label extra.name)
    else ok (labels ++ extra ∷ [])

unfoldable pub write_labels : ℕ → List Label → ℕ
unfolding write
write_labels hash [] = hash
write_labels hash (l ∷ ls) = write_labels (write (write hash l.name) l.value) ls

abbrev pub kind_byte : Option Histogram → ℕ
kind_byte none = 0
kind_byte (some h) = 1

-- `SeriesBuilder::series`. `write_u8` writes one byte.
unfoldable pub builder_series : SeriesBuilder → List Label → Float → Option Histogram → TimeSeries
unfolding write_labels write
builder_series b labels value histogram = record {
  labels = labels;
  sample = record { value = value; timestamp = b.timestamp };
  identity_hash = write (write_labels 0 labels) (kind_byte histogram ∷ []);
  histogram = histogram;
}

unfoldable pub float_series : SeriesBuilder → Bytes → Option Label → Float → Result Error TimeSeries
unfolding builder_labels builder_series
float_series b suffix extra value = do
  labels ← builder_labels b suffix extra
  ok (builder_series b labels value none)

unfoldable pub histogram_series : SeriesBuilder → Histogram → TimeSeries
unfolding builder_series
histogram_series b histogram = builder_series b b.labels 0 (some histogram)

module _ (f : FloatText) where
  unfoldable pub quantile_series : SeriesBuilder → List Quantile → Result Error (List TimeSeries)
  unfolding float_series format_float
  quantile_series b [] = ok []
  quantile_series b (q ∷ qs) = do
    s ←
        float_series b []
          (some (record { name = text "quantile"; value = format_float f (or_zero q.quantile) }))
          (or_zero q.value)
    rest ← quantile_series b qs
    ok (s ∷ rest)

  unfoldable pub summary_series : SeriesBuilder → Summary → Result Error (List TimeSeries)
  unfolding float_series quantile_series
  summary_series b summary = do
    count ← float_series b (text "_count") none (f.to_f64 (or_zero summary.sample_count))
    sum ← float_series b (text "_sum") none (or_zero summary.sample_sum)
    quantiles ← quantile_series b summary.quantile
    ok (count ∷ sum ∷ quantiles)

  -- `Some(count) if count > 0.0 => count, _ => to_f64(..)`
  abbrev pub count_of : Option Float → Option ℕ → Float
  count_of none n = f.to_f64 (or_zero n)
  count_of (some count) n = if is_positive count then count else f.to_f64 (or_zero n)

  unfoldable pub bucket_series : SeriesBuilder → List Bucket → Result Error (List TimeSeries)
  unfolding float_series format_float
  bucket_series b [] = ok []
  bucket_series b (bucket ∷ buckets) = do
    s ←
        float_series b (text "_bucket")
          (some (record { name = text "le"; value = format_float f (or_zero bucket.upper_bound) }))
          (count_of bucket.cumulative_count_float bucket.cumulative_count)
    rest ← bucket_series b buckets
    ok (s ∷ rest)

  abbrev pub is_infinite_bound : Option Float → Bool
  is_infinite_bound none = false
  is_infinite_bound (some bound) = bound == infinity

  -- `bucket.last().is_some_and(..)`
  unfoldable pub ends_at_infinity : List Bucket → Bool
  ends_at_infinity [] = false
  ends_at_infinity (b ∷ []) = is_infinite_bound b.upper_bound
  ends_at_infinity (b ∷ c ∷ bs) = ends_at_infinity (c ∷ bs)

  unfoldable pub classic_histogram :
      SeriesBuilder → ExposedHistogram → Result Error (List TimeSeries)
  unfolding float_series bucket_series ends_at_infinity
  classic_histogram b h = do
    let total = count_of h.sample_count_float h.sample_count
    count ← float_series b (text "_count") none total
    sum ← float_series b (text "_sum") none (or_zero h.sample_sum)
    buckets ← bucket_series b h.bucket
    last ←
        if ends_at_infinity h.bucket
        then ok []
        else (float_series b (text "_bucket")
              (some (record { name = text "le"; value = text "+Inf" })) total
            >>= (λ s. ok (s ∷ [])))
    ok (count ∷ sum ∷ (buckets ++ last))
