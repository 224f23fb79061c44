-- ===== src/Protobuf/Families.antt =====
-- `base_labels`, `convert_family` and `parse` of src/protobuf.rs.
pub mod Distinct
pub mod Output
use prometheus_scrape_rs.Base.{
  ℕ, zero, suc, ◌+◌, ◌-◌, Bool, true, false, not, ◌&&◌, ◌||◌, List, [], ◌∷◌, ◌++◌, Option, none,
  some, map, Bytes, ltb, leb, ◌==◌, beq, if◌then◌else◌, text, any, length, is_empty,
}
use prometheus_scrape_rs.Base.Int.{ℤ, pos, negsuc, eqb_ℤ}
use prometheus_scrape_rs.Base.Result.{Result, ok, err, ◌>>=◌, ◌>>◌, refuse, or_err}
use prometheus_scrape_rs.Model.{Label, TimeSeries, Histogram, Float, metric_name_label}
use prometheus_scrape_rs.Labels.{has_name}
use prometheus_scrape_rs.Parser.{is_valid_name, max_labels_per_series}
use prometheus_scrape_rs.Protobuf.{
  LabelPair, Metric, MetricFamily, MetricType, counter_type, gauge_type, summary_type, untyped_type,
  histogram_type, gauge_histogram_type, Options, Summary, ExposedHistogram, FloatText, or_empty,
  or_zero, or_zero_int, Error, decode_failed, unnamed_family, invalid_metric_name,
  unknown_metric_type, too_many_labels, invalid_label_name, duplicate_label, out_of_fuel,
}
use prometheus_scrape_rs.Protobuf.Native.{is_native, native_histogram, is_none_or_empty}
use prometheus_scrape_rs.Protobuf.Series.{
  SeriesBuilder, float_series, histogram_series, summary_series, classic_histogram,
}

-- The exposed labels, each name checked.
unfoldable pub pair_labels : List LabelPair → Result Error (List Label)
unfolding is_valid_name
pair_labels [] = ok []
pair_labels (pair ∷ pairs) = do
  refuse (not (is_valid_name (or_empty pair.name) false)) (invalid_label_name (or_empty pair.name))
  rest ← pair_labels pairs
  ok ((record { name = or_empty pair.name; value = or_empty pair.value }) ∷ rest)

-- The scan of a small set: each label against those in front of it, `before`.
unfoldable pub scan_duplicates : List Label → List Label → Result Error (Unit {0})
unfolding has_name
scan_duplicates before [] = ok tt
scan_duplicates before (l ∷ ls) =
    let rest = scan_duplicates (before ++ l ∷ []) ls in
    if has_name l.name before then err (duplicate_label l.name) else rest

-- The names of a large set, in a `HashSet` as the list of its members.
unfoldable pub insert_names : List Bytes → List Label → Result Error (Unit {0})
unfolding any
insert_names seen [] = ok tt
insert_names seen (l ∷ ls) =
    let rest = insert_names (l.name ∷ seen) ls in
    if any (λ n. beq n l.name) seen then err (duplicate_label l.name) else rest

unfoldable pub check_duplicates : List Label → Result Error (Unit {0})
unfolding scan_duplicates insert_names
check_duplicates labels =
    if leb (length labels) 32 then scan_duplicates [] labels else insert_names [] labels

unfoldable pub base_labels : Bytes → List LabelPair → Result Error (List Label)
unfolding pair_labels check_duplicates
base_labels name pairs = do
  refuse (ltb max_labels_per_series (length pairs + 1)) too_many_labels
  rest ← pair_labels pairs
  let labels = (record { name = metric_name_label; value = name }) ∷ rest
  check_duplicates labels
  ok labels

-- `MetricType::try_from`
unfoldable pub metric_type : ℤ → Result Error MetricType
metric_type (pos zero) = ok counter_type
metric_type (pos (suc zero)) = ok gauge_type
metric_type (pos (suc (suc zero))) = ok summary_type
metric_type (pos (suc (suc (suc zero)))) = ok untyped_type
metric_type (pos (suc (suc (suc (suc zero))))) = ok histogram_type
metric_type (pos (suc (suc (suc (suc (suc zero)))))) = ok gauge_histogram_type
metric_type raw = err (unknown_metric_type raw)

-- A timestamp of 0 means that there is none.
abbrev pub metric_timestamp : Options → ℤ → Option ℤ → ℤ
metric_timestamp options default_timestamp none = default_timestamp
metric_timestamp options default_timestamp (some t) =
    if options.honor_timestamps && not (eqb_ℤ t (pos 0)) then t else default_timestamp

-- `metric.counter.as_ref().and_then(|c| c.value).unwrap_or_default()`
abbrev pub nested_value : Option (Option Float) → Float
nested_value none = 0
nested_value (some v) = or_zero v

abbrev pub or_no_summary : Option Summary → Summary
or_no_summary none = record { sample_count = none; sample_sum = none; quantile = [] }
or_no_summary (some s) = s

abbrev pub or_no_histogram : Option ExposedHistogram → ExposedHistogram
or_no_histogram (some h) = h
or_no_histogram none = record {
  sample_count = none;
  sample_count_float = none;
  sample_sum = none;
  bucket = [];
  schema = none;
  zero_threshold = none;
  zero_count = none;
  zero_count_float = none;
  negative_span = [];
  negative_delta = [];
  negative_count = [];
  positive_span = [];
  positive_delta = [];
  positive_count = [];
}

module _ (f : FloatText) (options : Options) where
  unfoldable pub convert_histogram :
      SeriesBuilder → Bool → ExposedHistogram → Result Error (List TimeSeries)
  unfolding is_native native_histogram histogram_series classic_histogram
  convert_histogram b is_gauge h = do
    let native = options.native_histograms && is_native h
    first ←
        if native
        then (native_histogram f.add_f64 h is_gauge options.bucket_limit
            >>= (λ n. ok (histogram_series b n ∷ [])))
        else ok []
    classic ←
        if not native || (options.classic_histograms && not (is_none_or_empty h.bucket))
        then classic_histogram f b h
        else ok []
    ok (first ++ classic)

  abbrev pub one_series : Result Error TimeSeries → Result Error (List TimeSeries)
  one_series r = r >>= (λ s. ok (s ∷ []))

  unfoldable pub convert_metric :
      MetricType → SeriesBuilder → Metric → Result Error (List TimeSeries)
  unfolding float_series summary_series convert_histogram
  convert_metric counter_type b m = one_series (float_series b [] none (nested_value m.counter))
  convert_metric gauge_type b m = one_series (float_series b [] none (nested_value m.gauge))
  convert_metric untyped_type b m = one_series (float_series b [] none (nested_value m.untyped))
  convert_metric summary_type b m = summary_series f b (or_no_summary m.summary)
  convert_metric histogram_type b m = convert_histogram b false (or_no_histogram m.histogram)
  convert_metric gauge_histogram_type b m = convert_histogram b true (or_no_histogram m.histogram)

  unfoldable pub convert_metrics :
      Bytes → ℤ → MetricType → List Metric → Result Error (List TimeSeries)
  unfolding base_labels convert_metric
  convert_metrics name default_timestamp kind [] = ok []
  convert_metrics name default_timestamp kind (m ∷ ms) = do
    labels ← base_labels name m.label
    first ←
        convert_metric kind
          (record {
            name = name;
            labels = labels;
            timestamp = metric_timestamp options default_timestamp m.timestamp_ms;
          })
          m
    rest ← convert_metrics name default_timestamp kind ms
    ok (first ++ rest)

  unfoldable pub convert_family : ℤ → MetricFamily → Result Error (List TimeSeries)
  unfolding is_valid_name metric_type convert_metrics
  convert_family default_timestamp family = do
    let name = or_empty family.name
    refuse (is_empty name) unnamed_family
    refuse (not (is_valid_name name true)) (invalid_metric_name name)
    kind ← metric_type (or_zero_int family.kind)
    convert_metrics name default_timestamp kind family.metric

  -- `while !rest.is_empty()`, on fuel. `decode` is `decode_length_delimited`, which gives the family
  -- and the bytes behind it.
  unfoldable pub parse_families :
      (Bytes → Option (MetricFamily × Bytes)) → ℕ → ℤ → Bytes → Result Error (List TimeSeries)
  unfolding convert_family
  parse_families decode fuel default_timestamp [] = ok []
  parse_families decode zero default_timestamp (c ∷ body) = err out_of_fuel
  parse_families decode (suc fuel) default_timestamp (c ∷ body) = do
    decoded ← or_err (decode (c ∷ body)) decode_failed
    first ← convert_family default_timestamp decoded.0
    later ← parse_families decode fuel default_timestamp decoded.1
    ok (first ++ later)

  unfoldable pub parse_protobuf :
      (Bytes → Option (MetricFamily × Bytes)) → Bytes → ℤ → Result Error (List TimeSeries)
  unfolding parse_families
  parse_protobuf decode body default_timestamp =
      parse_families decode (length body) default_timestamp body
