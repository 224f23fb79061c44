-- ===== src/Protobuf.antt =====
-- src/protobuf.rs: the protobuf exposition format. Here stand the messages that are decoded, the
-- settings and the errors; a message carries what its text is made of, not the text.
pub mod Spans
pub mod Native
pub mod Series
pub mod Families
use prometheus_scrape_rs.Base.{ℕ, Bool, List, [], Option, none, some, Bytes}
use prometheus_scrape_rs.Base.Int.{ℤ, pos, negsuc}
use prometheus_scrape_rs.Model.{Float}

-- The `Option` scalars of proto2 keep their absence. `unwrap_or_default` for each kind:
abbrev pub or_empty : Option Bytes → Bytes
or_empty none = []
or_empty (some s) = s

abbrev pub or_zero : Option ℕ → ℕ
or_zero none = 0
or_zero (some n) = n

abbrev pub or_zero_int : Option ℤ → ℤ
or_zero_int none = pos 0
or_zero_int (some n) = n

pub record LabelPair : Type 0 where
  pub name : Option Bytes
  pub value : Option Bytes

pub record Quantile : Type 0 where
  pub quantile : Option Float
  pub value : Option Float

pub record Summary : Type 0 where
  pub sample_count : Option ℕ
  pub sample_sum : Option Float
  pub quantile : List Quantile

pub record Bucket : Type 0 where
  pub cumulative_count : Option ℕ
  pub cumulative_count_float : Option Float
  pub upper_bound : Option Float

pub record ExposedSpan : Type 0 where
  pub offset : Option ℤ
  pub length : Option ℕ

pub record ExposedHistogram : Type 0 where
  pub sample_count : Option ℕ
  pub sample_count_float : Option Float
  pub sample_sum : Option Float
  pub bucket : List Bucket
  pub schema : Option ℤ
  pub zero_threshold : Option Float
  pub zero_count : Option ℕ
  pub zero_count_float : Option Float
  pub negative_span : List ExposedSpan
  pub negative_delta : List ℤ
  pub negative_count : List Float
  pub positive_span : List ExposedSpan
  pub positive_delta : List ℤ
  pub positive_count : List Float

-- `Gauge`, `Counter` and `Untyped` each hold one optional value.
pub record Metric : Type 0 where
  pub label : List LabelPair
  pub gauge : Option (Option Float)
  pub counter : Option (Option Float)
  pub summary : Option Summary
  pub untyped : Option (Option Float)
  pub histogram : Option ExposedHistogram
  pub timestamp_ms : Option ℤ

pub record MetricFamily : Type 0 where
  pub name : Option Bytes
  pub kind : Option ℤ
  pub metric : List Metric

pub data MetricType : Type 0 where
  counter_type gauge_type summary_type untyped_type histogram_type gauge_histogram_type : MetricType

pub record Options : Type 0 where
  pub honor_timestamps : Bool
  pub native_histograms : Bool
  pub classic_histograms : Bool
  pub bucket_limit : ℕ

pub data Side : Type 0 where
  negative positive : Side

pub data Error : Type 0 where
  decode_failed : Error
  unnamed_family : Error
  invalid_metric_name : Bytes → Error
  unknown_metric_type : ℤ → Error
  too_many_labels : Error
  invalid_label_name : Bytes → Error
  duplicate_label : Bytes → Error
  colliding_label : Bytes → Error
  schema_below_minimum : ℤ → Error
  negative_offset : Side → ℤ → Error
  index_out_of_range : ℤ → Error
  coverage_differs : Side → ℕ → ℕ → Error
  count_overflows : Side → Error
  count_negative : Side → ℤ → Error
  spans_cover_more : Error
  above_bucket_limit : ℕ → Error
  out_of_fuel : Error

-- `f64` arithmetic and printing, on bit patterns.
pub record FloatText : Type 0 where
  pub add_f64 : Float → Float → Float
  pub to_f64 : ℕ → Float
  -- `value.to_string()` and `format!("{value:e}")`, the latter cut at its `e`.
  pub display : Float → Bytes
  pub mantissa : Float → Bytes
  pub exponent : Float → ℤ
