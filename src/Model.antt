-- ===== src/Model.antt =====
-- The series types of src/model.rs. A `CompactString` is its bytes, an `f64` its bit pattern as a
-- number below 2 ^ 64, an `i64` or `i32` an integer, a `u64` or `u32` a number.
pub mod Sort
pub mod SortLaws
use prometheus_scrape_rs.Base.{
  ℕ, ◌^◌, ◌<◌, ◌==◌, Bool, ◌&&◌, ◌||◌, List, [], ◌∷◌, Option, none, some, Bytes, leb, ltb, All,
}
use prometheus_scrape_rs.Base.Int.{ℤ, IsU64, IsI64, IsI32}

-- `METRIC_NAME_LABEL`: "__name__"
abbrev pub metric_name_label : Bytes
metric_name_label = b'_' ∷ b'_' ∷ b'n' ∷ b'a' ∷ b'm' ∷ b'e' ∷ b'_' ∷ b'_' ∷ []

-- The bit pattern of an `f64`.
abbrev pub Float : Type 0
Float = ℕ

-- `stale_nan().to_bits()`
abbrev pub stale_nan : Float
stale_nan = 0x7ff0_0000_0000_0002

pub is_stale_nan : Float → Bool
is_stale_nan value = value == stale_nan

-- `value == 0.0`: the two zeros, and no NaN.
abbrev pub is_zero : Float → Bool
is_zero value = value == 0 || value == 2 ^ 63

-- `value > 0.0`: sign bit clear, not zero, not above infinity (a NaN).
abbrev pub is_positive : Float → Bool
is_positive value = ltb 0 value && leb value 0x7ff0_0000_0000_0000

pub record Label : Type 0 where
  pub name : Bytes
  pub value : Bytes

pub record Sample : Type 0 where
  pub value : Float
  pub timestamp : ℤ

pub data HistogramCount : Type 0 where
  int : ℕ → HistogramCount
  float : Float → HistogramCount

pub record BucketSpan : Type 0 where
  pub offset : ℤ
  pub length : ℕ

pub data ResetHint : Type 0 where
  unknown reset no_reset gauge : ResetHint

pub record Histogram : Type 0 where
  pub count : HistogramCount
  pub sum : Float
  pub schema : ℤ
  pub zero_threshold : Float
  pub zero_count : HistogramCount
  pub negative_spans : List BucketSpan
  pub negative_deltas : List ℤ
  pub negative_counts : List Float
  pub positive_spans : List BucketSpan
  pub positive_deltas : List ℤ
  pub positive_counts : List Float
  pub reset_hint : ResetHint

pub record TimeSeries : Type 0 where
  pub labels : List Label
  pub sample : Sample
  pub identity_hash : ℕ
  pub histogram : Option Histogram

pub record WriteRequest : Type 0 where
  pub timeseries : List TimeSeries

-- The ranges of the machine integers that the fields are.
abbrev pub IsCount : HistogramCount → Type 0
IsCount (int n) = IsU64 n
IsCount (float x) = IsU64 x

pub record IsSpan (s : BucketSpan) : Type 0 where
  pub offset_range : IsI32 s.offset
  pub length_range : s.length < 2 ^ 32

pub record IsHistogram (h : Histogram) : Type 0 where
  pub count_range : IsCount h.count
  pub sum_range : IsU64 h.sum
  pub schema_range : IsI32 h.schema
  pub zero_threshold_range : IsU64 h.zero_threshold
  pub zero_count_range : IsCount h.zero_count
  pub negative_span_range : All IsSpan h.negative_spans
  pub negative_delta_range : All IsI64 h.negative_deltas
  pub negative_count_range : All IsU64 h.negative_counts
  pub positive_span_range : All IsSpan h.positive_spans
  pub positive_delta_range : All IsI64 h.positive_deltas
  pub positive_count_range : All IsU64 h.positive_counts

abbrev pub IsHistogramOption : Option Histogram → Type 0
IsHistogramOption none = Unit {0}
IsHistogramOption (some h) = IsHistogram h

pub record IsSample (s : Sample) : Type 0 where
  pub value_range : IsU64 s.value
  pub timestamp_range : IsI64 s.timestamp

pub record IsSeries (s : TimeSeries) : Type 0 where
  pub sample_range : IsSample s.sample
  pub histogram_range : IsHistogramOption s.histogram
