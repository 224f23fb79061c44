-- ===== src/Wire/Fields.antt =====
-- The messages of a request as fields that can be printed and read.
use prometheus_scrape_rs.Base.{
  ℕ, List, [], ◌∷◌, ◌++◌, Bytes, All, All-append, if◌then◌else◌, ◌==◌, Bool, true, false,
}
use prometheus_scrape_rs.Base.Int.{ℤ, pos, eqb_ℤ, IsU64}
use prometheus_scrape_rs.Model.{
  Float, is_zero, Label, Sample, IsSample, Histogram, HistogramCount, IsHistogram, IsCount, int,
  float, TimeSeries, BucketSpan,
}
use prometheus_scrape_rs.Wire.{int64_bits, hint_number}
use prometheus_scrape_rs.Wire.Message.{
  Field, varint, fixed64, string_field, double_field, int64_field, sint_field, uint_field,
  count_field, span_fields, span_message, delta_field, double_list_field, label_message,
  sample_message, histogram_message, value_field, label_fields, series_message, request_message,
}
use prometheus_scrape_rs.Wire.Read.{IsField}

-- Every field of a message is well formed, given the ranges of the values in it.
pub string_field-IsField : (n : ℕ) (s : Bytes) → All IsField (string_field n s)
unfolding string_field
string_field-IsField n [] = tt
string_field-IsField n (c ∷ cs) = (tt, tt)

pub double_field-IsField : (n v : ℕ) → IsU64 v → All IsField (double_field n v)
unfolding double_field
double_field-IsField n v u =
    elim (is_zero v) as (λ z. All IsField (if z then [] else fixed64 n v ∷ [])) [
      | true ↦ tt
      | false ↦ (u, tt)
    ]

optional-IsField : (absent : Bool) (n v : ℕ) → All IsField (if absent then [] else varint n v ∷ [])
optional-IsField true n v = tt
optional-IsField false n v = (tt, tt)

pub int64_field-IsField : (n : ℕ) (v : ℤ) → All IsField (int64_field n v)
unfolding int64_field
int64_field-IsField n v = optional-IsField (eqb_ℤ v (pos 0)) n (int64_bits v)

pub sint_field-IsField : (n : ℕ) (v : ℤ) → All IsField (sint_field n v)
unfolding sint_field
sint_field-IsField n v = optional-IsField (eqb_ℤ v (pos 0)) n _

uint_field-IsField : (n v : ℕ) → All IsField (uint_field n v)
unfolding uint_field
uint_field-IsField n v = optional-IsField (v == 0) n v

count_field-IsField : (n : ℕ) (c : HistogramCount) → IsCount c → All IsField (count_field n c)
unfolding count_field
count_field-IsField n (int c) u = (tt, tt)
count_field-IsField n (float c) u = (u, tt)

span_fields-IsField : (n : ℕ) (spans : List BucketSpan) → All IsField (span_fields n spans)
unfolding span_fields
span_fields-IsField n [] = tt
span_fields-IsField n (s ∷ spans) = (tt, span_fields-IsField n spans)

delta_field-IsField : (n : ℕ) (deltas : List ℤ) → All IsField (delta_field n deltas)
unfolding delta_field
delta_field-IsField n [] = tt
delta_field-IsField n (d ∷ deltas) = (tt, tt)

double_list_field-IsField : (n : ℕ) (counts : List Float) → All IsField (double_list_field n counts)
unfolding double_list_field
double_list_field-IsField n [] = tt
double_list_field-IsField n (c ∷ counts) = (tt, tt)

both : (xs ys : List Field) → All IsField xs → All IsField ys → All IsField (xs ++ ys)
both = All-append IsField

pub span_message-IsField : (s : BucketSpan) → All IsField (span_message s)
unfolding span_message
span_message-IsField s = both _ _ (sint_field-IsField 1 s.offset) (uint_field-IsField 2 s.length)

pub histogram_message-IsField :
    (h : Histogram) (timestamp : ℤ) → IsHistogram h → All IsField (histogram_message h timestamp)
unfolding histogram_message
histogram_message-IsField h timestamp r = both _ _ (count_field-IsField 1 h.count r.count_range) (
    both _ _ (double_field-IsField 3 h.sum r.sum_range) (
      both _ _ (sint_field-IsField 4 h.schema) (
        both _ _ (double_field-IsField 5 h.zero_threshold r.zero_threshold_range) (
          both _ _ (count_field-IsField 6 h.zero_count r.zero_count_range) (
            both _ _ (span_fields-IsField 8 h.negative_spans) (
              both _ _ (delta_field-IsField 9 h.negative_deltas) (
                both _ _ (double_list_field-IsField 10 h.negative_counts) (
                  both _ _ (span_fields-IsField 11 h.positive_spans) (
                    both _ _ (delta_field-IsField 12 h.positive_deltas) (
                      both _ _ (double_list_field-IsField 13 h.positive_counts) (
                        both _ _ (uint_field-IsField 14 (hint_number h.reset_hint))
                          (int64_field-IsField 15 timestamp))))))))))))

pub label_message-IsField : (l : Label) → All IsField (label_message l)
unfolding label_message
label_message-IsField l = both _ _ (string_field-IsField 1 l.name) (string_field-IsField 2 l.value)

pub sample_message-IsField : (s : Sample) → IsSample s → All IsField (sample_message s)
unfolding sample_message
sample_message-IsField s r =
    both _ _ (double_field-IsField 1 s.value r.value_range) (int64_field-IsField 2 s.timestamp)

pub label_fields-IsField : (ls : List Label) → All IsField (label_fields ls)
unfolding label_fields
label_fields-IsField [] = tt
label_fields-IsField (l ∷ ls) = (tt, label_fields-IsField ls)

pub series_message-IsField : (s : TimeSeries) → All IsField (series_message s)
unfolding series_message value_field
series_message-IsField s = both _ _ (label_fields-IsField s.labels) (tt, tt)

pub request_message-IsField : (series : List TimeSeries) → All IsField (request_message series)
unfolding request_message
request_message-IsField [] = tt
request_message-IsField (s ∷ rest) = (tt, request_message-IsField rest)
