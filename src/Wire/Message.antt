-- ===== src/Wire/Message.antt =====
-- The protobuf wire format by its own rules: a message is a list of fields, a nested message is
-- printed first and its bytes are counted. The encoder of model.rs is compared with this.
use prometheus_scrape_rs.Base.{
  ℕ, suc, ◌+◌, ◌*◌, List, [], ◌∷◌, ◌++◌, Bytes, length, Option, none, some, if◌then◌else◌, ◌==◌,
}
use prometheus_scrape_rs.Base.Int.{ℤ, pos, eqb_ℤ}
use prometheus_scrape_rs.Model.{
  Float, is_zero, Label, Sample, HistogramCount, int, float, BucketSpan, Histogram, TimeSeries,
}
use prometheus_scrape_rs.Wire.{put_varint, le_bytes, int64_bits, zigzag, hint_number}

-- A field: its number and its payload.
pub data Field : Type 0 where
  varint : ℕ → ℕ → Field
  fixed64 : ℕ → ℕ → Field
  bytes : ℕ → Bytes → Field

-- The key is the number of the field times eight, plus the wire type.
unfoldable pub print_field : Field → Bytes
print_field (varint n v) = put_varint (n * 8) [] ++ put_varint v []
print_field (fixed64 n v) = put_varint (n * 8 + 1) [] ++ le_bytes 8 v
print_field (bytes n b) = put_varint (n * 8 + 2) [] ++ (put_varint (length b) [] ++ b)

unfoldable pub print : List Field → Bytes
print [] = []
print (f ∷ fs) = print_field f ++ print fs

-- Proto3 leaves out a scalar with its default value.
unfoldable pub string_field : ℕ → Bytes → List Field
string_field n [] = []
string_field n (c ∷ cs) = bytes n (c ∷ cs) ∷ []

unfoldable pub double_field : ℕ → Float → List Field
double_field n v = if is_zero v then [] else fixed64 n v ∷ []

unfoldable pub int64_field : ℕ → ℤ → List Field
int64_field n v = if eqb_ℤ v (pos 0) then [] else varint n (int64_bits v) ∷ []

unfoldable pub sint_field : ℕ → ℤ → List Field
sint_field n v = if eqb_ℤ v (pos 0) then [] else varint n (zigzag v) ∷ []

unfoldable pub uint_field : ℕ → ℕ → List Field
uint_field n v = if v == 0 then [] else varint n v ∷ []

unfoldable pub label_message : Label → List Field
label_message l = string_field 1 l.name ++ string_field 2 l.value

unfoldable pub sample_message : Sample → List Field
sample_message s = double_field 1 s.value ++ int64_field 2 s.timestamp

-- A oneof is written whichever variant is set.
unfoldable pub count_field : ℕ → HistogramCount → List Field
count_field n (int c) = varint n c ∷ []
count_field n (float c) = fixed64 (suc n) c ∷ []

unfoldable pub span_message : BucketSpan → List Field
span_message s = sint_field 1 s.offset ++ uint_field 2 s.length

unfoldable pub span_fields : ℕ → List BucketSpan → List Field
span_fields n [] = []
span_fields n (s ∷ spans) = bytes n (print (span_message s)) ∷ span_fields n spans

-- Packed repeated fields.
unfoldable pub delta_bytes : List ℤ → Bytes
delta_bytes [] = []
delta_bytes (d ∷ deltas) = put_varint (zigzag d) [] ++ delta_bytes deltas

unfoldable pub delta_field : ℕ → List ℤ → List Field
delta_field n [] = []
delta_field n (d ∷ deltas) = bytes n (delta_bytes (d ∷ deltas)) ∷ []

unfoldable pub double_bytes : List Float → Bytes
double_bytes [] = []
double_bytes (c ∷ counts) = le_bytes 8 c ++ double_bytes counts

unfoldable pub double_list_field : ℕ → List Float → List Field
double_list_field n [] = []
double_list_field n (c ∷ counts) = bytes n (double_bytes (c ∷ counts)) ∷ []

unfoldable pub histogram_message : Histogram → ℤ → List Field
histogram_message h timestamp =
    count_field 1 h.count
    ++ (double_field 3 h.sum
        ++ (sint_field 4 h.schema
            ++ (double_field 5 h.zero_threshold
                ++ (count_field 6 h.zero_count
                    ++ (span_fields 8 h.negative_spans
                        ++ (delta_field 9 h.negative_deltas
                            ++ (double_list_field 10 h.negative_counts
                                ++ (span_fields 11 h.positive_spans
                                    ++ (delta_field 12 h.positive_deltas
                                        ++ (double_list_field 13 h.positive_counts
                                            ++ (uint_field 14 (hint_number h.reset_hint)
                                                ++ int64_field 15 timestamp)))))))))))

-- The one value of a series: its histogram, or else its sample, under the number of its kind.
unfoldable pub value_message : Option Histogram → Sample → List Field
value_message (some h) s = histogram_message h s.timestamp
value_message none s = sample_message s

unfoldable pub value_number : ℕ → ℕ → Option Histogram → ℕ
value_number sample histogram (some h) = histogram
value_number sample histogram none = sample

unfoldable pub value_field : ℕ → ℕ → Option Histogram → Sample → Field
value_field sample histogram h s =
    bytes (value_number sample histogram h) (print (value_message h s))

unfoldable pub label_fields : List Label → List Field
label_fields [] = []
label_fields (l ∷ ls) = bytes 1 (print (label_message l)) ∷ label_fields ls

unfoldable pub series_message : TimeSeries → List Field
series_message s = label_fields s.labels ++ value_field 2 4 s.histogram s.sample ∷ []

unfoldable pub request_message : List TimeSeries → List Field
request_message [] = []
request_message (s ∷ rest) = bytes 1 (print (series_message s)) ∷ request_message rest
