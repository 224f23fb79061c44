-- ===== src/Wire.antt =====
-- The hand-written protobuf encoder of src/model.rs. A buffer is the bytes written so far, and a
-- `put` function returns it with its own bytes behind. Sizes are `usize` values that do not overflow.
pub mod Varint
pub mod Zigzag
pub mod Message
pub mod Encode
pub mod Length
pub mod Histograms
pub mod Request
pub mod Read
pub mod Fields
pub mod Packed
pub mod Received
pub mod RoundTrip
use prometheus_scrape_rs.Base.{
  ℕ, zero, suc, ◌+◌, ◌-◌, ◌*◌, ◌/◌, ◌%◌, ◌^◌, ◌<◌, bit_and, bit_or, bit_xor, List, [], ◌∷◌, ◌++◌,
  Option, none, some, Bytes, ltb, ◌==◌, if◌then◌else◌, length, arith, lt_wf, dec_lt,
}
use prometheus_scrape_rs.Base.Int.{ℤ, pos, negsuc, eqb_ℤ}
use prometheus_scrape_rs.Model.{
  Float, is_zero, Label, Sample, HistogramCount, int, float, BucketSpan, ResetHint, unknown, reset,
  no_reset, gauge, Histogram, TimeSeries, WriteRequest,
}
use mathlib.Core.Logic.{dite}
use mathlib.Core.WellFounded.{Acc}

-- `u64::leading_zeros`, from the top of `width` bits down.
unfoldable pub leading_zeros_from : ℕ → ℕ → ℕ
leading_zeros_from zero value = 0
leading_zeros_from (suc width) value =
    if ltb value (2 ^ width) then suc (leading_zeros_from width value) else 0

unfoldable pub leading_zeros : ℕ → ℕ
unfolding leading_zeros_from
leading_zeros value = leading_zeros_from 64 value

unfoldable pub varint_len : ℕ → ℕ
varint_len value = (bit_xor (leading_zeros (bit_or value 1)) 63 * 9 + 73) / 64

-- `while value >= 0x80 { push; value >>= 7 } push`
put_varint_loop : (value : ℕ) → Acc ◌<◌ value → Bytes → Bytes
put_varint_loop value (Acc.intro _ smaller) buf =
    dite (dec_lt value 0x80) (λ _. buf ++ (value % 256) ∷ [])
      (λ more.
        put_varint_loop (value / 2 ^ 7) (smaller _ (omega arith))
          (buf ++ bit_or (bit_and value 0x7f % 256) 0x80 ∷ []))

unfoldable pub put_varint : ℕ → Bytes → Bytes
unfolding put_varint_loop lt_wf dec_lt
put_varint value buf = put_varint_loop value (lt_wf.apply value) buf

unfoldable pub string_field_len : Bytes → ℕ
string_field_len [] = 0
string_field_len (c ∷ cs) = 1 + varint_len (length (c ∷ cs)) + length (c ∷ cs)

unfoldable pub put_string_field : ℕ → Bytes → Bytes → Bytes
put_string_field tag [] buf = buf
put_string_field tag (c ∷ cs) buf = put_varint (length (c ∷ cs)) (buf ++ tag ∷ []) ++ (c ∷ cs)

-- The two's complement bits of an `i64`.
unfoldable pub int64_bits : ℤ → ℕ
int64_bits (pos n) = n
int64_bits (negsuc n) = 2 ^ 64 - 1 - n

-- `to_le_bytes` of a value of `n` bytes.
unfoldable pub le_bytes : ℕ → ℕ → Bytes
le_bytes zero value = []
le_bytes (suc n) value = (value % 256) ∷ le_bytes n (value / 256)

-- `int64_bits((value << 1) ^ (value >> 63))`; the right shift is arithmetic.
abbrev sign_bits : ℤ → ℕ
sign_bits (pos n) = 0
sign_bits (negsuc n) = 2 ^ 64 - 1

unfoldable pub zigzag : ℤ → ℕ
unfolding int64_bits
zigzag value = bit_xor (int64_bits value * 2 % 2 ^ 64) (sign_bits value)

unfoldable pub label_wire_len : Label → ℕ
label_wire_len l = string_field_len l.name + string_field_len l.value

unfoldable pub sample_wire_len : Sample → ℕ
sample_wire_len s =
    (if is_zero s.value then 0 else 9)
    + (if eqb_ℤ s.timestamp (pos 0) then 0 else 1 + varint_len (int64_bits s.timestamp))

unfoldable pub put_double : ℕ → Float → Bytes → Bytes
put_double tag value buf = buf ++ tag ∷ le_bytes 8 value

unfoldable pub sample_put_fields : Sample → Bytes → Bytes
sample_put_fields s buf =
    let with_value = if is_zero s.value then buf else put_double 0x09 s.value buf in
    if eqb_ℤ s.timestamp (pos 0)
    then with_value
    else put_varint (int64_bits s.timestamp) (with_value ++ 0x10 ∷ [])

unfoldable pub packed_field_len : ℕ → ℕ
packed_field_len payload = if payload == 0 then 0 else 1 + varint_len payload + payload

unfoldable pub count_wire_len : HistogramCount → ℕ
count_wire_len (int count) = 1 + varint_len count
count_wire_len (float _) = 9

unfoldable pub count_put : HistogramCount → ℕ → ℕ → Bytes → Bytes
count_put (int count) int_tag float_tag buf = put_varint count (buf ++ int_tag ∷ [])
count_put (float count) int_tag float_tag buf = put_double float_tag count buf

unfoldable pub span_wire_len : BucketSpan → ℕ
span_wire_len s =
    (if eqb_ℤ s.offset (pos 0) then 0 else 1 + varint_len (zigzag s.offset))
    + (if s.length == 0 then 0 else 1 + varint_len s.length)

unfoldable pub span_put_fields : BucketSpan → Bytes → Bytes
span_put_fields s buf =
    let with_offset =
      if eqb_ℤ s.offset (pos 0) then buf else put_varint (zigzag s.offset) (buf ++ 0x08 ∷ []) in
    if s.length == 0 then with_offset else put_varint s.length (with_offset ++ 0x10 ∷ [])

unfoldable pub spans_len : List BucketSpan → ℕ
spans_len [] = 0
spans_len (s ∷ spans) = 1 + varint_len (span_wire_len s) + span_wire_len s + spans_len spans

unfoldable pub put_spans : ℕ → List BucketSpan → Bytes → Bytes
put_spans tag [] buf = buf
put_spans tag (s ∷ spans) buf =
    put_spans tag spans (span_put_fields s (put_varint (span_wire_len s) (buf ++ tag ∷ [])))

unfoldable pub deltas_payload_len : List ℤ → ℕ
deltas_payload_len [] = 0
deltas_payload_len (d ∷ deltas) = varint_len (zigzag d) + deltas_payload_len deltas

unfoldable pub put_delta_values : List ℤ → Bytes → Bytes
put_delta_values [] buf = buf
put_delta_values (d ∷ deltas) buf = put_delta_values deltas (put_varint (zigzag d) buf)

unfoldable pub put_deltas : ℕ → List ℤ → Bytes → Bytes
put_deltas tag [] buf = buf
put_deltas tag (d ∷ deltas) buf =
    put_delta_values (d ∷ deltas) (put_varint (deltas_payload_len (d ∷ deltas)) (buf ++ tag ∷ []))

unfoldable pub put_count_values : List Float → Bytes → Bytes
put_count_values [] buf = buf
put_count_values (c ∷ counts) buf = put_count_values counts (buf ++ le_bytes 8 c)

unfoldable pub put_counts : ℕ → List Float → Bytes → Bytes
put_counts tag [] buf = buf
put_counts tag (c ∷ counts) buf =
    put_count_values (c ∷ counts) (put_varint (length (c ∷ counts) * 8) (buf ++ tag ∷ []))

-- The discriminant, which is also what `reset_hint as u8` writes.
unfoldable pub hint_number : ResetHint → ℕ
hint_number unknown = 0
hint_number reset = 1
hint_number no_reset = 2
hint_number gauge = 3

unfoldable pub histogram_wire_len : Histogram → ℤ → ℕ
histogram_wire_len h timestamp =
    count_wire_len h.count
    + count_wire_len h.zero_count
    + (if is_zero h.sum then 0 else 9)
    + (if eqb_ℤ h.schema (pos 0) then 0 else 1 + varint_len (zigzag h.schema))
    + (if is_zero h.zero_threshold then 0 else 9)
    + (spans_len h.negative_spans + spans_len h.positive_spans)
    + (packed_field_len (deltas_payload_len h.negative_deltas)
        + packed_field_len (deltas_payload_len h.positive_deltas))
    + (packed_field_len (length h.negative_counts * 8)
        + packed_field_len (length h.positive_counts * 8))
    + (if hint_number h.reset_hint == 0 then 0 else 2)
    + (if eqb_ℤ timestamp (pos 0) then 0 else 1 + varint_len (int64_bits timestamp))

unfoldable pub put_nonzero_double : ℕ → Float → Bytes → Bytes
put_nonzero_double tag value buf = if is_zero value then buf else put_double tag value buf

unfoldable pub histogram_put_fields : Histogram → ℤ → Bytes → Bytes
histogram_put_fields h timestamp buf =
    let counted = count_put h.count 0x08 0x11 buf in
    let summed = put_nonzero_double 0x19 h.sum counted in
    let scaled =
      if eqb_ℤ h.schema (pos 0)
      then summed
      else put_varint (zigzag h.schema) (summed ++ 0x20 ∷ []) in
    let thresholded = put_nonzero_double 0x29 h.zero_threshold scaled in
    let zeroed = count_put h.zero_count 0x30 0x39 thresholded in
    let negative =
      put_counts 0x52 h.negative_counts
        (put_deltas 0x4a h.negative_deltas (put_spans 0x42 h.negative_spans zeroed)) in
    let positive =
      put_counts 0x6a h.positive_counts
        (put_deltas 0x62 h.positive_deltas (put_spans 0x5a h.positive_spans negative)) in
    let hinted =
      if hint_number h.reset_hint == 0
      then positive
      else positive ++ 0x70 ∷ hint_number h.reset_hint ∷ [] in
    if eqb_ℤ timestamp (pos 0)
    then hinted
    else put_varint (int64_bits timestamp) (hinted ++ 0x78 ∷ [])

-- `match &self.histogram`
unfoldable pub value_wire_len_of : Option Histogram → Sample → ℕ
value_wire_len_of (some h) s = histogram_wire_len h s.timestamp
value_wire_len_of none s = sample_wire_len s

unfoldable pub value_wire_len : TimeSeries → ℕ
value_wire_len series = value_wire_len_of series.histogram series.sample

unfoldable pub put_value_of : Option Histogram → Sample → ℕ → ℕ → Bytes → Bytes
put_value_of (some h) s sample_tag histogram_tag buf =
    histogram_put_fields h s.timestamp
      (put_varint (histogram_wire_len h s.timestamp) (buf ++ histogram_tag ∷ []))
put_value_of none s sample_tag histogram_tag buf =
    sample_put_fields s (put_varint (sample_wire_len s) (buf ++ sample_tag ∷ []))

unfoldable pub put_value : TimeSeries → ℕ → ℕ → Bytes → Bytes
put_value series = put_value_of series.histogram series.sample

unfoldable pub labels_wire_len : List Label → ℕ
labels_wire_len [] = 0
labels_wire_len (l ∷ ls) = 1 + varint_len (label_wire_len l) + label_wire_len l + labels_wire_len ls

unfoldable pub series_wire_len : TimeSeries → ℕ
series_wire_len series =
    labels_wire_len series.labels + 1 + varint_len (value_wire_len series) + value_wire_len series

unfoldable pub put_labels : List Label → Bytes → Bytes
put_labels [] buf = buf
put_labels (l ∷ ls) buf = put_labels ls (
    put_string_field 0x12 l.value
      (put_string_field 0x0a l.name (put_varint (label_wire_len l) (buf ++ 0x0a ∷ []))))

unfoldable pub encode_series : List TimeSeries → Bytes → Bytes
encode_series [] buf = buf
encode_series (s ∷ rest) buf = encode_series rest (
    put_value s 0x12 0x22 (put_labels s.labels (put_varint (series_wire_len s) (buf ++ 0x0a ∷ []))))

-- `WriteRequest::encode_into`
unfoldable pub encode_into : WriteRequest → Bytes → Bytes
encode_into request buf = encode_series request.timeseries buf
