-- ===== src/Wire/Histograms.antt =====
-- The histogram message: what `Histogram::put_fields` writes and what `Histogram::wire_len` counts.
use prometheus_scrape_rs.Base.{
  ℕ, ◌+◌, ◌*◌, ◌≤◌, ◌<◌, List, [], ◌∷◌, ◌++◌, Bytes, length, length-append, arith, ◌≡◌, refl, sym,
  ap, ◌∙◌, append_assoc, append-nil, if◌then◌else◌, ◌==◌, All,
}
use prometheus_scrape_rs.Base.Int.{ℤ, IsU64, IsI64}
use prometheus_scrape_rs.Model.{
  Float, IsSpan, IsHistogram, BucketSpan, Histogram, ResetHint, unknown, reset, no_reset, gauge,
}
use prometheus_scrape_rs.Wire.{
  put_varint, varint_len, le_bytes, zigzag, span_wire_len, packed_field_len, deltas_payload_len,
  spans_len, put_spans, put_delta_values, put_deltas, put_count_values, put_counts, hint_number,
  histogram_wire_len, histogram_put_fields,
}
use prometheus_scrape_rs.Wire.Varint.{varint_len-put_varint, put_varint-append, put_varint_last}
use prometheus_scrape_rs.Wire.Zigzag.{zigzag-IsU64, IsI32-IsI64, length-le_bytes}
use prometheus_scrape_rs.Wire.Encode.{
  print-varint, span_put_fields-print, nested-print, print_after, count_put-print,
  put_nonzero_double-print, sint_field-print, int64_field-print,
}
use prometheus_scrape_rs.Wire.Length.{
  length-print-append, length-print-bytes, span_wire_len-print, count_wire_len-print,
  length-double_field, length-sint_field, length-int64_field,
}
use prometheus_scrape_rs.Wire.Message.{
  bytes, print, uint_field, span_message, span_fields, delta_bytes, delta_field, double_bytes,
  double_list_field, histogram_message,
}

put_spans-print :
    (n : ℕ) (spans : List BucketSpan) (buf : Bytes)
    → n * 8 + 2 < 128
    → All IsSpan spans
    → put_spans (n * 8 + 2) spans buf ≡ buf ++ print (span_fields n spans)
unfolding put_spans span_fields
put_spans-print n [] buf h r = unfold print in sym (append-nil buf)
put_spans-print n (s ∷ spans) buf h (r, rs) =
    print_after buf (bytes n (print (span_message s)) ∷ []) (span_fields n spans)
      (span_put_fields-print s _
        ∙ nested-print n (span_wire_len s) (print (span_message s)) buf h (span_wire_len-print s r))
      (put_spans-print n spans _ h rs)

spans_len-print :
    (n : ℕ) (spans : List BucketSpan)
    → n * 8 + 2 < 128
    → All IsSpan spans
    → IsU64 (spans_len spans)
    → spans_len spans ≡ length (print (span_fields n spans))
unfolding spans_len span_fields
spans_len-print n [] h r u = unfold print in refl
spans_len-print n (s ∷ spans) h (r, rs) u =
    let size : span_wire_len s ≡ length (print (span_message s)) = span_wire_len-print s r in
    omega (
      arith,
      length-print-append (bytes n (print (span_message s)) ∷ []) (span_fields n spans),
      rw (← size) at (length-print-bytes n (print (span_message s)) h (omega arith)),
      spans_len-print n spans h rs (omega arith),
    )

put_delta_values-print :
    (deltas : List ℤ) (buf : Bytes) → put_delta_values deltas buf ≡ buf ++ delta_bytes deltas
unfolding put_delta_values delta_bytes
put_delta_values-print [] buf = sym (append-nil buf)
put_delta_values-print (d ∷ deltas) buf =
    put_delta_values-print deltas _
    ∙ ap (λ (t : Bytes). t ++ delta_bytes deltas) (put_varint-append (zigzag d) buf)
    ∙ append_assoc buf (put_varint (zigzag d) []) (delta_bytes deltas)

deltas_payload_len-print :
    (deltas : List ℤ) → All IsI64 deltas → deltas_payload_len deltas ≡ length (delta_bytes deltas)
unfolding deltas_payload_len delta_bytes
deltas_payload_len-print [] r = refl
deltas_payload_len-print (d ∷ deltas) (r, rs) = omega (
  arith,
  length-append (put_varint (zigzag d) []) (delta_bytes deltas),
  varint_len-put_varint (zigzag d) (zigzag-IsU64 d r),
  deltas_payload_len-print deltas rs,
)

put_deltas-print :
    (n : ℕ) (deltas : List ℤ) (buf : Bytes)
    → n * 8 + 2 < 128
    → All IsI64 deltas
    → put_deltas (n * 8 + 2) deltas buf ≡ buf ++ print (delta_field n deltas)
unfolding put_deltas delta_field
put_deltas-print n [] buf h r = unfold print in sym (append-nil buf)
put_deltas-print n (d ∷ deltas) buf h r =
    put_delta_values-print (d ∷ deltas) _
    ∙ nested-print n _ (delta_bytes (d ∷ deltas)) buf h (deltas_payload_len-print (d ∷ deltas) r)

put_count_values-print :
    (counts : List Float) (buf : Bytes) → put_count_values counts buf ≡ buf ++ double_bytes counts
unfolding put_count_values double_bytes
put_count_values-print [] buf = sym (append-nil buf)
put_count_values-print (c ∷ counts) buf =
    put_count_values-print counts _ ∙ append_assoc buf (le_bytes 8 c) (double_bytes counts)

length-double_bytes : (counts : List Float) → length counts * 8 ≡ length (double_bytes counts)
unfolding double_bytes
length-double_bytes [] = refl
length-double_bytes (c ∷ counts) = omega (
  arith,
  length-append (le_bytes 8 c) (double_bytes counts),
  length-le_bytes 8 c,
  length-double_bytes counts,
)

put_counts-print :
    (n : ℕ) (counts : List Float) (buf : Bytes)
    → n * 8 + 2 < 128
    → put_counts (n * 8 + 2) counts buf ≡ buf ++ print (double_list_field n counts)
unfolding put_counts double_list_field
put_counts-print n [] buf h = unfold print in sym (append-nil buf)
put_counts-print n (c ∷ counts) buf h =
    put_count_values-print (c ∷ counts) _
    ∙ nested-print n _ (double_bytes (c ∷ counts)) buf h (length-double_bytes (c ∷ counts))

-- `reset_hint as u8` is one byte.
hint-print :
    (hint : ResetHint) (buf : Bytes)
    → (if hint_number hint == 0 then buf else buf ++ 0x70 ∷ hint_number hint ∷ [])
      ≡ buf ++ print (uint_field 14 (hint_number hint))
unfolding uint_field hint_number
hint-print unknown buf = unfold print in sym (append-nil buf)
hint-print reset buf = rw (print-varint 14 1 (omega arith), put_varint_last 1 [] (omega arith))
hint-print no_reset buf = rw (print-varint 14 2 (omega arith), put_varint_last 2 [] (omega arith))
hint-print gauge buf = rw (print-varint 14 3 (omega arith), put_varint_last 3 [] (omega arith))

-- A packed field is left out when its payload is empty, which an empty list alone gives.
packed-print :
    (n : ℕ) (payload : ℕ) (b : Bytes)
    → n * 8 + 2 < 128
    → payload ≡ length b
    → 0 < payload
    → IsU64 payload
    → packed_field_len payload ≡ length (print (bytes n b ∷ []))
unfolding packed_field_len
packed-print n payload b h e some_bytes u =
    rw (length-print-bytes n b h (omega arith), ← e) (ground arith)

packed_none : (payload : ℕ) → payload ≡ 0 → packed_field_len payload ≡ 0
unfolding packed_field_len
packed_none payload e = ground arith

packed-delta_field :
    (n : ℕ) (deltas : List ℤ)
    → n * 8 + 2 < 128
    → All IsI64 deltas
    → IsU64 (deltas_payload_len deltas)
    → packed_field_len (deltas_payload_len deltas) ≡ length (print (delta_field n deltas))
unfolding delta_field deltas_payload_len
packed-delta_field n [] h r u = packed_none 0 refl ∙ unfold print in refl
packed-delta_field n (d ∷ deltas) h r u =
    packed-print n _ (delta_bytes (d ∷ deltas)) h (deltas_payload_len-print (d ∷ deltas) r)
      (unfold varint_len in omega arith) u

packed-double_list_field :
    (n : ℕ) (counts : List Float)
    → n * 8 + 2 < 128
    → IsU64 (length counts * 8)
    → packed_field_len (length counts * 8) ≡ length (print (double_list_field n counts))
unfolding double_list_field
packed-double_list_field n [] h u = packed_none 0 refl ∙ unfold print in refl
packed-double_list_field n (c ∷ counts) h u =
    packed-print n _ (double_bytes (c ∷ counts)) h (length-double_bytes (c ∷ counts)) (omega arith)
      u

payload-le-packed_field_len : (payload : ℕ) → payload ≤ packed_field_len payload
unfolding packed_field_len
payload-le-packed_field_len payload = ground arith

hint-length :
    (hint : ResetHint)
    → (if hint_number hint == 0 then 0 else 2) ≡ length (print (uint_field 14 (hint_number hint)))
unfolding uint_field hint_number
hint-length unknown = unfold print in refl
hint-length reset = rw (print-varint 14 1 (omega arith), put_varint_last 1 [] (omega arith))
hint-length no_reset = rw (print-varint 14 2 (omega arith), put_varint_last 2 [] (omega arith))
hint-length gauge = rw (print-varint 14 3 (omega arith), put_varint_last 3 [] (omega arith))

module _ (h : Histogram) (timestamp : ℤ) (r : IsHistogram h) where
  -- For a histogram with its integers in range, the encoder appends the fields of the message in the
  -- order of their numbers.
  pub histogram_put_fields-print :
      (buf : Bytes)
      → histogram_put_fields h timestamp buf ≡ buf ++ print (histogram_message h timestamp)
  unfolding histogram_put_fields histogram_message
  histogram_put_fields-print buf = print_after _ _ _ (count_put-print 1 h.count buf (omega arith)) (
      print_after _ _ _ (put_nonzero_double-print 3 h.sum _ (omega arith)) (
        print_after _ _ _ (sint_field-print 4 h.schema _ (omega arith)) (
          print_after _ _ _ (put_nonzero_double-print 5 h.zero_threshold _ (omega arith)) (
            print_after _ _ _ (count_put-print 6 h.zero_count _ (omega arith)) (
              print_after _ _ _
                (put_spans-print 8 h.negative_spans _ (omega arith) r.negative_span_range)
                (print_after _ _ _
                  (put_deltas-print 9 h.negative_deltas _ (omega arith) r.negative_delta_range)
                  (print_after _ _ _ (put_counts-print 10 h.negative_counts _ (omega arith)) (
                    print_after _ _ _
                      (put_spans-print 11 h.positive_spans _ (omega arith) r.positive_span_range)
                      (print_after _ _ _
                        (put_deltas-print 12 h.positive_deltas _ (omega arith)
                          r.positive_delta_range)
                        (print_after _ _ _ (put_counts-print 13 h.positive_counts _ (omega arith)) (
                          print_after _ _ _ (hint-print h.reset_hint _)
                            (int64_field-print 15 timestamp _ (omega arith)))))))))))))

  -- For a histogram with its integers in range and an `i64` timestamp, the size computed first is the
  -- number of bytes of the message, as long as that size fits in 64 bits.
  pub histogram_wire_len-print :
      IsI64 timestamp
      → IsU64 (histogram_wire_len h timestamp)
      → histogram_wire_len h timestamp ≡ length (print (histogram_message h timestamp))
  unfolding histogram_wire_len histogram_message
  histogram_wire_len-print t u = omega (
    arith,
    length-print-append,
    payload-le-packed_field_len,
    count_wire_len-print 1 h.count (omega arith) r.count_range,
    length-double_field 3 h.sum (omega arith),
    length-sint_field 4 h.schema (omega arith) (IsI32-IsI64 h.schema r.schema_range),
    length-double_field 5 h.zero_threshold (omega arith),
    count_wire_len-print 6 h.zero_count (omega arith) r.zero_count_range,
    spans_len-print 8 h.negative_spans (omega arith) r.negative_span_range (omega arith),
    packed-delta_field 9 h.negative_deltas (omega arith) r.negative_delta_range
        (omega (arith, payload-le-packed_field_len)),
    packed-double_list_field 10 h.negative_counts (omega arith)
        (omega (arith, payload-le-packed_field_len)),
    spans_len-print 11 h.positive_spans (omega arith) r.positive_span_range (omega arith),
    packed-delta_field 12 h.positive_deltas (omega arith) r.positive_delta_range
        (omega (arith, payload-le-packed_field_len)),
    packed-double_list_field 13 h.positive_counts (omega arith)
        (omega (arith, payload-le-packed_field_len)),
    hint-length h.reset_hint,
    length-int64_field 15 timestamp (omega arith) t,
  )
