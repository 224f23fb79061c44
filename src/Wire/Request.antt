-- ===== src/Wire/Request.antt =====
-- Series and whole requests of src/model.rs: `encode_into` writes the reference message.
use prometheus_scrape_rs.Base.{
  ℕ, ◌+◌, ◌*◌, ◌<◌, List, [], ◌∷◌, ◌++◌, Bytes, length, Option, none, some, arith, ◌≡◌, refl, sym,
  ◌∙◌, append-nil, All,
}
use prometheus_scrape_rs.Base.Int.{IsU64}
use prometheus_scrape_rs.Model.{
  Label, Sample, IsSample, IsSeries, IsHistogramOption, Histogram, TimeSeries, WriteRequest,
}
use prometheus_scrape_rs.Wire.{
  varint_len, label_wire_len, labels_wire_len, value_wire_len_of, value_wire_len, put_value_of,
  put_value, series_wire_len, put_labels, encode_series, encode_into,
}
use prometheus_scrape_rs.Wire.Encode.{
  label-print, sample_put_fields-print, nested-print, print_after,
}
use prometheus_scrape_rs.Wire.Length.{
  length-print-append, length-print-bytes, label_wire_len-print, sample_wire_len-print,
}
use prometheus_scrape_rs.Wire.Histograms.{histogram_put_fields-print, histogram_wire_len-print}
use prometheus_scrape_rs.Wire.Message.{
  bytes, print, label_message, sample_message, histogram_message, value_message, value_number,
  value_field, label_fields, series_message, request_message,
}

put_labels-print :
    (ls : List Label) (buf : Bytes)
    → IsU64 (labels_wire_len ls)
    → put_labels ls buf ≡ buf ++ print (label_fields ls)
unfolding put_labels label_fields labels_wire_len
put_labels-print [] buf u = unfold print in sym (append-nil buf)
put_labels-print (l ∷ ls) buf u =
    print_after buf (bytes 1 (print (label_message l)) ∷ []) (label_fields ls)
      (label-print l _
        ∙ nested-print 1 (label_wire_len l) (print (label_message l)) buf (omega arith)
            (label_wire_len-print l (omega arith)))
      (put_labels-print ls _ (omega arith))

labels_wire_len-print :
    (ls : List Label)
    → IsU64 (labels_wire_len ls)
    → labels_wire_len ls ≡ length (print (label_fields ls))
unfolding label_fields labels_wire_len
labels_wire_len-print [] u = unfold print in refl
labels_wire_len-print (l ∷ ls) u =
    let size : label_wire_len l ≡ length (print (label_message l)) =
      label_wire_len-print l (omega arith) in
    omega (
      arith,
      length-print-append (bytes 1 (print (label_message l)) ∷ []) (label_fields ls),
      rw (← size) at (length-print-bytes 1 (print (label_message l)) (omega arith) (omega arith)),
      labels_wire_len-print ls (omega arith),
    )

-- The message of the one value, whichever kind it is.
value_wire_len-print :
    (h : Option Histogram) (s : Sample)
    → IsSample s
    → IsHistogramOption h
    → IsU64 (value_wire_len_of h s)
    → value_wire_len_of h s ≡ length (print (value_message h s))
unfolding value_wire_len_of value_message
value_wire_len-print (some h) s r k u = histogram_wire_len-print h s.timestamp k r.timestamp_range u
value_wire_len-print none s r k u = sample_wire_len-print s r

pub put_value-print :
    (sample histogram : ℕ) (h : Option Histogram) (s : Sample) (buf : Bytes)
    → sample * 8 + 2 < 128
    → histogram * 8 + 2 < 128
    → IsSample s
    → IsHistogramOption h
    → IsU64 (value_wire_len_of h s)
    → put_value_of h s (sample * 8 + 2) (histogram * 8 + 2) buf
      ≡ buf ++ print (value_field sample histogram h s ∷ [])
unfolding put_value_of value_field value_number value_message value_wire_len_of
put_value-print sample histogram (some h) s buf p q r k u =
    histogram_put_fields-print h s.timestamp k _
    ∙ nested-print histogram _ (print (histogram_message h s.timestamp)) buf q
        (histogram_wire_len-print h s.timestamp k r.timestamp_range u)
put_value-print sample histogram none s buf p q r k u =
    sample_put_fields-print s _
    ∙ nested-print sample _ (print (sample_message s)) buf p (sample_wire_len-print s r)

length-value_field :
    (sample histogram : ℕ) (h : Option Histogram) (s : Sample)
    → sample * 8 + 2 < 128
    → histogram * 8 + 2 < 128
    → IsSample s
    → IsHistogramOption h
    → IsU64 (value_wire_len_of h s)
    → length (print (value_field sample histogram h s ∷ []))
      ≡ 1 + varint_len (value_wire_len_of h s) + value_wire_len_of h s
unfolding value_field
length-value_field sample histogram h s p q r k u =
    let size : value_wire_len_of h s ≡ length (print (value_message h s)) =
      value_wire_len-print h s r k u in
    rw (← size) at (
      length-print-bytes (value_number sample histogram h) (print (value_message h s)) (number h)
        (omega arith))
  where
    number : (h : Option Histogram) → value_number sample histogram h * 8 + 2 < 128
    number h =
        unfold value_number in
        elim h as (λ h. value_number sample histogram h * 8 + 2 < 128) [ some _ ↦ q | none ↦ p ]

-- A series whose size is a `usize` and whose integers are in range.
pub record IsWire (s : TimeSeries) : Type 0 where
  pub ranges : IsSeries s
  pub size : IsU64 (series_wire_len s)

module _ (s : TimeSeries) (w : IsWire s) where
  series_wire_len-print : series_wire_len s ≡ length (print (series_message s))
  unfolding series_wire_len series_message value_wire_len
  series_wire_len-print = omega (
    arith,
    w.size,
    length-print-append (label_fields s.labels) (value_field 2 4 s.histogram s.sample ∷ []),
    labels_wire_len-print s.labels (omega (arith, w.size)),
    length-value_field 2 4 s.histogram s.sample (omega arith) (omega arith) w.ranges.sample_range
        w.ranges.histogram_range (omega (arith, w.size)),
  )

  put_series-print :
      (buf : Bytes)
      → put_value s 0x12 0x22 (put_labels s.labels buf) ≡ buf ++ print (series_message s)
  unfolding series_message put_value series_wire_len value_wire_len
  put_series-print buf =
      print_after buf (label_fields s.labels) (value_field 2 4 s.histogram s.sample ∷ [])
        (put_labels-print s.labels buf (omega (arith, w.size)))
        (put_value-print 2 4 s.histogram s.sample _ (omega arith) (omega arith)
          w.ranges.sample_range w.ranges.histogram_range (omega (arith, w.size)))

encode_series-print :
    (series : List TimeSeries) (buf : Bytes)
    → All IsWire series
    → encode_series series buf ≡ buf ++ print (request_message series)
unfolding encode_series request_message
encode_series-print [] buf w = unfold print in sym (append-nil buf)
encode_series-print (s ∷ rest) buf (w, ws) =
    print_after buf (bytes 1 (print (series_message s)) ∷ []) (request_message rest)
      (put_series-print s w _
        ∙ nested-print 1 (series_wire_len s) (print (series_message s)) buf (omega arith)
            (series_wire_len-print s w))
      (encode_series-print rest _ ws)

-- The single-pass encoder appends the request that printing every nested message first and
-- counting its bytes gives, when all integers are in range and each series' size is a `usize`.
pub encode_into-print :
    (request : WriteRequest) (buf : Bytes)
    → All IsWire request.timeseries
    → encode_into request buf ≡ buf ++ print (request_message request.timeseries)
unfolding encode_into
encode_into-print request buf w = encode_series-print request.timeseries buf w
