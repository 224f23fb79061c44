-- ===== src/Wire/RoundTrip.antt =====
-- What a receiver reads from a request: the labels of every series in order, and its one value.
use mathlib.Core.Option
use prometheus_scrape_rs.Base.{
  ℕ, List, [], ◌∷◌, ◌++◌, Bytes, All, append-nil, Option, none, some, map, arith, ◌≡◌, refl, ap,
  ◌∙◌, if◌then◌else◌, ◌==◌,
}
use prometheus_scrape_rs.Base.Int.{pos}
use prometheus_scrape_rs.Model.{
  Label, Sample, IsSample, Histogram, IsHistogramOption, TimeSeries, WriteRequest,
}
use prometheus_scrape_rs.Wire.{encode_into}
use prometheus_scrape_rs.Wire.Zigzag.{from_int64_bits, from_int64_bits-int64_bits, eqb_ℤ-eq}
use prometheus_scrape_rs.Wire.Message.{
  Field, varint, fixed64, bytes, string_field, double_field, int64_field, label_message,
  sample_message, histogram_message, value_message, value_number, value_field, label_fields,
  series_message, request_message,
}
use prometheus_scrape_rs.Wire.Fields.{
  histogram_message-IsField, label_message-IsField, request_message-IsField, sample_message-IsField,
  series_message-IsField,
}
use prometheus_scrape_rs.Wire.Read.{read_message, read_message-print, ◌>>=◌}
use prometheus_scrape_rs.Wire.Received.{
  WireHistogram, read_histogram, arrived_double, arrived_histogram,
}
use prometheus_scrape_rs.Wire.Received.Histograms.{read_histogram-message}
use prometheus_scrape_rs.Wire.Request.{IsWire, encode_into-print}

-- A reader starts from default values and takes the fields that it knows.
unfoldable pub read_label_from : Label → List Field → Label
read_label_from l [] = l
read_label_from l (bytes n b ∷ fs) =
    read_label_from
      (if n == 1 then record l { name = b } else if n == 2 then record l { value = b } else l) fs
read_label_from l (varint n v ∷ fs) = read_label_from l fs
read_label_from l (fixed64 n v ∷ fs) = read_label_from l fs

unfoldable pub read_label : List Field → Label
unfolding read_label_from
read_label = read_label_from (record { name = []; value = [] })

unfoldable pub read_sample_from : Sample → List Field → Sample
read_sample_from s [] = s
read_sample_from s (fixed64 n v ∷ fs) =
    read_sample_from (if n == 1 then record s { value = v } else s) fs
read_sample_from s (varint n v ∷ fs) =
    read_sample_from (if n == 2 then record s { timestamp = from_int64_bits v } else s) fs
read_sample_from s (bytes n b ∷ fs) = read_sample_from s fs

unfoldable pub read_sample : List Field → Sample
unfolding read_sample_from
read_sample = read_sample_from (record { value = 0; timestamp = pos 0 })

-- A series as it arrives.
pub record WireSeries : Type 0 where
  pub labels : List Label
  pub samples : List Sample
  pub histograms : List WireHistogram

add_field : ℕ → List Field → WireSeries → Option WireSeries
add_field n m s =
    if n == 1
    then some (record s { labels = read_label m ∷ s.labels })
    else if n == 2
    then some (record s { samples = read_sample m ∷ s.samples })
    else if n == 4
    then Option.map (λ h. record s { histograms = h ∷ s.histograms }) (read_histogram m)
    else some s

unfoldable pub read_series : List Field → Option WireSeries
unfolding add_field
read_series [] = some (record { labels = []; samples = []; histograms = [] })
read_series (bytes n b ∷ fs) = do m ← read_message b; s ← read_series fs; add_field n m s
read_series (varint n v ∷ fs) = read_series fs
read_series (fixed64 n v ∷ fs) = read_series fs

unfoldable pub read_request : List Field → Option (List WireSeries)
read_request [] = some []
read_request (bytes n b ∷ fs) = do
  m ← read_message b
  s ← read_series m
  rest ← read_request fs
  some (if n == 1 then s ∷ rest else rest)
read_request (varint n v ∷ fs) = read_request fs
read_request (fixed64 n v ∷ fs) = read_request fs

-- What is meant to arrive. A negative zero is a default value too, and arrives as zero, in a sample as
-- in the sum and the zero threshold of a histogram.
abbrev pub sent_sample : Sample → Sample
sent_sample s = record s { value = arrived_double s.value }

abbrev pub sent_value : List Label → Option Histogram → Sample → WireSeries
sent_value ls (some h) s = record {
  labels = ls;
  samples = [];
  histograms = record { histogram = arrived_histogram h; timestamp = s.timestamp } ∷ [];
}
sent_value ls none s = record { labels = ls; samples = sent_sample s ∷ []; histograms = [] }

abbrev pub sent_series : TimeSeries → WireSeries
sent_series s = sent_value s.labels s.histogram s.sample

read_label-message : (l : Label) → read_label (label_message l) ≡ l
unfolding read_label label_message string_field
read_label-message l = by_text l.name l.value
  where
    by_text :
        (n v : Bytes)
        → read_label_from (record { name = []; value = [] }) (string_field 1 n ++ string_field 2 v)
          ≡ record { name = n; value = v }
    by_text [] [] = refl
    by_text [] (v ∷ vs) = refl
    by_text (n ∷ ns) [] = refl
    by_text (n ∷ ns) (v ∷ vs) = refl

read_sample-message : (s : Sample) → IsSample s → read_sample (sample_message s) ≡ sent_sample s
unfolding read_sample sample_message double_field int64_field
read_sample-message s r =
    ground (
      arith,
      eqb_ℤ-eq s.timestamp (pos 0),
      from_int64_bits-int64_bits s.timestamp r.timestamp_range,
    )

-- The labels of a series, in front of its value.
read_series-label_fields :
    (ls : List Label) (tail : List Field) {s : WireSeries}
    → read_series tail ≡ some s
    → read_series (label_fields ls ++ tail) ≡ some (record s { labels = ls ++ s.labels })
unfolding read_series label_fields
read_series-label_fields [] tail h = h
read_series-label_fields (l ∷ ls) tail h = rw (
  read_message-print (label_message l) (label_message-IsField l),
  read_series-label_fields ls tail h,
  read_label-message l,
)

read_series-value_field :
    (h : Option Histogram) (s : Sample)
    → IsSample s
    → IsHistogramOption h
    → read_series (value_field 2 4 h s ∷ []) ≡ some (sent_value [] h s)
unfolding read_series value_field value_number value_message
read_series-value_field (some h) s r k = rw (
  read_message-print (histogram_message h s.timestamp) (histogram_message-IsField h s.timestamp k),
  read_histogram-message h s.timestamp k r.timestamp_range,
)
read_series-value_field none s r k =
    rw (read_message-print (sample_message s) (sample_message-IsField s r), read_sample-message s r)

sent_value-labels :
    (ls : List Label) (h : Option Histogram) (s : Sample)
    → record (sent_value [] h s) { labels = ls ++ (sent_value [] h s).labels } ≡ sent_value ls h s
sent_value-labels ls (some h) s = rw append-nil
sent_value-labels ls none s = rw append-nil

read_series-message :
    (s : TimeSeries) → IsWire s → read_series (series_message s) ≡ some (sent_series s)
unfolding series_message
read_series-message s w =
    read_series-label_fields s.labels (value_field 2 4 s.histogram s.sample ∷ [])
      (read_series-value_field s.histogram s.sample w.ranges.sample_range w.ranges.histogram_range)
    ∙ ap some (sent_value-labels s.labels s.histogram s.sample)

read_request-message :
    (series : List TimeSeries)
    → All IsWire series
    → read_request (request_message series) ≡ some (map sent_series series)
unfolding read_request request_message
read_request-message [] w = refl
read_request-message (s ∷ rest) (w, ws) = rw (
  read_message-print (series_message s) (series_message-IsField s),
  read_series-message s w,
  read_request-message rest ws,
)

-- A receiver that decodes the bytes of `encode_into` gets every series back, in order, with its
-- labels in order and its one sample or its one histogram, decoded field by field, with the timestamp,
-- when all integers are in range and each size is a `usize`. Only a negative zero as the value of a sample, or
-- as the sum or the zero threshold of a histogram, arrives as zero.
pub read-encode_into :
    (request : WriteRequest)
    → All IsWire request.timeseries
    → (read_message (encode_into request []) >>= read_request)
      ≡ some (map sent_series request.timeseries)
read-encode_into request w =
    rw
      (
        encode_into-print request [] w,
        read_message-print (request_message request.timeseries)
            (request_message-IsField request.timeseries),
      )
      (read_request-message request.timeseries w)
