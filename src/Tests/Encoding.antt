-- ===== src/Tests/Encoding.antt =====
-- Tests for the encoder of src/model.rs.
use prometheus_scrape_rs.Base.{[], ◌∷◌, ◌++◌, none, some, map, text, length, arith, ◌≡◌}
use prometheus_scrape_rs.Base.Int.{pos, negsuc, IsU64}
use prometheus_scrape_rs.Model.{TimeSeries, Histogram, int, gauge, IsHistogram, stale_nan}
use prometheus_scrape_rs.Wire.{
  hint_number, varint_len, count_wire_len, sample_wire_len, spans_len, span_wire_len,
  packed_field_len, deltas_payload_len, leading_zeros, leading_zeros_from, int64_bits,
  labels_wire_len, value_wire_len, value_wire_len_of, label_wire_len, string_field_len, put_varint,
  zigzag, encode_into, series_wire_len, histogram_wire_len, histogram_put_fields,
}
use prometheus_scrape_rs.Wire.Message.{print, histogram_message, request_message}
use prometheus_scrape_rs.Wire.Varint.{varint_len-put_varint, get_varint, get_varint-put_varint}
use prometheus_scrape_rs.Wire.Zigzag.{from_zigzag, from_zigzag-zigzag}
use prometheus_scrape_rs.Wire.Histograms.{histogram_put_fields-print, histogram_wire_len-print}
use prometheus_scrape_rs.Wire.Request.{IsWire, encode_into-print}
use prometheus_scrape_rs.Wire.Read.{read_message, ◌>>=◌}
use prometheus_scrape_rs.Wire.RoundTrip.{read_request, sent_series, read-encode_into}

varint_len-put_varint_example : varint_len 300 ≡ length (put_varint 300 [])
varint_len-put_varint_example = varint_len-put_varint 300 (omega arith)

get_varint-put_varint_example : get_varint (put_varint 300 [] ++ 7 ∷ []) ≡ some (300, 7 ∷ [])
get_varint-put_varint_example = get_varint-put_varint 300 (7 ∷ [])

from_zigzag-zigzag_example : from_zigzag (zigzag (negsuc 4)) ≡ negsuc 4
from_zigzag-zigzag_example = from_zigzag-zigzag (negsuc 4) (omega arith, omega arith)

-- A gauge histogram with two positive buckets.
abbrev two_buckets : Histogram
two_buckets = record {
  count = int 3;
  sum = 0x40_08_00_00_00_00_00_00;
  schema = negsuc 0;
  zero_threshold = 0;
  zero_count = int 0;
  negative_spans = [];
  negative_deltas = [];
  negative_counts = [];
  positive_spans = record { offset = negsuc 1; length = 2 } ∷ [];
  positive_deltas = pos 2 ∷ negsuc 0 ∷ [];
  positive_counts = [];
  reset_hint = gauge;
}

two_buckets-IsHistogram : IsHistogram two_buckets
two_buckets-IsHistogram = record {
  count_range = omega arith;
  sum_range = omega arith;
  schema_range = (omega arith, omega arith);
  zero_threshold_range = omega arith;
  zero_count_range = omega arith;
  negative_span_range = tt;
  negative_delta_range = tt;
  negative_count_range = tt;
  positive_span_range =
      (record { offset_range = (omega arith, omega arith); length_range = omega arith }, tt);
  positive_delta_range = ((omega arith, omega arith), ((omega arith, omega arith), tt));
  positive_count_range = tt;
}

histogram_put_fields-print_example :
    histogram_put_fields two_buckets (pos 1000) (7 ∷ [])
    ≡ (7 ∷ []) ++ print (histogram_message two_buckets (pos 1000))
histogram_put_fields-print_example =
    histogram_put_fields-print two_buckets (pos 1000) two_buckets-IsHistogram (7 ∷ [])

two_buckets-len : IsU64 (histogram_wire_len two_buckets (pos 1000))
unfolding histogram_wire_len count_wire_len sample_wire_len spans_len span_wire_len packed_field_len
    deltas_payload_len varint_len leading_zeros leading_zeros_from zigzag int64_bits hint_number
two_buckets-len = omega arith

histogram_wire_len-print_example :
    histogram_wire_len two_buckets (pos 1000)
    ≡ length (print (histogram_message two_buckets (pos 1000)))
histogram_wire_len-print_example =
    histogram_wire_len-print two_buckets (pos 1000) two_buckets-IsHistogram
      (omega arith, omega arith) two_buckets-len

abbrev up : TimeSeries
up = record {
  labels = record { name = text "__name__"; value = text "up" } ∷ [];
  sample = record { value = stale_nan; timestamp = negsuc 0 };
  identity_hash = 0;
  histogram = none;
}

up-len : IsU64 (series_wire_len up)
unfolding series_wire_len labels_wire_len value_wire_len value_wire_len_of label_wire_len
    string_field_len sample_wire_len varint_len leading_zeros leading_zeros_from int64_bits
up-len = omega arith

up-IsWire : IsWire up
up-IsWire = record {
  ranges = record {
    sample_range = record {
      value_range = omega arith;
      timestamp_range = (omega arith, omega arith);
    };
    histogram_range = tt;
  };
  size = up-len;
}

encode_into-print_example :
    encode_into (record { timeseries = up ∷ [] }) (7 ∷ [])
    ≡ (7 ∷ []) ++ print (request_message (up ∷ []))
encode_into-print_example =
    encode_into-print (record { timeseries = up ∷ [] }) (7 ∷ []) (up-IsWire, tt)

-- A series with a histogram behind one with a sample.
abbrev latency : TimeSeries
latency = record {
  labels = record { name = text "__name__"; value = text "latency" } ∷ [];
  sample = record { value = 0; timestamp = pos 1000 };
  identity_hash = 0;
  histogram = some two_buckets;
}

latency-len : IsU64 (series_wire_len latency)
unfolding series_wire_len labels_wire_len value_wire_len value_wire_len_of label_wire_len
    string_field_len histogram_wire_len count_wire_len spans_len span_wire_len packed_field_len
    deltas_payload_len varint_len leading_zeros leading_zeros_from zigzag int64_bits hint_number
latency-len = omega arith

latency-IsWire : IsWire latency
latency-IsWire = record {
  ranges = record {
    sample_range = record {
      value_range = omega arith;
      timestamp_range = (omega arith, omega arith);
    };
    histogram_range = two_buckets-IsHistogram;
  };
  size = latency-len;
}

read-encode_into_example :
    (read_message (encode_into (record { timeseries = up ∷ latency ∷ [] }) []) >>= read_request)
    ≡ some (map sent_series (up ∷ latency ∷ []))
read-encode_into_example =
    read-encode_into (record { timeseries = up ∷ latency ∷ [] }) (up-IsWire, (latency-IsWire, tt))
