-- ===== src/Tests/Exposition.antt =====
-- Tests for src/protobuf.rs and for the fetch and the scrape of src/scrape.rs.
use prometheus_scrape_rs.Base.{
  List, ℕ, ◌+◌, ◌<◌, true, false, [], ◌∷◌, Option, none, some, Bytes, All, length, text, beq, ◌≡◌,
  refl, arith,
}
use prometheus_scrape_rs.Base.Int.{pos, ◌+ℤ◌, ◌-ℤ◌}
use prometheus_scrape_rs.Base.Result.{ok, Ensures, Anything}
use prometheus_scrape_rs.Labels.{has_name}
use prometheus_scrape_rs.Protobuf.{MetricFamily, ExposedHistogram, Options, FloatText}
use prometheus_scrape_rs.Protobuf.Spans.{
  merge_buckets, merge_spans, merge_span, merge_bucket, place, target_index, shift_right, to_i32,
  add_to_last, lengthen_last,
}
use prometheus_scrape_rs.Protobuf.Spans.{validate_side, walk_spans, check_deltas}
use prometheus_scrape_rs.Protobuf.Spans.Filled.{buckets_of, push_all}
use prometheus_scrape_rs.Protobuf.Spans.Total.{merge_buckets-Merges}
use prometheus_scrape_rs.Protobuf.{positive}
use prometheus_scrape_rs.Model.{BucketSpan}
use prometheus_scrape_rs.Protobuf.Native.{native_histogram}
use prometheus_scrape_rs.Protobuf.Native.Limits.{
  IsReported, IsExported, native_histogram-IsExported,
}
use prometheus_scrape_rs.Protobuf.Families.{parse_protobuf}
use prometheus_scrape_rs.Protobuf.Families.Output.{IsExposedSeries, parse_protobuf-IsExposed}
use prometheus_scrape_rs.Scrape.Content.{
  Response, ScrapeBody, text_format, protobuf_format, fetch, from_content_type, split_first,
  split_once, trim_start, trim_end, trim_matches, set_parameter, set_parameters,
  protobuf_parameters,
}
use prometheus_scrape_rs.Scrape.Content.Bounds.{IsFetched, fetch-IsFetched}
use prometheus_scrape_rs.Scrape.Once.{Externals, Target, tally_fetched, scrape_once}
use prometheus_scrape_rs.Scrape.Once.Sent.{
  HasStrict, IsTallied, tally_fetched-IsTallied, scrape_once-HasStrict,
}
use prometheus_scrape_rs.Tests.Engines.{small_engine, Pattern}

-- Four buckets at the indices 1 to 4 make two at half the resolution.
four_buckets-merge :
    merge_buckets {A = ℕ}
      (λ a b. a + b)
      1
      ((record { offset = pos 1; length = 4 }) ∷ [])
      (1 ∷ 2 ∷ 3 ∷ 4 ∷ [])
    ≡ ok ((record { offset = pos 1; length = 2 }) ∷ [], 3 ∷ 7 ∷ [])
unfolding merge_buckets merge_spans merge_span merge_bucket place target_index shift_right to_i32
    add_to_last lengthen_last ◌+ℤ◌ ◌-ℤ◌
four_buckets-merge = refl

abbrev one_span : List BucketSpan
one_span = (record { offset = pos 1; length = 4 }) ∷ []

one_span-valid : validate_side positive one_span 4 (pos 1 ∷ pos 1 ∷ pos 1 ∷ pos 1 ∷ []) ≡ ok tt
unfolding validate_side walk_spans check_deltas ◌+ℤ◌ ◌-ℤ◌
one_span-valid = refl

merge_buckets-Merges_example :
    (out_spans : List BucketSpan) × (out_counts : List ℕ) × (merge_buckets
        (λ a b. a + b)
        1
        one_span
        (1 ∷ 2 ∷ 3 ∷ 4 ∷ [])
      ≡ ok (out_spans, out_counts))
    × (buckets_of out_spans out_counts
        ≡ push_all (λ a b. a + b) 1 [] (buckets_of one_span (1 ∷ 2 ∷ 3 ∷ 4 ∷ [])))
merge_buckets-Merges_example =
    merge_buckets-Merges (λ a b. a + b) 1 (omega arith) positive one_span (1 ∷ 2 ∷ 3 ∷ 4 ∷ [])
      (pos 1 ∷ pos 1 ∷ pos 1 ∷ pos 1 ∷ []) one_span-valid

abbrev pub plain_text : FloatText
plain_text = record {
  add_f64 = λ a b. a;
  to_f64 = λ n. n;
  display = λ v. text "1";
  mantissa = λ v. text "1";
  exponent = λ v. pos 0;
}

abbrev four_buckets : ExposedHistogram
four_buckets = record {
  sample_count = some 10;
  sample_count_float = none;
  sample_sum = some 0;
  bucket = [];
  schema = some (pos 9);
  zero_threshold = none;
  zero_count = none;
  zero_count_float = none;
  negative_span = [];
  negative_delta = [];
  negative_count = [];
  positive_span = (record { offset = some (pos 1); length = some 4 }) ∷ [];
  positive_delta = pos 1 ∷ pos 1 ∷ pos 1 ∷ pos 1 ∷ [];
  positive_count = [];
}

native_histogram-IsExported_example :
    Ensures IsReported (IsExported 1) (native_histogram plain_text.add_f64 four_buckets false 1)
native_histogram-IsExported_example =
    native_histogram-IsExported plain_text.add_f64 four_buckets false 1

abbrev up_family : MetricFamily
up_family = record {
  name = some (text "up");
  kind = some (pos 1);
  metric =
      (record {
        label = (record { name = some (text "job"); value = some (text "a") }) ∷ [];
        gauge = some (some 1);
        counter = none;
        summary = none;
        untyped = none;
        histogram = none;
        timestamp_ms = none;
      })
      ∷ [];
}

-- A byte stands for a family.
abbrev pub decode_byte : Bytes → Option (MetricFamily × Bytes)
decode_byte [] = none
decode_byte (c ∷ rest) = some (up_family, rest)

pub decode_byte-consumes :
    (body : Bytes) (family : MetricFamily) (rest : Bytes)
    → decode_byte body ≡ some (family, rest)
    → length rest < length body
decode_byte-consumes [] family rest same = ground (arith, same)
decode_byte-consumes (c ∷ body) family rest same = ground (arith, same)

abbrev all_on : Options
all_on = record {
  honor_timestamps = true;
  native_histograms = true;
  classic_histograms = true;
  bucket_limit = 1;
}

parse_protobuf-IsExposed_example :
    Ensures IsReported
      (All IsExposedSeries)
      (parse_protobuf plain_text all_on decode_byte (1 ∷ 2 ∷ []) (pos 9))
parse_protobuf-IsExposed_example =
    parse_protobuf-IsExposed plain_text all_on decode_byte decode_byte-consumes (1 ∷ 2 ∷ []) (pos 9)

abbrev protobuf_type : Bytes
protobuf_type =
    text
      "application/vnd.google.protobuf; proto=io.prometheus.client.MetricFamily; encoding=\"delimited\""

protobuf_type-format : from_content_type (some protobuf_type) ≡ ok protobuf_format
unfolding from_content_type split_first split_once trim_start trim_end trim_matches set_parameter
    set_parameters protobuf_parameters beq
protobuf_type-format = refl

abbrev response : Response
response = record {
  status = 200;
  content_type = some (text "text/plain");
  announced = none;
  chunks = some (1 ∷ []) ∷ some (2 ∷ 3 ∷ []) ∷ [];
}

fetch-IsFetched_example : Ensures Anything (IsFetched 3 response) (fetch 3 (some response))
fetch-IsFetched_example = fetch-IsFetched 3 response

abbrev pub small_externals : Externals
small_externals = record {
  engine = small_engine;
  floats = record {
    parse_f64 = λ s. some 1;
    times_thousand = λ x. x;
    round = λ x. x;
    within_i64 = λ x. true;
    to_i64 = pos;
  };
  float_text = plain_text;
  decode = decode_byte;
  is_utf8 = λ body. true;
}

abbrev pub small_target : Target Pattern
small_target = record {
  url = text "http://a/metrics";
  params = [];
  naming = record {
    labels = (record { name = text "instance"; value = text "a" }) ∷ [];
    honor_labels = false;
    metric_relabel_configs = [];
    external_labels = (record { name = text "dc"; value = text "1" }) ∷ [];
  };
  honor_timestamps = true;
  sample_limit = 10;
  body_size_limit = 0;
  protobuf = all_on;
  track_staleness = true;
}

abbrev pub two_lines : ScrapeBody
two_lines = record { bytes = text "up 1\nb 1\n"; format = text_format }

tally_fetched-IsTallied_example :
    IsTallied small_externals small_target
      (pos 9)
      (ok two_lines)
      (tally_fetched small_externals small_target (pos 9) (ok two_lines))
tally_fetched-IsTallied_example =
    tally_fetched-IsTallied small_externals small_target (pos 9) (ok two_lines)

scrape_once-HasStrict_example :
    All HasStrict (scrape_once small_externals small_target (pos 9) 1 (ok two_lines)).series
    × All HasStrict (scrape_once small_externals small_target (pos 9) 1 (ok two_lines)).report
scrape_once-HasStrict_example =
    scrape_once-HasStrict small_externals small_target (instance-alone, tt) instance-unnamed
      dc-unnamed decode_byte-consumes (pos 9) 1 (ok two_lines)
  where
    instance-alone : has_name (text "instance") [] ≡ false
    instance-alone = unfold has_name in refl

    instance-unnamed : has_name (text "__name__") small_target.naming.labels ≡ false
    instance-unnamed = unfold has_name in unfold beq in refl

    dc-unnamed : has_name (text "__name__") small_target.naming.external_labels ≡ false
    dc-unnamed = unfold has_name in unfold beq in refl
