-- ===== src/Tests/Parsing.antt =====
-- Tests for src/parser.rs.
use prometheus_scrape_rs.Base.{
  [], ◌∷◌, ◌++◌, true, false, none, some, Bytes, text, All, ◌≡◌, refl, beq, if◌then◌else◌, any,
}
use prometheus_scrape_rs.Base.Int.{pos}
use prometheus_scrape_rs.Model.{TimeSeries, metric_name_label}
use prometheus_scrape_rs.Labels.{has_name}
use prometheus_scrape_rs.Hash.{hash_bytes}
use prometheus_scrape_rs.Parser.{
  FloatOps, missing_value, ok, ◌>>=◌, parse_label_value, scan_value, decode_escapes, name_class,
  is_name_start, is_name_continue, span, is_duplicate, check_label_name, record_label_name,
}
use prometheus_scrape_rs.Parser.Scan.{escape, parse_label_value-escape, parse_label_value-decode}
use prometheus_scrape_rs.Parser.Labels.{
  expect, label_value_of, parse_label_named, parse_label, after_value, labels_step, parse_labels,
}
use prometheus_scrape_rs.Parser.Lines.{
  series, failed, digits_value, unsigned_value, in_range, parse_i64, split_lines, strip_return,
  add_line, check_tail, label_set_at, parse_label_set, slice, parse_value, parse_timestamp,
  parse_time, parse_sample, parse_content, parse_line, parse_lines, parse,
}
use prometheus_scrape_rs.Parser.Lines.Results.{IsParsed, parse-IsParsed}
use prometheus_scrape_rs.Parser.Labels.Total.{is_crash}
use prometheus_scrape_rs.Parser.Lines.Total.{parse-fuel}
use prometheus_scrape_rs.Parser.Lines.Failures.{IsFirstFailure, parse-IsFirstFailure}

-- Reads the float `1` and nothing else.
abbrev one_only : FloatOps
one_only = record {
  parse_f64 = λ s. if beq s (text "1") then some 0x3f_f0_00_00_00_00_00_00 else none;
  times_thousand = λ x. x;
  round = λ x. x;
  within_i64 = λ x. true;
  to_i64 = pos;
}

abbrev body : Bytes
body = text "# HELP up\nup{job=\"a\"} 1 5\r\n\n"

abbrev up : TimeSeries
up = record {
  labels =
      record { name = metric_name_label; value = text "up" }
      ∷ record { name = text "job"; value = text "a" }
      ∷ [];
  sample = record { value = 0x3f_f0_00_00_00_00_00_00; timestamp = pos 5 };
  identity_hash = hash_bytes (text "up{job=\"a\"}");
  histogram = none;
}

body-parse : parse one_only body (pos 9) true ≡ series (up ∷ [])
unfolding parse parse_lines parse_line parse_content split_lines strip_return add_line span
    is_name_start is_name_continue name_class parse_label_set label_set_at parse_labels labels_step
    parse_label parse_label_named label_value_of expect parse_label_value scan_value decode_escapes
    check_label_name record_label_name is_duplicate has_name after_value parse_sample parse_value
    parse_time parse_timestamp parse_i64 unsigned_value digits_value in_range check_tail slice beq
    any
body-parse = refl

parse-IsParsed_example : All (IsParsed (pos 9) true) (up ∷ [])
parse-IsParsed_example = parse-IsParsed one_only (pos 9) true body (up ∷ []) body-parse

abbrev bad_body : Bytes
bad_body = text "\nup\n"

bad_body-parse :
    parse one_only bad_body (pos 9) true ≡ failed (record { line = 2; message = missing_value })
unfolding parse parse_lines parse_line parse_content split_lines strip_return add_line span
    is_name_start is_name_continue name_class parse_label_set label_set_at parse_sample
bad_body-parse = refl

parse-IsFirstFailure_example :
    IsFirstFailure one_only
      (pos 9)
      true
      1
      (split_lines bad_body)
      (record { line = 2; message = missing_value })
parse-IsFirstFailure_example =
    parse-IsFirstFailure one_only (pos 9) true bad_body
      (record { line = 2; message = missing_value }) bad_body-parse

parse_label_value-escape_example :
    parse_label_value (escape (text "a\"\\\n") ++ b'"' ∷ text "}") ≡ ok (text "a\"\\\n", text "}")
parse_label_value-escape_example = parse_label_value-escape (text "a\"\\\n") (text "}")

parse_label_value-decode_example :
    parse_label_value (text "a\\nb\" 1")
    ≡ (do (raw, rest) ← scan_value (text "a\\nb\" 1"); value ← decode_escapes raw; ok (value, rest))
parse_label_value-decode_example = parse_label_value-decode (text "a\\nb\" 1")

parse-fuel_example : is_crash missing_value ≡ false
parse-fuel_example =
    parse-fuel one_only (pos 9) true bad_body (record { line = 2; message = missing_value })
      bad_body-parse
