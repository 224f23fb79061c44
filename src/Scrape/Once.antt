-- ===== src/Scrape/Once.antt =====
-- `Target`, `parse_body` and `scrape_once` of src/scrape.rs: from a fetched body to the series of a
-- scrape and its report.
pub mod Sent
use mathlib.Core.Option
use prometheus_scrape_rs.Base.{
  ℕ, zero, suc, ◌+◌, Bool, true, false, not, ◌&&◌, List, [], ◌∷◌, ◌++◌, Option, none, some, map,
  Bytes, ltb, if◌then◌else◌, length, text,
}
use prometheus_scrape_rs.Base.Int.{ℤ}
use prometheus_scrape_rs.Base.Result.{Result, ok, err, ◌>>=◌, ◌>>◌, refuse}
use prometheus_scrape_rs.Model.{Label, Sample, TimeSeries, Float, metric_name_label}
use prometheus_scrape_rs.Model.Sort.{sort_labels}
use prometheus_scrape_rs.Relabel.{Engine}
use prometheus_scrape_rs.Hash.{write}
use prometheus_scrape_rs.Parser.{FloatOps}
use prometheus_scrape_rs.Parser.Lines.{parse, Parsed, series, failed, ParseError}
use prometheus_scrape_rs.Protobuf.{MetricFamily, Options, FloatText}
use prometheus_scrape_rs.Protobuf as Protobuf
use prometheus_scrape_rs.Protobuf.Families.{parse_protobuf}
use prometheus_scrape_rs.Protobuf.Series.{write_labels}
use prometheus_scrape_rs.Scrape.{TargetLabels, finalize_series_labels, add_all_if_absent}
use prometheus_scrape_rs.Scrape.Content.{
  BodyFormat, text_format, protobuf_format, ScrapeBody, FetchError,
}

-- The code outside that a scrape goes through: regular expressions, float parsing and printing,
-- `decode_length_delimited` and `str::from_utf8`.
pub record Externals : Type 1 where
  pub engine : Engine
  pub floats : FloatOps
  pub float_text : FloatText
  pub decode : Bytes → Option (MetricFamily × Bytes)
  pub is_utf8 : Bytes → Bool

-- What a target is made of, less the request itself.
pub record Target (Regex : Type 0) : Type 0 where
  pub url : Bytes
  pub params : List (Bytes × Bytes)
  pub naming : TargetLabels Regex
  pub honor_timestamps : Bool
  pub sample_limit : ℕ
  pub body_size_limit : ℕ
  pub protobuf : Options
  pub track_staleness : Bool

unfoldable pub write_params : ℕ → List (Bytes × Bytes) → ℕ
unfolding write
write_params hash [] = hash
write_params hash ((name, value) ∷ params) = write_params (write (write hash name) value) params

-- `Target::identity`
unfoldable pub identity : {Regex : Type 0} → Target Regex → ℕ
unfolding write_params write_labels write
identity target =
    write_labels (write_params (write 0 target.url) target.params) target.naming.labels

pub data ScrapeError : Type 0 where
  fetch_failed : FetchError → ScrapeError
  not_utf8 : ScrapeError
  text_failed : ParseError → ScrapeError
  protobuf_failed : Protobuf.Error → ScrapeError
  sample_limit_exceeded : ℕ → ℕ → ScrapeError

abbrev pub text_result : Parsed → Result ScrapeError (List TimeSeries)
text_result (series out) = ok out
text_result (failed e) = err (text_failed e)

abbrev pub protobuf_result :
    Result Protobuf.Error (List TimeSeries) → Result ScrapeError (List TimeSeries)
protobuf_result (ok out) = ok out
protobuf_result (err e) = err (protobuf_failed e)

abbrev pub prepend {ℓ} : {A : Type ℓ} → Option A → List A → List A
prepend none rest = rest
prepend (some a) rest = a ∷ rest

pub record ScrapeOutcome : Type 0 where
  pub series : List TimeSeries
  pub report : List TimeSeries
  pub retained_body : Option ScrapeBody
  pub start_ms : ℤ
  pub error : Option ScrapeError

-- The variables that the report is made from.
pub record Tally : Type 0 where
  pub up : Float
  pub scraped : ℕ
  pub kept : ℕ
  pub error : Option ScrapeError
  pub retained_body : Option ScrapeBody
  pub batch : List TimeSeries

-- 1.0
abbrev pub one : Float
one = 0x3ff0_0000_0000_0000

module _ (x : Externals) where
  unfoldable pub parse_body :
      Target x.engine.Regex → Bytes → BodyFormat → ℤ → Result ScrapeError (List TimeSeries)
  unfolding parse parse_protobuf
  parse_body target body text_format default_timestamp =
      refuse (not (x.is_utf8 body)) not_utf8
      >> text_result (parse x.floats body default_timestamp target.honor_timestamps)
  parse_body target body protobuf_format default_timestamp =
      protobuf_result (parse_protobuf x.float_text target.protobuf x.decode body default_timestamp)

  abbrev pub relabelled : Target x.engine.Regex → TimeSeries → Option TimeSeries
  relabelled target s =
      Option.map (λ labels. record s { labels = labels })
        (finalize_series_labels x.engine s.labels target.naming)

  -- `for mut single in series`: those that relabelling keeps, with their final labels.
  unfoldable pub keep_series : Target x.engine.Regex → List TimeSeries → List TimeSeries
  unfolding finalize_series_labels
  keep_series target [] = []
  keep_series target (s ∷ ss) = prepend (relabelled target s) (keep_series target ss)

  abbrev pub nothing_scraped : ScrapeError → Tally
  nothing_scraped e = record {
    up = 0;
    scraped = 0;
    kept = 0;
    error = some e;
    retained_body = none;
    batch = [];
  }

  unfoldable pub tally_series : Target x.engine.Regex → ScrapeBody → List TimeSeries → Tally
  unfolding keep_series
  tally_series target body parsed =
      let batch = keep_series target parsed in
      if ltb 0 target.sample_limit && ltb target.sample_limit (length parsed)
      then record (nothing_scraped (sample_limit_exceeded (length parsed) target.sample_limit)) {
        scraped = length parsed;
      }
      else record {
        up = one;
        scraped = length parsed;
        kept = length batch;
        error = none;
        retained_body = if target.track_staleness then some body else none;
        batch = batch;
      }

  unfoldable pub tally_parsed :
      Target x.engine.Regex → ScrapeBody → Result ScrapeError (List TimeSeries) → Tally
  unfolding tally_series
  tally_parsed target body (ok parsed) = tally_series target body parsed
  tally_parsed target body (err e) = nothing_scraped e

  unfoldable pub tally_fetched : Target x.engine.Regex → ℤ → Result FetchError ScrapeBody → Tally
  unfolding tally_parsed parse_body
  tally_fetched target start_ms (ok body) =
      tally_parsed target body (parse_body target body.bytes body.format start_ms)
  tally_fetched target start_ms (err e) = nothing_scraped (fetch_failed e)

  unfoldable pub report_labels : Target x.engine.Regex → List Label
  unfolding sort_labels add_all_if_absent
  report_labels target =
      sort_labels (add_all_if_absent target.naming.labels target.naming.external_labels)

  unfoldable pub report_series : Target x.engine.Regex → ℤ → Bytes × Float → TimeSeries
  unfolding report_labels sort_labels
  report_series target start_ms (name, value) = record {
    labels =
        sort_labels ((record { name = metric_name_label; value = name }) ∷ report_labels target);
    sample = record { value = value; timestamp = start_ms };
    identity_hash = 0;
    histogram = none;
  }

  abbrev pub report_values : Float → Tally → List (Bytes × Float)
  report_values duration t =
      (text "up", t.up)
      ∷ (text "scrape_duration_seconds", duration)
      ∷ (text "scrape_samples_scraped", x.float_text.to_f64 t.scraped)
      ∷ (text "scrape_samples_post_metric_relabeling", x.float_text.to_f64 t.kept)
      ∷ (text "scrape_series_added", x.float_text.to_f64 t.kept)
      ∷ []

  -- From what `fetch` gave, and how long it took.
  unfoldable pub scrape_once :
      Target x.engine.Regex → ℤ → Float → Result FetchError ScrapeBody → ScrapeOutcome
  unfolding tally_fetched report_series
  scrape_once target start_ms duration fetched =
      let t = tally_fetched target start_ms fetched in
      record {
        series = t.batch;
        report = map (report_series target start_ms) (report_values duration t);
        retained_body = t.retained_body;
        start_ms = start_ms;
        error = t.error;
      }
