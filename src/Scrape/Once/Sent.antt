-- ===== src/Scrape/Once/Sent.antt =====
-- The series that `scrape_once` of src/scrape.rs gives.
use mathlib.Core.Option
use prometheus_scrape_rs.Base.{
  ℕ, ◌+◌, ◌≤◌, ◌<◌, false, not, ◌&&◌, List, [], ◌∷◌, Option, none, some, map, Bytes, ltb, length,
  All, All-map, Bool-cases, Option-cases, inl, inr, ◌⊎◌, ◌≡◌, refl, ◌∙◌, arith,
}
use prometheus_scrape_rs.Base.Int.{ℤ}
use prometheus_scrape_rs.Base.Result.{
  Result, ok, err, refuse, Ensures, Anything, bind-Ensures, refuse-Ensures,
}
use prometheus_scrape_rs.Model.{Label, TimeSeries, Float, metric_name_label}
use prometheus_scrape_rs.Model.Sort.{sort_labels}
use prometheus_scrape_rs.Model.SortLaws.{sort_labels-IsSorted}
use prometheus_scrape_rs.Labels.{IsDistinct, has_name}
use prometheus_scrape_rs.Parser.Lines.{parse, Parsed, series, failed}
use prometheus_scrape_rs.Parser.Lines.Results.{IsParsed, parse-IsParsed}
use prometheus_scrape_rs.Protobuf.{MetricFamily}
use prometheus_scrape_rs.Protobuf as Protobuf
use prometheus_scrape_rs.Protobuf.Families.{parse_protobuf}
use prometheus_scrape_rs.Protobuf.Families.Output.{IsExposedSeries, parse_protobuf-IsExposed}
use prometheus_scrape_rs.Protobuf.Native.Limits.{IsReported}
use prometheus_scrape_rs.Scrape.{TargetLabels, finalize_series_labels, add_all_if_absent}
use prometheus_scrape_rs.Relabel.{Engine}
use prometheus_scrape_rs.Scrape.Finalize.{
  IsStrict, finalize-IsStrict, has_name-sort_labels, sort_labels-IsDistinct,
  add_all_if_absent-IsDistinct, has_name-add_all_if_absent,
}
use prometheus_scrape_rs.Scrape.Content.{
  BodyFormat, text_format, protobuf_format, ScrapeBody, FetchError,
}
use prometheus_scrape_rs.Scrape.Once.{
  Externals, Target, ScrapeError, not_utf8, text_result, protobuf_result, prepend, relabelled,
  Tally, parse_body, keep_series, tally_series, tally_parsed, tally_fetched, scrape_once, one,
  nothing_scraped, sample_limit_exceeded, fetch_failed, report_series, report_labels, report_values,
}

abbrev pub HasDistinct : TimeSeries → Type 0
HasDistinct s = IsDistinct s.labels

abbrev pub HasStrict : TimeSeries → Type 0
HasStrict s = IsStrict s.labels

module _ (x : Externals)
    (consumes : (body : Bytes) (family : MetricFamily) (rest : Bytes)
      → x.decode body ≡ some (family, rest)
      → length rest < length body) where
  -- Both parsers give series with distinct label names.
  pub parse_body-HasDistinct :
      (target : Target x.engine.Regex) (body : Bytes) (format : BodyFormat) (t : ℤ)
      → Ensures Anything (All HasDistinct) (parse_body x target body format t)
  unfolding parse_body
  parse_body-HasDistinct target body text_format t =
      bind-Ensures Anything Anything (All HasDistinct) (refuse (not (x.is_utf8 body)) not_utf8) _
        (refuse-Ensures Anything (not (x.is_utf8 body)) not_utf8 tt)
        (λ _ _.
          from_text (parse x.floats body t target.honor_timestamps)
            (λ out same. parse-IsParsed x.floats t target.honor_timestamps body out same))
    where
      from_text :
          (p : Parsed)
          → ((out : List TimeSeries)
              → p ≡ series out
              → All (IsParsed t target.honor_timestamps) out)
          → Ensures Anything (All HasDistinct) (text_result p)
      from_text (failed e) h = tt
      from_text (series out) h =
          All-map (IsParsed t target.honor_timestamps) HasDistinct out (λ s p. p.distinct)
            (h out refl)
  parse_body-HasDistinct target body protobuf_format t =
      from_protobuf (parse_protobuf x.float_text target.protobuf x.decode body t)
        (parse_protobuf-IsExposed x.float_text target.protobuf x.decode consumes body t)
    where
      from_protobuf :
          (r : Result Protobuf.Error (List TimeSeries))
          → Ensures IsReported (All IsExposedSeries) r
          → Ensures Anything (All HasDistinct) (protobuf_result r)
      from_protobuf (ok out) h = All-map IsExposedSeries HasDistinct out (λ s e. e.distinct) h
      from_protobuf (err e) h = tt

  keep_series-HasStrict :
      (target : Target x.engine.Regex) (parsed : List TimeSeries)
      → All HasDistinct parsed
      → All HasStrict (keep_series x target parsed)
  unfolding keep_series
  keep_series-HasStrict target [] d = tt
  keep_series-HasStrict target (s ∷ ss) (d, ds) =
      kept (finalize_series_labels x.engine s.labels target.naming) refl
        (keep_series-HasStrict target ss ds)
    where
      kept :
          (r : Option (List Label))
          → finalize_series_labels x.engine s.labels target.naming ≡ r
          → All HasStrict (keep_series x target ss)
          → All HasStrict (
              prepend
                (Option.map (λ labels. record s { labels = labels }) r)
                (keep_series x target ss))
      kept none same rest = rest
      kept (some labels) same rest =
          (finalize-IsStrict x.engine s.labels target.naming d same, rest)

  tally_parsed-HasStrict :
      (target : Target x.engine.Regex) (body : ScrapeBody)
      (r : Result ScrapeError (List TimeSeries))
      → Ensures Anything (All HasDistinct) r
      → All HasStrict (tally_parsed x target body r).batch
  unfolding tally_parsed tally_series
  tally_parsed-HasStrict target body (err e) h = tt
  tally_parsed-HasStrict target body (ok parsed) h =
      elim (Bool-cases (ltb 0 target.sample_limit && ltb target.sample_limit (length parsed))) [
        | inl over ↦ rw over tt
        | inr fits ↦ rw fits (keep_series-HasStrict target parsed h)
      ]

  tally_fetched-HasStrict :
      (target : Target x.engine.Regex) (t : ℤ) (fetched : Result FetchError ScrapeBody)
      → All HasStrict (tally_fetched x target t fetched).batch
  unfolding tally_fetched
  tally_fetched-HasStrict target t (err e) = tt
  tally_fetched-HasStrict target t (ok body) =
      tally_parsed-HasStrict target body (parse_body x target body.bytes body.format t)
        (parse_body-HasDistinct target body.bytes body.format t)

-- The parsed series of a scrape against its batch: one series for each that relabelling does not drop,
-- in order, with the final labels and all else as parsed.
module _ (e : Engine) (naming : TargetLabels e.Regex) where
  pub data IsFull : List TimeSeries → List TimeSeries → Type 0 where
    none_parsed : IsFull [] []
    sent :
        {s : TimeSeries} {labels : List Label} {parsed batch : List TimeSeries}
        → finalize_series_labels e s.labels naming ≡ some labels
        → IsFull parsed batch
        → IsFull (s ∷ parsed) (record s { labels = labels } ∷ batch)
    dropped :
        {s : TimeSeries} {parsed batch : List TimeSeries}
        → finalize_series_labels e s.labels naming ≡ none
        → IsFull parsed batch
        → IsFull (s ∷ parsed) batch

module _ (x : Externals) (target : Target x.engine.Regex) (start_ms : ℤ)
    (fetched : Result FetchError ScrapeBody) where
  -- A scrape without an error: the body was fetched and parsed, and the batch is full.
  pub record IsSent (t : Tally) : Type 0 where
    pub body : ScrapeBody
    pub parsed : List TimeSeries
    pub is_fetched : fetched ≡ ok body
    pub is_parsed : parse_body x target body.bytes body.format start_ms ≡ ok parsed
    pub full : IsFull x.engine target.naming parsed t.batch
    pub all_counted : t.scraped ≡ length parsed
    pub no_error : t.error ≡ none
    pub is_up : t.up ≡ one

  -- A scrape with an error: nothing is sent and nothing is retained.
  pub record IsRefused (t : Tally) : Type 0 where
    pub error : ScrapeError
    pub is_error : t.error ≡ some error
    pub nothing : t.batch ≡ []
    pub is_down : t.up ≡ 0
    pub not_retained : t.retained_body ≡ none

  -- Sent in full or not at all, and no more than the limit, if there is one.
  pub record IsTallied (t : Tally) : Type 0 where
    pub whole : IsSent t ⊎ IsRefused t
    pub counted : t.kept ≡ length t.batch
    pub fewer : t.kept ≤ t.scraped
    pub limited : (target.sample_limit ≡ 0) ⊎ (t.kept ≤ target.sample_limit)

module _ (x : Externals) (target : Target x.engine.Regex) where
  length-prepend :
      (r : Option TimeSeries) (rest : List TimeSeries) → length (prepend r rest) ≤ length rest + 1
  length-prepend none rest = omega arith
  length-prepend (some s) rest = omega arith

  length-keep_series :
      (parsed : List TimeSeries) → length (keep_series x target parsed) ≤ length parsed
  unfolding keep_series
  length-keep_series [] = omega arith
  length-keep_series (s ∷ ss) = omega (
    arith,
    length-keep_series ss,
    length-prepend (relabelled x target s) (keep_series x target ss),
  )

  keep_series-IsFull :
      (parsed : List TimeSeries)
      → IsFull x.engine target.naming parsed (keep_series x target parsed)
  unfolding keep_series
  keep_series-IsFull [] = none_parsed
  keep_series-IsFull (s ∷ ss) =
      elim (Option-cases (finalize_series_labels x.engine s.labels target.naming)) [
        | inl gone ↦ rw gone (dropped gone (keep_series-IsFull ss))
        | inr (labels, kept) ↦ rw kept (sent kept (keep_series-IsFull ss))
      ]

  module _ (start_ms : ℤ) (fetched : Result FetchError ScrapeBody) where
    nothing-IsTallied :
        (e : ScrapeError) (n : ℕ)
        → IsTallied x target start_ms fetched (record (nothing_scraped x e) { scraped = n })
    nothing-IsTallied e n = record {
      whole = inr (record {
        error = e;
        is_error = refl;
        nothing = refl;
        is_down = refl;
        not_retained = refl;
      });
      counted = refl;
      fewer = omega arith;
      limited = inr (omega arith);
    }

    tally_series-IsTallied :
        (body : ScrapeBody) (parsed : List TimeSeries)
        → fetched ≡ ok body
        → parse_body x target body.bytes body.format start_ms ≡ ok parsed
        → IsTallied x target start_ms fetched (tally_series x target body parsed)
    unfolding tally_series
    tally_series-IsTallied body parsed f p =
        elim (Bool-cases (ltb 0 target.sample_limit && ltb target.sample_limit (length parsed))) [
          | inl over ↦ rw over (
              nothing-IsTallied (sample_limit_exceeded (length parsed) target.sample_limit)
                (length parsed))
          | inr fits ↦ rw fits (record {
            whole = inl (record {
              body = body;
              parsed = parsed;
              is_fetched = f;
              is_parsed = p;
              full = keep_series-IsFull parsed;
              all_counted = refl;
              no_error = refl;
              is_up = refl;
            });
            counted = refl;
            fewer = length-keep_series parsed;
            limited = elim (Bool-cases (ltb 0 target.sample_limit)) [
              | inl on ↦ inr (ground (arith, length-keep_series parsed))
              | inr off ↦ inl (ground arith)
            ];
          })
        ]

    tally_parsed-IsTallied :
        (body : ScrapeBody) (r : Result ScrapeError (List TimeSeries))
        → fetched ≡ ok body
        → parse_body x target body.bytes body.format start_ms ≡ r
        → IsTallied x target start_ms fetched (tally_parsed x target body r)
    unfolding tally_parsed
    tally_parsed-IsTallied body (err e) f p = nothing-IsTallied e 0
    tally_parsed-IsTallied body (ok parsed) f p = tally_series-IsTallied body parsed f p

  -- A scrape is sent in full or it is an error. Without an error the body was fetched and parsed, `up`
  -- is 1, every parsed series is counted, and the batch has each that relabelling does not drop, in
  -- order, with its final labels and its value. With an error, which is then set, nothing is sent or retained
  -- and `up` is 0. In both cases what is sent is counted, is no more than what was scraped, and is within the
  -- sample limit, if there is one.
  pub tally_fetched-IsTallied :
      (t : ℤ) (fetched : Result FetchError ScrapeBody)
      → IsTallied x target t fetched (tally_fetched x target t fetched)
  unfolding tally_fetched
  tally_fetched-IsTallied t (err e) = nothing-IsTallied t (err e) (fetch_failed e) 0
  tally_fetched-IsTallied t (ok body) =
      tally_parsed-IsTallied t (ok body) body (parse_body x target body.bytes body.format t) refl
        refl

  module _ (distinct : IsDistinct target.naming.labels)
      (unnamed : has_name metric_name_label target.naming.labels ≡ false)
      (unnamed_external : has_name metric_name_label target.naming.external_labels ≡ false) where
    report_series-HasStrict : (t : ℤ) (v : Bytes × Float) → HasStrict (report_series x target t v)
    unfolding report_series report_labels
    report_series-HasStrict t (name, value) =
        let all = add_all_if_absent target.naming.labels target.naming.external_labels in
        let name_label : Label = record { name = metric_name_label; value = name } in
        let absent : has_name metric_name_label all ≡ false =
          has_name-add_all_if_absent target.naming.external_labels target.naming.labels
            metric_name_label unnamed unnamed_external in
        let labels = name_label ∷ sort_labels all in
        (
          sort_labels-IsSorted labels,
          sort_labels-IsDistinct labels (
            has_name-sort_labels metric_name_label all ∙ absent,
            sort_labels-IsDistinct all (
                add_all_if_absent-IsDistinct target.naming.external_labels target.naming.labels
                  distinct),
          ),
        )

    report-HasStrict :
        (t : ℤ) (vs : List (Bytes × Float)) → All HasStrict (map (report_series x target t) vs)
    report-HasStrict t [] = tt
    report-HasStrict t (v ∷ vs) = (report_series-HasStrict t v, report-HasStrict t vs)

    -- Every series that a scrape gives, of either format and the report included, has its labels in strictly ascending order of their
    -- names, where the labels of the target are distinct and neither they nor the external ones name the metric.
    pub scrape_once-HasStrict :
        (consumes : (body : Bytes) (family : MetricFamily) (rest : Bytes)
          → x.decode body ≡ some (family, rest)
          → length rest < length body)
        (t : ℤ) (duration : Float) (fetched : Result FetchError ScrapeBody)
        → All HasStrict (scrape_once x target t duration fetched).series
          × All HasStrict (scrape_once x target t duration fetched).report
    unfolding scrape_once
    scrape_once-HasStrict consumes t duration fetched = (
      tally_fetched-HasStrict x consumes target t fetched,
      report-HasStrict t (report_values x duration (tally_fetched x target t fetched)),
    )
