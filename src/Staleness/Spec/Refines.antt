-- ===== src/Staleness/Spec/Refines.antt =====
-- A round of `advance` of src/scrape.rs: the series that the retained body stands for.
use prometheus_scrape_rs.Base.{
  ltb, ℕ, ◌<◌, ◌^◌, Bool, not, ◌&&◌, ◌||◌, List, [], ◌∷◌, Option, none, some, Bytes, beq, length,
  Bool-cases, inl, inr, ◌≡◌, refl, sym, ap,
}
use prometheus_scrape_rs.Base.Int.{ℤ}
use prometheus_scrape_rs.Base.Result.{Result, ok, err, Ensures, Anything, map-Ensures}
use prometheus_scrape_rs.Model.{Float, TimeSeries}
use prometheus_scrape_rs.Scrape.Content.{ScrapeBody, FetchError}
use prometheus_scrape_rs.Scrape.Once.{
  ScrapeOutcome, scrape_once, tally_fetched, tally_parsed, tally_series, Externals, Target,
  ScrapeError, parse_body, keep_series,
}
use prometheus_scrape_rs.Staleness.{
  Snappy, RetainedScrape, SeriesTracker, Metrics, stamped, tracked, vanished, rederive_markers,
  update_gauge, is_none, retain_body, advance,
}
use prometheus_scrape_rs.Staleness.Spec.{
  Remembered, recall_nothing, recall_sent, remember, mark-recall, IsRetained, Represents,
}

module _ (x : Externals) (target : Target x.engine.Regex) where
  -- The body is that of the batch, or there is none.
  abbrev IsBodyOf : List TimeSeries → ℤ → Option ScrapeBody → Type 0
  IsBodyOf batch start_ms none = Unit {0}
  IsBodyOf batch start_ms (some body) =
      (parsed : List TimeSeries) × (parse_body x target body.bytes body.format start_ms ≡ ok parsed)
      × (batch ≡ keep_series x target parsed)

  scrape_once-IsBodyOf :
      (start_ms : ℤ) (duration : Float) (fetched : Result FetchError ScrapeBody)
      → IsBodyOf
          (scrape_once x target start_ms duration fetched).series
          start_ms
          (scrape_once x target start_ms duration fetched).retained_body
  unfolding scrape_once tally_fetched tally_parsed tally_series
  scrape_once-IsBodyOf start_ms duration (err e) = tt
  scrape_once-IsBodyOf start_ms duration (ok body) =
      parsed (parse_body x target body.bytes body.format start_ms) refl
    where
      tallied :
          (r : List TimeSeries)
          → parse_body x target body.bytes body.format start_ms ≡ ok r
          → IsBodyOf
              (tally_series x target body r).batch
              start_ms
              (tally_series x target body r).retained_body
      tallied r same =
          elim (Bool-cases (ltb 0 target.sample_limit && ltb target.sample_limit (length r))) [
            | inl over ↦ rw over tt
            | inr fits ↦ rw fits (elim (Bool-cases target.track_staleness) [
              | inl on ↦ rw on (r, same, refl)
              | inr off ↦ rw off tt
            ])
          ]

      parsed :
          (r : Result ScrapeError (List TimeSeries))
          → parse_body x target body.bytes body.format start_ms ≡ r
          → IsBodyOf
              (tally_parsed x target body r).batch
              start_ms
              (tally_parsed x target body r).retained_body
      parsed (err e) same = tt
      parsed (ok r) same = tallied r same

  -- What is kept is what was fetched.
  abbrev HoldsOf : (ScrapeBody → Type 0) → Option ScrapeBody → Type 0
  HoldsOf P none = Unit {0}
  HoldsOf P (some body) = P body

  scrape_once-HoldsOf :
      (P : ScrapeBody → Type 0) (start_ms : ℤ) (duration : Float)
      (fetched : Result FetchError ScrapeBody)
      → Ensures Anything P fetched
      → HoldsOf P (scrape_once x target start_ms duration fetched).retained_body
  unfolding scrape_once tally_fetched tally_parsed tally_series
  scrape_once-HoldsOf P start_ms duration (err e) p = tt
  scrape_once-HoldsOf P start_ms duration (ok body) p =
      parsed (parse_body x target body.bytes body.format start_ms)
    where
      parsed :
          (r : Result ScrapeError (List TimeSeries))
          → HoldsOf P (tally_parsed x target body r).retained_body
      parsed (err e) = tt
      parsed (ok r) =
          elim (Bool-cases (ltb 0 target.sample_limit && ltb target.sample_limit (length r))) [
            | inl over ↦ rw over tt
            | inr fits ↦ rw fits (elim (Bool-cases target.track_staleness) [
              | inl on ↦ rw on p
              | inr off ↦ rw off tt
            ])
          ]

  abbrev pub remembered_round : Remembered → ScrapeOutcome → Remembered
  remembered_round m o = record {
    sent = remember m o.series o.retained_body o.start_ms;
    seen = tracked o.start_ms o.series;
  }

  -- A round of the tracker against one of what is remembered.
  pub record IsRound (snappy : Snappy) (g : Metrics) (t : SeriesTracker) (m : Remembered)
      (o : ScrapeOutcome) : Type 0 where
    pub markers :
        (advance snappy x target g t o.series o.retained_body o.start_ms).markers
        ≡ recall_sent m.sent o.start_ms (vanished m.seen (tracked o.start_ms o.series))
    pub next :
        Represents x target snappy
          (advance snappy x target g t o.series o.retained_body o.start_ms).tracker
          (remembered_round m o)

  module _ (snappy : Snappy) where
    pub rederive_markers-recall :
        (retained : Option RetainedScrape) (sent : Option (List TimeSeries))
        → IsRetained x target snappy retained sent
        → (gone : List ℕ) (timestamp : ℤ)
        → rederive_markers x target snappy retained gone timestamp ≡ recall_sent sent timestamp gone
    unfolding rederive_markers
    rederive_markers-recall none none held [] timestamp = refl
    rederive_markers-recall none none held (h ∷ hs) timestamp = refl
    rederive_markers-recall none (some sent) held gone timestamp = absurd held
    rederive_markers-recall (some r) none held gone timestamp = absurd held
    rederive_markers-recall (some r) (some sent) held [] timestamp =
        sym (recall_nothing timestamp [] sent)
    rederive_markers-recall (some r) (some sent) (body, parsed, packed, same, emitted) (h ∷ hs)
          timestamp =
        rw (packed, same, mark-recall x target r.start_ms timestamp (h ∷ hs) [] parsed, sym emitted)
          refl

    is_none-IsRetained :
        (retained : Option RetainedScrape) (sent : Option (List TimeSeries))
        → IsRetained x target snappy retained sent
        → is_none retained ≡ is_none sent
    is_none-IsRetained none none held = refl
    is_none-IsRetained none (some sent) held = absurd held
    is_none-IsRetained (some r) none held = absurd held
    is_none-IsRetained (some r) (some sent) held = refl

    retain_body-IsRetained :
        (t : SeriesTracker) (m : Remembered) (batch : List TimeSeries) (start_ms : ℤ)
        (body : Option ScrapeBody)
        → Represents x target snappy t m
        → IsBodyOf batch start_ms body
        → HoldsOf
            (λ b.
              (c : Bytes) × (snappy.compress b.bytes ≡ some c)
              × (snappy.decompress c ≡ some b.bytes))
            body
        → IsRetained x target snappy
            (retain_body snappy t (tracked start_ms batch) body start_ms)
            (remember m batch body start_ms)
    unfolding retain_body remember
    retain_body-IsRetained t m batch start_ms none r of packs = tt
    retain_body-IsRetained t m batch start_ms (some b) r (parsed, same, emitted) packs =
        let (c, packed, restored) = packs in
        let fresh : Bool = is_none m.sent || not (beq m.seen (tracked start_ms batch)) in
        rw (is_none-IsRetained t.retained m.sent r.retained, r.seen)
          (elim (Bool-cases fresh) [
            | inl new ↦
                rw (new, packed) (b.bytes, parsed, restored, same, ap (stamped start_ms) emitted)
            | inr old ↦ rw old r.retained
          ])

    -- One round recalls its markers from the series that the retained body stands for, and these stay in step, for a body that is compressed and restored.
    pub advance-Represents :
        (restores : (body : Bytes)
          → length body < 2 ^ 32
          → (c : Bytes) × (snappy.compress body ≡ some c) × (snappy.decompress c ≡ some body))
        (g : Metrics) (t : SeriesTracker) (m : Remembered) (start_ms : ℤ) (duration : Float)
        (fetched : Result FetchError ScrapeBody)
        → Represents x target snappy t m
        → Ensures Anything (λ body. length body.bytes < 2 ^ 32) fetched
        → IsRound snappy g t m (scrape_once x target start_ms duration fetched)
    unfolding advance scrape_once update_gauge
    advance-Represents restores g t m start_ms duration fetched r short =
        let outcome = scrape_once x target start_ms duration fetched in
        record {
          markers = rw (sym r.seen) (
              rederive_markers-recall t.retained m.sent r.retained
                (vanished t.hashes (tracked start_ms outcome.series)) start_ms);
          next = record {
            retained =
                retain_body-IsRetained t m outcome.series start_ms outcome.retained_body r
                  (scrape_once-IsBodyOf start_ms duration fetched)
                  (scrape_once-HoldsOf
                    (λ b.
                      (c : Bytes) × (snappy.compress b.bytes ≡ some c)
                      × (snappy.decompress c ≡ some b.bytes))
                    start_ms duration fetched
                    (map-Ensures Anything (λ b. length b.bytes < 2 ^ 32) _ fetched
                      (λ b fits. restores b.bytes fits) short));
            seen = refl;
            reported = refl;
          };
        }
