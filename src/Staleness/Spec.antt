-- ===== src/Staleness/Spec.antt =====
-- The series that the retained body of `SeriesTracker` of src/scrape.rs stands for, in the rounds
-- that renew it and in those that do not.
pub mod Refines
pub mod Markers
pub mod Rounds
pub mod Naive
use mathlib.Core.Option
use prometheus_scrape_rs.Base.{
  ℕ, true, false, not, ◌&&◌, ◌||◌, List, [], ◌∷◌, Option, none, some, map, Bytes, beq,
  if◌then◌else◌, length, any, retain, Bool-cases, inl, inr, ◌≡◌, refl, arith,
}
use prometheus_scrape_rs.Base.Int.{ℤ, eqb_ℤ}
use prometheus_scrape_rs.Base.Result.{ok}
use prometheus_scrape_rs.Model.{Label, TimeSeries}
use prometheus_scrape_rs.Scrape.{finalize_series_labels}
use prometheus_scrape_rs.Scrape.Content.{ScrapeBody}
use prometheus_scrape_rs.Scrape.Once.{Externals, Target, parse_body, prepend, keep_series}
use prometheus_scrape_rs.Staleness.{
  Snappy, RetainedScrape, SeriesTracker, has, stamped, tracked, stale_series, consume,
  marker_labels, mark, is_none,
}

-- What is remembered: the series sent with the timestamp of their scrape, if their body was to be
-- kept, and the identities that were last seen.
pub record Remembered : Type 0 where
  pub sent : Option (List TimeSeries)
  pub seen : List ℕ

abbrev pub recalled_labels : List ℕ → List ℕ → TimeSeries → Option (List Label)
recalled_labels gone consumed s =
    if has s.identity_hash gone && not (has s.identity_hash consumed) then some s.labels else none

-- One marker for each identity that is gone, with the labels of the first series that had it.
unfoldable pub recall : ℤ → List ℕ → List ℕ → List TimeSeries → List TimeSeries
unfolding has stale_series
recall timestamp gone consumed [] = []
recall timestamp gone consumed (s ∷ ss) =
    let found = recalled_labels gone consumed s in
    prepend (Option.map (λ labels. stale_series labels timestamp) found)
      (recall timestamp gone (consume found s.identity_hash consumed) ss)

abbrev pub recall_sent : Option (List TimeSeries) → ℤ → List ℕ → List TimeSeries
recall_sent none timestamp gone = []
recall_sent (some sent) timestamp gone = recall timestamp gone [] sent

pub recall_nothing :
    (timestamp : ℤ) (consumed : List ℕ) (sent : List TimeSeries)
    → recall timestamp [] consumed sent ≡ []
unfolding recall has any
recall_nothing timestamp consumed [] = refl
recall_nothing timestamp consumed (s ∷ ss) = recall_nothing timestamp consumed ss

-- The new series are remembered where their identities are not those seen last.
unfoldable pub remember :
    Remembered → List TimeSeries → Option ScrapeBody → ℤ → Option (List TimeSeries)
unfolding tracked stamped beq
remember m batch none start_ms = none
remember m batch (some body) start_ms =
    if is_none m.sent || not (beq m.seen (tracked start_ms batch))
    then some (stamped start_ms batch)
    else m.sent

module _ (x : Externals) (target : Target x.engine.Regex) where
  marker_labels-recalled :
      (start_ms : ℤ) (gone consumed : List ℕ) (s : TimeSeries) (labels : List Label)
      → finalize_series_labels x.engine s.labels target.naming ≡ some labels
      → eqb_ℤ s.sample.timestamp start_ms ≡ true
      → marker_labels x target start_ms gone consumed s
        ≡ recalled_labels gone consumed (record s { labels = labels })
  unfolding marker_labels
  marker_labels-recalled start_ms gone consumed s labels same stamp = ground (arith, same, stamp)

  marker_labels-dropped :
      (start_ms : ℤ) (gone consumed : List ℕ) (s : TimeSeries)
      → finalize_series_labels x.engine s.labels target.naming ≡ none
      → marker_labels x target start_ms gone consumed s ≡ none
  unfolding marker_labels
  marker_labels-dropped start_ms gone consumed s same = ground (arith, same)

  marker_labels-unstamped :
      (start_ms : ℤ) (gone consumed : List ℕ) (s : TimeSeries)
      → eqb_ℤ s.sample.timestamp start_ms ≡ false
      → marker_labels x target start_ms gone consumed s ≡ none
  unfolding marker_labels
  marker_labels-unstamped start_ms gone consumed s stamp = rw stamp refl

  -- The loop over the parsed series is the one over those that were sent.
  pub mark-recall :
      (start_ms timestamp : ℤ) (gone consumed : List ℕ) (parsed : List TimeSeries)
      → mark x target start_ms timestamp gone consumed parsed
        ≡ recall timestamp gone consumed (stamped start_ms (keep_series x target parsed))
  unfolding mark recall stamped retain keep_series
  mark-recall start_ms timestamp gone consumed [] = refl
  mark-recall start_ms timestamp gone consumed (s ∷ ss) =
      step (finalize_series_labels x.engine s.labels target.naming) refl
        (λ c. mark-recall start_ms timestamp gone c ss)
    where
      step :
          (r : Option (List Label))
          → finalize_series_labels x.engine s.labels target.naming ≡ r
          → ((c : List ℕ)
              → mark x target start_ms timestamp gone c ss
                ≡ recall timestamp gone c (stamped start_ms (keep_series x target ss)))
          → mark x target start_ms timestamp gone consumed (s ∷ ss)
            ≡ recall timestamp gone consumed (stamped start_ms (keep_series x target (s ∷ ss)))
      step none same later =
          rw (marker_labels-dropped start_ms gone consumed s same, same, later consumed) refl
      step (some labels) same later = elim (Bool-cases (eqb_ℤ s.sample.timestamp start_ms)) [
        | inr off ↦
            rw (marker_labels-unstamped start_ms gone consumed s off, same, off, later consumed)
              refl
        | inl on ↦
            let found = recalled_labels gone consumed (record s { labels = labels }) in
            rw
              (
                marker_labels-recalled start_ms gone consumed s labels same on,
                same,
                on,
                later (consume found s.identity_hash consumed),
              )
              refl
      ]

  -- The tracker holds, compressed, a body that gives what is remembered.
  abbrev pub IsRetained : Snappy → Option RetainedScrape → Option (List TimeSeries) → Type 0
  IsRetained snappy none none = Unit {0}
  IsRetained snappy none (some sent) = ⊥
  IsRetained snappy (some r) none = ⊥
  IsRetained snappy (some r) (some sent) =
      (body : Bytes) × (parsed : List TimeSeries) × (snappy.decompress r.compressed ≡ some body)
      × (parse_body x target body r.format r.start_ms ≡ ok parsed)
      × (sent ≡ stamped r.start_ms (keep_series x target parsed))

  pub record Represents (snappy : Snappy) (t : SeriesTracker) (m : Remembered) : Type 0 where
    pub retained : IsRetained snappy t.retained m.sent
    pub seen : t.hashes ≡ m.seen
    pub reported : t.tracked_reported ≡ length t.hashes
