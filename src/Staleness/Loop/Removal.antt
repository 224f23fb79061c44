-- ===== src/Staleness/Loop/Removal.antt =====
-- What `scrape_loop` of src/scrape.rs sends when its target is removed.
use mathlib.Core.List.{Mem}
use prometheus_scrape_rs.Base.{ℕ, ◌<◌, ◌^◌, true, List, [], ◌∷◌, ◌++◌, map, length, All, ◌≡◌}
use prometheus_scrape_rs.Base.Int.{ℤ}
use prometheus_scrape_rs.Base.Result.{Result, Ensures, Anything}
use prometheus_scrape_rs.Model.{Float, Label, TimeSeries}
use prometheus_scrape_rs.Scrape.Content.{ScrapeBody, FetchError}
use prometheus_scrape_rs.Scrape.Once.{Externals, Target, ScrapeOutcome}
use prometheus_scrape_rs.Staleness.{Snappy, SeriesTracker, tracked, has, stale_series}
use prometheus_scrape_rs.Staleness.Spec.Markers.{IsMarked, IsMarkerOf}
use prometheus_scrape_rs.Staleness.Spec.Rounds.{MarksAll, outcome_of}
use prometheus_scrape_rs.Staleness.Loop.{LoopState, Event, ticked, first_report, stale_report}

-- One scrape of the loop.
pub record Scrape : Type 0 where
  pub start_ms : ℤ
  pub duration : Float
  pub fetched : Result FetchError ScrapeBody

abbrev pub tick_of : Scrape → Event
tick_of s = ticked s.start_ms s.duration s.fetched

abbrev pub IsShort : Scrape → Type 0
IsShort s = Ensures Anything (λ body. length body.bytes < 2 ^ 32) s.fetched

module _ (snappy : Snappy) (x : Externals) (target : Target x.engine.Regex) where
  -- All that the target sent, the last scrape first.
  abbrev pub history_of : List Scrape → List TimeSeries → List TimeSeries
  history_of [] history = history
  history_of (s ∷ scrapes) history =
      history_of scrapes
        ((outcome_of x target snappy s.start_ms s.duration s.fetched).series ++ history)

  abbrev pub outcome : Scrape → ScrapeOutcome
  outcome s = outcome_of x target snappy s.start_ms s.duration s.fetched

  -- The identities of the last scrape, or those that were there before all scrapes.
  abbrev pub identities_after : List ℕ → List Scrape → List ℕ
  identities_after hashes [] = hashes
  identities_after hashes (s ∷ scrapes) =
      identities_after (tracked (outcome s).start_ms (outcome s).series) scrapes

  -- The report of the first scrape.
  abbrev pub report_of : List Scrape → List TimeSeries
  report_of [] = []
  report_of (s ∷ scrapes) = (outcome s).report

  -- The last batch has a marker for each identity of the last scrape, with the labels of a series of it that
  -- was sent, no other marker, and the series of the first report, ended. Each scrape made one batch before.
  pub record EndsMarked (scrapes : List Scrape) (timestamp : ℤ) (end : LoopState) : Type 0 where
    pub earlier : List (List TimeSeries)
    pub markers : List TimeSeries
    pub batches :
        end.sent
        ≡ earlier
          ++ (markers ++ map (λ r. stale_series r.labels timestamp) (report_of scrapes)) ∷ []
    pub one_each : length earlier ≡ length scrapes
    pub as_many : length markers ≡ length (identities_after [] scrapes)
    pub each :
        (h : ℕ)
        → has h (identities_after [] scrapes) ≡ true
        → IsMarked (λ s. Mem s (history_of scrapes [])) timestamp markers h
    pub no_other :
        All
          (IsMarkerOf (λ s. Mem s (history_of scrapes [])) timestamp (identities_after [] scrapes))
          markers

  -- The labels that the loop has for the report series in the end.
  abbrev report_after : List (List Label) → List Scrape → List (List Label)
  report_after report [] = report
  report_after report (s ∷ scrapes) = report_after (first_report report (outcome s).report) scrapes

  -- What the loop ends with, from any of its states.
  record Ends (earlier_sent : ℕ) (hashes : List ℕ) (history : List TimeSeries)
      (report : List (List Label)) (timestamp : ℤ) (end : LoopState) : Type 0 where
    tracker : SeriesTracker
    earlier : List (List TimeSeries)
    markers : List TimeSeries
    batches : end.sent ≡ earlier ++ (markers ++ stale_report report timestamp) ∷ []
    one_each : length earlier ≡ earlier_sent
    seen : tracker.hashes ≡ hashes
    marks : MarksAll x target snappy tracker history timestamp markers
