-- ===== src/Staleness/Spec/Naive.antt =====
-- `SeriesTracker` of src/scrape.rs against one that keeps every series of the last scrape with its
-- labels, and no body.
use mathlib.Core.List.{Mem}
use prometheus_scrape_rs.Base.{ℕ, not, List, [], length, retain, All, ◌≡◌}
use prometheus_scrape_rs.Base.Int.{ℤ}
use prometheus_scrape_rs.Base.Result.{Result}
use prometheus_scrape_rs.Model.{Label, TimeSeries}
use prometheus_scrape_rs.Scrape.Once.{Externals, Target}
use prometheus_scrape_rs.Staleness.{Snappy, SeriesTracker, has, identities, stamped}
use prometheus_scrape_rs.Staleness.Spec.{recall}
use prometheus_scrape_rs.Staleness.Spec.Rounds.{IsReached, started, scraped, outcome_of}

-- The identities of the last scrape that the new one does not have.
unfoldable pub naive_gone : List TimeSeries → List TimeSeries → List ℕ
unfolding has
naive_gone last new = retain (λ h. not (has h (identities new))) (identities last)

-- For each of these a marker, with the labels of the first series that had it.
unfoldable pub naive_markers : ℤ → List TimeSeries → List TimeSeries → List TimeSeries
unfolding recall naive_gone
naive_markers timestamp last new = recall timestamp (naive_gone last new) [] last

-- Series of one identity have one list of labels.
abbrev pub HasLabelsOf : (ℕ → List Label) → TimeSeries → Type 0
HasLabelsOf labels_of s = s.labels ≡ labels_of s.identity_hash

-- As many markers, and the same.
pub record AreSame (markers naive : List TimeSeries) : Type 0 where
  pub as_many : length markers ≡ length naive
  pub all_naive : All (λ m. Mem m naive) markers
  pub all_marked : All (λ m. Mem m markers) naive

module _ (x : Externals) (target : Target x.engine.Regex) (snappy : Snappy) where
  -- The series of the last scrape that have its timestamp.
  abbrev pub last_sent :
      (t : SeriesTracker) (history : List TimeSeries)
      → IsReached x target snappy t history
      → List TimeSeries
  last_sent _ _ started = []
  last_sent _ _ (scraped g t history start_ms duration fetched r short) =
      stamped start_ms (outcome_of x target snappy start_ms duration fetched).series
