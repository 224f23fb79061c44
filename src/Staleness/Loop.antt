-- ===== src/Staleness/Loop.antt =====
-- `scrape_loop` of src/scrape.rs, less its timing and its logging: what wakes it up, and the batches
-- that it hands to remote write.
pub mod Removal
use prometheus_scrape_rs.Base.{
  ℕ, ◌+◌, ◌%◌, ◌^◌, Bool, true, false, List, [], ◌∷◌, ◌++◌, Option, none, some, map, length,
  if◌then◌else◌,
}
use prometheus_scrape_rs.Base.Int.{ℤ}
use prometheus_scrape_rs.Base.Result.{Result}
use prometheus_scrape_rs.Model.{Float, Label, TimeSeries}
use prometheus_scrape_rs.Scrape.Content.{ScrapeBody, FetchError}
use prometheus_scrape_rs.Scrape.Once.{Externals, Target, ScrapeOutcome, scrape_once}
use prometheus_scrape_rs.Staleness.{
  Snappy, SeriesTracker, new_tracker, Metrics, Advanced, advance, drain_all, stale_series, is_none,
}

pub record LoopState : Type 0 where
  pub tracker : Option SeriesTracker
  pub report_series : List (List Label)
  pub metrics : Metrics
  pub scrapes_total : ℕ
  pub scrape_failures_total : ℕ
  -- The batches given to `remote_write.send`, in order.
  pub sent : List (List TimeSeries)

-- The branches of `select!`. A tick carries the clock, the duration and the answer of its scrape.
pub data Event : Type 0 where
  ticked : ℤ → Float → Result FetchError ScrapeBody → Event
  removed_at : ℤ → Event
  shut_down : Event

abbrev pub new_loop : Bool → Metrics → LoopState
new_loop track_staleness m = record {
  tracker = if track_staleness then some new_tracker else none;
  report_series = [];
  metrics = m;
  scrapes_total = 0;
  scrape_failures_total = 0;
  sent = [];
}

-- `if report_series.is_empty()`: the labels of the first report.
abbrev pub first_report : List (List Label) → List TimeSeries → List (List Label)
first_report [] report = map (λ s. s.labels) report
first_report (l ∷ ls) report = l ∷ ls

abbrev pub add_markers : Metrics → ℕ → Metrics
add_markers m n = record m { staleness_markers_total = (m.staleness_markers_total + n) % 2 ^ 64 }

abbrev pub stale_report : List (List Label) → ℤ → List TimeSeries
stale_report report_series timestamp = map (λ labels. stale_series labels timestamp) report_series

module _ (snappy : Snappy) (x : Externals) (target : Target x.engine.Regex) where
  -- The counters, which every scrape moves.
  abbrev pub counted : LoopState → ScrapeOutcome → LoopState
  counted s o = record s {
    scrapes_total = (s.scrapes_total + 1) % 2 ^ 64;
    scrape_failures_total =
        if is_none o.error then s.scrape_failures_total else (s.scrape_failures_total + 1) % 2 ^ 64;
  }

  unfoldable pub deliver : LoopState → Option SeriesTracker → ScrapeOutcome → LoopState
  unfolding advance
  deliver s none o = record s { sent = s.sent ++ (o.series ++ o.report) ∷ [] }
  deliver s (some t) o =
      let a = advance snappy x target s.metrics t o.series o.retained_body o.start_ms in
      record s {
        tracker = some a.tracker;
        report_series = first_report s.report_series o.report;
        metrics = add_markers a.metrics (length a.markers);
        sent = s.sent ++ (o.series ++ a.markers ++ o.report) ∷ [];
      }

  unfoldable pub tick : LoopState → ScrapeOutcome → LoopState
  unfolding deliver
  tick s o = deliver (counted s o) s.tracker o

  unfoldable pub remove : LoopState → Option SeriesTracker → ℤ → LoopState
  unfolding drain_all stale_series
  remove s none timestamp = s
  remove s (some t) timestamp =
      let a = drain_all snappy x target s.metrics t timestamp in
      record s {
        tracker = some a.tracker;
        report_series = [];
        metrics = a.metrics;
        sent = s.sent ++ (a.markers ++ stale_report s.report_series timestamp) ∷ [];
      }

  -- The loop ends at a removal or a shutdown.
  unfoldable pub scrape_loop : LoopState → List Event → LoopState
  unfolding tick remove scrape_once
  scrape_loop s [] = s
  scrape_loop s (shut_down ∷ events) = s
  scrape_loop s (removed_at timestamp ∷ events) = remove s s.tracker timestamp
  scrape_loop s (ticked start_ms duration fetched ∷ events) =
      scrape_loop (tick s (scrape_once x target start_ms duration fetched)) events
