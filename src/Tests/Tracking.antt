-- ===== src/Tests/Tracking.antt =====
-- Tests for the staleness tracker of src/scrape.rs.
use prometheus_scrape_rs.Base.{
  ℕ, ◌<◌, ◌==◌, ◌^◌, if◌then◌else◌, List, text, [], ◌∷◌, ◌++◌, Option, none, some, Bytes, length,
  any, retain, ◌≡◌, refl, arith,
}
use prometheus_scrape_rs.Base.Int.{pos}
use prometheus_scrape_rs.Base.Result.{ok, err}
use prometheus_scrape_rs.Scrape.Content.{interrupted}
use prometheus_scrape_rs.Staleness.{
  Snappy, SeriesTracker, new_tracker, Metrics, sort_hashes, insert_hash, dedup, push_new, vanished,
  has,
}
use prometheus_scrape_rs.Hash.{hash_bytes}
use prometheus_scrape_rs.Model.{Label, TimeSeries}
use prometheus_scrape_rs.Staleness.Spec.Rounds.{
  IsReached, started, scraped, tracker_after, markers_of, outcome_of, MarksVanished,
  advance-MarksVanished,
}
use prometheus_scrape_rs.Staleness.Gauge.{advance_by, drain_at, live, live-new_tracker}
use prometheus_scrape_rs.Staleness.Loop.Removal.{Scrape}
use prometheus_scrape_rs.Tests.Exposition.{small_externals, small_target, two_lines}

unique-hashes : dedup (sort_hashes (3 ∷ 1 ∷ 3 ∷ 2 ∷ [])) ≡ 1 ∷ 2 ∷ 3 ∷ []
unfolding dedup sort_hashes insert_hash push_new
unique-hashes = refl

vanished-hashes : vanished (1 ∷ 2 ∷ 3 ∷ []) (2 ∷ []) ≡ 1 ∷ 3 ∷ []
unfolding vanished retain has any
vanished-hashes = refl

-- A mark in front stands for the compression.
abbrev unmark : Bytes → Option Bytes
unmark [] = none
unmark (c ∷ body) = some body

abbrev marking : Snappy
marking = record { compress = λ body. some (0 ∷ body); decompress = unmark }

marking-restores :
    (body : Bytes)
    → length body < 2 ^ 32
    → (c : Bytes) × (marking.compress body ≡ some c) × (marking.decompress c ≡ some body)
marking-restores body short = (0 ∷ body, refl, refl)

abbrev no_metrics : Metrics
no_metrics = record { tracked_series = 5; staleness_markers_total = 0 }

-- The tracker after a scrape of two series, and the round of a scrape that fails.
abbrev after_two : SeriesTracker
after_two =
    tracker_after small_externals small_target marking no_metrics new_tracker
      (outcome_of small_externals small_target marking (pos 9) 1 (ok two_lines))

advance-MarksVanished_example :
    MarksVanished small_externals small_target marking after_two
      ((outcome_of small_externals small_target marking (pos 9) 1 (ok two_lines)).series ++ [])
      (outcome_of small_externals small_target marking (pos 19) 1 (err interrupted))
      (markers_of small_externals small_target marking no_metrics after_two
        (outcome_of small_externals small_target marking (pos 19) 1 (err interrupted)))
advance-MarksVanished_example =
    advance-MarksVanished small_externals small_target marking refl marking-restores after_two
      ((outcome_of small_externals small_target marking (pos 9) 1 (ok two_lines)).series ++ [])
      no_metrics (pos 19) 1 (err interrupted)
      (scraped no_metrics new_tracker [] (pos 9) 1 (ok two_lines) started (omega arith)) tt

abbrev final_labels : Bytes → List Label
final_labels name =
    record { name = text "__name__"; value = name }
    ∷ record { name = text "dc"; value = text "1" }
    ∷ record { name = text "instance"; value = text "a" }
    ∷ []

abbrev sent_line : Bytes → TimeSeries
sent_line name = record {
  labels = final_labels name;
  sample = record { value = 1; timestamp = pos 9 };
  identity_hash = hash_bytes name;
  histogram = none;
}

abbrev labels_of_hash : ℕ → List Label
labels_of_hash h = final_labels (if h == hash_bytes (text "up") then text "up" else text "b")

abbrev two_lines-IsReached :
    IsReached small_externals small_target marking after_two
      ((outcome_of small_externals small_target marking (pos 9) 1 (ok two_lines)).series ++ [])
two_lines-IsReached =
    scraped no_metrics new_tracker [] (pos 9) 1 (ok two_lines) started (omega arith)

live-new_tracker_example :
    (live marking small_externals small_target
      (no_metrics, new_tracker)
      (advance_by [] none (pos 9) ∷ drain_at (pos 10) ∷ [])).tracked_series
    ≡ 5
live-new_tracker_example =
    live-new_tracker marking small_externals small_target no_metrics
      (advance_by [] none (pos 9) ∷ drain_at (pos 10) ∷ []) (omega arith)
      (omega arith, (omega arith, tt))

abbrev first_scrape : Scrape
first_scrape = record { start_ms = pos 9; duration = 1; fetched = ok two_lines }
