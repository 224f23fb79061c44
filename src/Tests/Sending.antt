-- ===== src/Tests/Sending.antt =====
-- Tests for src/remote_write.rs.
use prometheus_scrape_rs.Remote.Flush.{
  send, send_each, retry, recoverable, accepted, delivered, waiting,
}
use prometheus_scrape_rs.Remote.Flush.Backoff.{doubling, retry-doubling}
use prometheus_scrape_rs.Base.{
  ℕ, ◌+◌, Option, some, ltb, if◌then◌else◌, ◌≢◌, List, [], ◌∷◌, true, none, All, arith, ◌≡◌, refl,
}
use prometheus_scrape_rs.Base.Int.{pos}
use prometheus_scrape_rs.Model.{TimeSeries}
use prometheus_scrape_rs.Remote.{
  Event, received, deadline, run, run_from, handle, flush_pending, flush_full, flush_chunk,
  split_batch, admitted,
}
use prometheus_scrape_rs.Remote.Delivery.{IsBatch, joined, arrived, run-delivers}

abbrev at : ℕ → TimeSeries
at t = record {
  labels = [];
  sample = record { value = 0; timestamp = pos t };
  identity_hash = 0;
  histogram = none;
}

abbrev events : List Event
events = received (at 1 ∷ at 2 ∷ at 3 ∷ []) ∷ deadline ∷ received (at 4 ∷ []) ∷ []

-- One full batch, what the deadline finds, and what is left at the end.
events-run : run 2 true events ≡ (at 1 ∷ at 2 ∷ []) ∷ (at 3 ∷ []) ∷ (at 4 ∷ []) ∷ []
unfolding run run_from handle flush_pending flush_full flush_chunk split_batch admitted
events-run = refl

run-delivers_example :
    All (IsBatch 2) (run 2 true events) × (joined (run 2 true events) ≡ arrived true events)
run-delivers_example = run-delivers 2 true events (omega arith)

-- A queue that takes two batches.
abbrev try_two : ℕ → List TimeSeries → Option ℕ
try_two n batch = if ltb n 2 then some (n + 1) else none

fan_out-send :
    send try_two (record { senders = 0 ∷ 2 ∷ []; dropped = 5 }) (at 1 ∷ at 2 ∷ [])
    ≡ record { senders = 1 ∷ 2 ∷ []; dropped = 7 }
unfolding send send_each
fan_out-send = refl

retry-doubling_example :
    retry 5000 30 (recoverable ∷ recoverable ∷ accepted ∷ [])
    ≡ record { pauses = doubling 5000 30 0 2; outcome = delivered }
retry-doubling_example = retry-doubling 5000 30 2 accepted [] (omega arith) delivered-settles
  where
    delivered-settles : delivered ≢ waiting
    delivered-settles = ground arith
