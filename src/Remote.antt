-- ===== src/Remote.antt =====
-- src/remote_write.rs: how a sender task cuts what it receives into the batches that it flushes. What
-- `flush` does with a batch stands outside; the flushed batches are kept in order.
pub mod Delivery
pub mod Flush
use prometheus_scrape_rs.Base.{
  ℕ, zero, suc, ◌+◌, ◌-◌, min, Bool, true, false, List, [], ◌∷◌, ◌++◌, Option, none, some, leb,
  if◌then◌else◌, length, take, drop, retain,
}
use prometheus_scrape_rs.Model.{TimeSeries, Histogram}

abbrev pub has_no_histogram : Option Histogram → Bool
has_no_histogram none = true
has_no_histogram (some h) = false

unfoldable pub drop_native_histograms : List TimeSeries → List TimeSeries
unfolding retain
drop_native_histograms batch = retain (λ series. has_no_histogram series.histogram) batch

-- The chunk, what stays pending, and the number of samples of the chunk.
pub record Split : Type 0 where
  pub chunk : List TimeSeries
  pub rest : List TimeSeries
  pub samples : ℕ

unfoldable pub split_batch : List TimeSeries → ℕ → Split
split_batch pending max_samples =
    let cut = min max_samples (length pending) in
    record {
      chunk = take cut pending;
      rest = drop cut pending;
      samples = length (take cut pending);
    }

-- The variables of `run`, and the batches flushed so far.
pub record Sender : Type 0 where
  pub pending : List TimeSeries
  pub pending_samples : ℕ
  pub flushed : List (List TimeSeries)

-- The body of the inner loop.
unfoldable pub flush_chunk : ℕ → Sender → Sender
unfolding split_batch
flush_chunk max_samples s =
    let split = split_batch s.pending max_samples in
    record {
      pending = split.rest;
      pending_samples = s.pending_samples - split.samples;
      flushed = s.flushed ++ split.chunk ∷ [];
    }

-- `while pending_samples >= self.max_samples_per_send { .. }`, on fuel.
unfoldable pub flush_full : ℕ → ℕ → Sender → Sender
unfolding flush_chunk
flush_full zero max_samples s = s
flush_full (suc fuel) max_samples s =
    let rest = flush_full fuel max_samples (flush_chunk max_samples s) in
    if leb max_samples s.pending_samples then rest else s

-- What `select!` wakes up for; the end of the list is the closed channel.
pub data Event : Type 0 where
  received : List TimeSeries → Event
  deadline : Event

-- A pending batch that is not empty is flushed whole.
unfoldable pub flush_pending : List TimeSeries → Sender → Sender
flush_pending [] s = s
flush_pending (p ∷ ps) s = record {
  pending = [];
  pending_samples = 0;
  flushed = s.flushed ++ (p ∷ ps) ∷ [];
}

-- The batch without its native histograms, where the endpoint takes none.
unfoldable pub admitted : Bool → List TimeSeries → List TimeSeries
unfolding drop_native_histograms
admitted send_native_histograms batch =
    if send_native_histograms then batch else drop_native_histograms batch

-- One round of the loop. Each full flush takes a series at least, so one more than the number of
-- pending series is fuel enough.
unfoldable pub handle : ℕ → Bool → Sender → Event → Sender
unfolding flush_full flush_pending admitted
handle max_samples native s deadline = flush_pending s.pending s
handle max_samples native s (received batch) =
    let kept = admitted native batch in
    let pending = s.pending ++ kept in
    flush_full (suc (length pending)) max_samples (record {
      pending = pending;
      pending_samples = s.pending_samples + length kept;
      flushed = s.flushed;
    })

-- The rounds, then what is pending when the channel closes.
unfoldable pub run_from : ℕ → Bool → Sender → List Event → Sender
unfolding handle flush_pending
run_from max_samples native s [] = flush_pending s.pending s
run_from max_samples native s (e ∷ events) =
    run_from max_samples native (handle max_samples native s e) events

unfoldable pub run : ℕ → Bool → List Event → List (List TimeSeries)
unfolding run_from
run max_samples native events =
    (run_from max_samples native (record { pending = []; pending_samples = 0; flushed = [] })
      events).flushed
