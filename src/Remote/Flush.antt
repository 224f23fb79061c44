-- ===== src/Remote/Flush.antt =====
-- `RemoteWriteHandle::send` of src/remote_write.rs, and of `flush` the relabelling of a batch and the
-- loop that retries. What an endpoint answers is an argument.
pub mod Backoff
use mathlib.Core.Option
use prometheus_scrape_rs.Base.{
  ℕ, ◌+◌, ◌*◌, ◌%◌, ◌^◌, min, List, [], ◌∷◌, Option, none, some, map, length,
}
use prometheus_scrape_rs.Model.{TimeSeries}
use prometheus_scrape_rs.Model.Sort.{sort_labels}
use prometheus_scrape_rs.Relabel.{Engine, RelabelConfig, process}

-- The senders and the counter of what was dropped, which wraps around.
pub record RemoteWriteHandle (Sender : Type 0) : Type 0 where
  pub senders : List Sender
  pub dropped : ℕ

module _ {Sender : Type 0} (try_send : Sender → List TimeSeries → Option Sender) where
  -- One sender: `try_send` of tokio gives none for a full or a closed queue.
  abbrev pub sent_or_dropped : Option Sender → Sender → ℕ → List TimeSeries → Sender × ℕ
  sent_or_dropped none sender dropped batch = (sender, (dropped + length batch) % 2 ^ 64)
  sent_or_dropped (some after) sender dropped batch = (after, dropped)

  -- The loop: every sender gets the batch, a clone or the batch itself.
  unfoldable pub send_each : List Sender → ℕ → List TimeSeries → RemoteWriteHandle Sender
  send_each [] dropped batch = record { senders = []; dropped = dropped }
  send_each (sender ∷ senders) dropped batch =
      let first = sent_or_dropped (try_send sender batch) sender dropped batch in
      let rest = send_each senders first.1 batch in
      record { senders = first.0 ∷ rest.senders; dropped = rest.dropped }

  unfoldable pub send : RemoteWriteHandle Sender → List TimeSeries → RemoteWriteHandle Sender
  unfolding send_each
  send handle [] = handle
  send handle (s ∷ ss) = send_each handle.senders handle.dropped (s ∷ ss)

module _ (e : Engine) where
  abbrev pub keep_written : Option TimeSeries → List TimeSeries → List TimeSeries
  keep_written none rest = rest
  keep_written (some s) rest = s ∷ rest

  -- `filter_map(..)`
  unfoldable pub relabel_each : List (RelabelConfig e.Regex) → List TimeSeries → List TimeSeries
  unfolding process sort_labels
  relabel_each configs [] = []
  relabel_each configs (s ∷ ss) =
      keep_written
        (Option.map (λ labels. record s { labels = sort_labels labels })
          (process e s.labels configs))
        (relabel_each configs ss)

  unfoldable pub relabel_batch : List (RelabelConfig e.Regex) → List TimeSeries → List TimeSeries
  unfolding relabel_each
  relabel_batch [] batch = batch
  relabel_batch (c ∷ cs) batch = relabel_each (c ∷ cs) batch

-- What `send_once` gives.
pub data Answer : Type 0 where
  accepted unrecoverable recoverable : Answer

pub data Outcome : Type 0 where
  delivered failed waiting : Outcome

-- The pauses of the loop, in order, and how it ends. It waits while there is no answer.
pub record Attempts : Type 0 where
  pub pauses : List ℕ
  pub outcome : Outcome

unfoldable pub retry : ℕ → ℕ → List Answer → Attempts
retry max_backoff backoff [] = record { pauses = []; outcome = waiting }
retry max_backoff backoff (accepted ∷ answers) = record { pauses = []; outcome = delivered }
retry max_backoff backoff (unrecoverable ∷ answers) = record { pauses = []; outcome = failed }
retry max_backoff backoff (recoverable ∷ answers) =
    let rest = retry max_backoff (min (backoff * 2) max_backoff) answers in
    record { pauses = backoff ∷ rest.pauses; outcome = rest.outcome }
