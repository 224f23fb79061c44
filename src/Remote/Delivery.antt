-- ===== src/Remote/Delivery.antt =====
-- What the sender task of src/remote_write.rs hands to `flush`.
use prometheus_scrape_rs.Base.{
  ℕ, zero, suc, ◌+◌, ◌<◌, ◌≤◌, min, Bool, List, [], ◌∷◌, ◌++◌, append_assoc, append-nil, leb,
  length, length-append, length-take, length-drop, take, drop, take-append-drop, All, All-append,
  Bool-cases, arith, ◌≡◌, refl, sym, ap, ◌∙◌, inl, inr,
}
use prometheus_scrape_rs.Model.{TimeSeries}
use prometheus_scrape_rs.Remote.{
  Sender, split_batch, flush_chunk, flush_full, flush_pending, Event, received, deadline, admitted,
  handle, run_from, run,
}

abbrev pub joined : List (List TimeSeries) → List TimeSeries
joined [] = []
joined (b ∷ bs) = b ++ joined bs

-- The series that the events bring and the endpoint takes.
unfoldable pub arrived : Bool → List Event → List TimeSeries
arrived native [] = []
arrived native (deadline ∷ events) = arrived native events
arrived native (received batch ∷ events) = admitted native batch ++ arrived native events

joined-push :
    (bs : List (List TimeSeries)) (b : List TimeSeries) → joined (bs ++ b ∷ []) ≡ joined bs ++ b
joined-push [] b = append-nil b
joined-push (x ∷ xs) b = ap (λ t. x ++ t) (joined-push xs b) ∙ sym (append_assoc x (joined xs) b)

unfoldable pub IsBatch : ℕ → List TimeSeries → Type 0
IsBatch max_samples b = (0 < length b) × (length b ≤ max_samples)

-- The count is the length of what is pending, and no flushed batch is empty or over the limit.
record IsSender (max_samples : ℕ) (s : Sender) : Type 0 where
  counted : s.pending_samples ≡ length s.pending
  batches : All (IsBatch max_samples) s.flushed

abbrev all_series : Sender → List TimeSeries
all_series s = joined s.flushed ++ s.pending

record IsFlushed (max_samples : ℕ) (before after : Sender) : Type 0 where
  sound : IsSender max_samples after
  below : length after.pending < max_samples
  same : all_series after ≡ all_series before

module _ (max_samples : ℕ) (positive : 0 < max_samples) where
  flush_chunk-IsSender :
      (s : Sender)
      → IsSender max_samples s
      → max_samples ≤ length s.pending
      → IsSender max_samples (flush_chunk max_samples s)
  unfolding flush_chunk split_batch IsBatch
  flush_chunk-IsSender s ok enough =
      let cut = min max_samples (length s.pending) in
      record {
        counted = omega (arith, ok.counted, length-take cut s.pending, length-drop cut s.pending);
        batches = All-append (IsBatch max_samples) s.flushed _ ok.batches (
          (omega (arith, length-take cut s.pending), omega (arith, length-take cut s.pending)),
          tt,
        );
      }

  flush_chunk-length :
      (s : Sender)
      → max_samples ≤ length s.pending
      → length (flush_chunk max_samples s).pending < length s.pending
  unfolding flush_chunk split_batch
  flush_chunk-length s enough =
      omega (arith, length-drop (min max_samples (length s.pending)) s.pending)

  flush_chunk-same : (s : Sender) → all_series (flush_chunk max_samples s) ≡ all_series s
  unfolding flush_chunk split_batch
  flush_chunk-same s =
      let cut = min max_samples (length s.pending) in
      ap (λ t. t ++ drop cut s.pending) (joined-push s.flushed (take cut s.pending))
      ∙ append_assoc (joined s.flushed) (take cut s.pending) (drop cut s.pending)
      ∙ ap (λ t. joined s.flushed ++ t) (take-append-drop cut s.pending)

  flush_full-IsFlushed :
      (fuel : ℕ) (s : Sender)
      → length s.pending < fuel
      → IsSender max_samples s
      → IsFlushed max_samples s (flush_full fuel max_samples s)
  unfolding flush_full
  flush_full-IsFlushed zero s enough ok = absurd (omega arith)
  flush_full-IsFlushed (suc fuel) s enough ok =
      elim (Bool-cases (leb max_samples s.pending_samples)) [
        | inr e ↦ rw e (record { sound = ok; below = ground (arith, e, ok.counted); same = refl })
        | inl e ↦
            let full : max_samples ≤ length s.pending = ground (arith, e, ok.counted) in
            let later =
              flush_full-IsFlushed fuel (flush_chunk max_samples s)
                (omega (arith, flush_chunk-length s full)) (flush_chunk-IsSender s ok full) in
            rw e (record {
              sound = later.sound;
              below = later.below;
              same = later.same ∙ flush_chunk-same s;
            })
      ]

  flush_pending-IsFlushed :
      (p : List TimeSeries) (s : Sender)
      → p ≡ s.pending
      → length s.pending < max_samples
      → IsSender max_samples s
      → IsFlushed max_samples s (flush_pending p s)
  unfolding flush_pending IsBatch
  flush_pending-IsFlushed [] s e below ok = record { sound = ok; below = below; same = refl }
  flush_pending-IsFlushed (p ∷ ps) s e below ok = record {
    sound = record {
      counted = omega arith;
      batches =
          All-append (IsBatch max_samples) s.flushed _ ok.batches
            ((omega arith, omega (arith, ap length e, below)), tt);
    };
    below = omega arith;
    same = append-nil _ ∙ joined-push s.flushed (p ∷ ps) ∙ ap (λ t. joined s.flushed ++ t) e;
  }

  record IsHandled (native : Bool) (before after : Sender) (event : Event) : Type 0 where
    sound : IsSender max_samples after
    below : length after.pending < max_samples
    same : all_series after ≡ all_series before ++ arrived native (event ∷ [])

  handle-IsHandled :
      (native : Bool) (s : Sender) (event : Event)
      → length s.pending < max_samples
      → IsSender max_samples s
      → IsHandled native s (handle max_samples native s event) event
  unfolding handle arrived
  handle-IsHandled native s deadline below ok =
      let f = flush_pending-IsFlushed s.pending s refl below ok in
      record { sound = f.sound; below = f.below; same = f.same ∙ sym (append-nil (all_series s)) }
  handle-IsHandled native s (received batch) below ok =
      let kept = admitted native batch in
      let f =
        flush_full-IsFlushed (suc (length (s.pending ++ kept)))
          (record {
            pending = s.pending ++ kept;
            pending_samples = s.pending_samples + length kept;
            flushed = s.flushed;
          })
          (omega arith)
          (record {
            counted = omega (arith, ok.counted, length-append s.pending kept);
            batches = ok.batches;
          }) in
      record {
        sound = f.sound;
        below = f.below;
        same =
            f.same
            ∙ sym (append_assoc (joined s.flushed) s.pending kept)
            ∙ ap (λ t. all_series s ++ t) (sym (append-nil kept));
      }

  arrived-cons :
      (native : Bool) (e : Event) (events : List Event)
      → arrived native (e ∷ events) ≡ arrived native (e ∷ []) ++ arrived native events
  unfolding arrived
  arrived-cons native deadline events = refl
  arrived-cons native (received batch) events =
      ap (λ t. t ++ arrived native events) (sym (append-nil (admitted native batch)))

  flush_pending-empty :
      (p : List TimeSeries) (s : Sender) → p ≡ s.pending → (flush_pending p s).pending ≡ []
  unfolding flush_pending
  flush_pending-empty [] s e = sym e
  flush_pending-empty (p ∷ ps) s e = refl

  run_from-delivers :
      (native : Bool) (s : Sender) (events : List Event)
      → length s.pending < max_samples
      → IsSender max_samples s
      → All (IsBatch max_samples) (run_from max_samples native s events).flushed
        × (joined (run_from max_samples native s events).flushed
            ≡ all_series s ++ arrived native events)
  unfolding run_from arrived
  run_from-delivers native s [] below ok =
      let f = flush_pending-IsFlushed s.pending s refl below ok in
      (
        f.sound.batches,
        sym (append-nil _)
            ∙ ap (λ t. joined (flush_pending s.pending s).flushed ++ t)
                (sym (flush_pending-empty s.pending s refl))
            ∙ f.same
            ∙ sym (append-nil (all_series s)),
      )
  run_from-delivers native s (e ∷ events) below ok =
      let h = handle-IsHandled native s e below ok in
      let (batches, same) =
        run_from-delivers native (handle max_samples native s e) events h.below h.sound in
      (
        batches,
        same
            ∙ ap (λ t. t ++ arrived native events) h.same
            ∙ append_assoc (all_series s) (arrived native (e ∷ [])) (arrived native events)
            ∙ ap (λ t. all_series s ++ t) (sym (arrived-cons native e events)),
      )

-- For a positive limit, the batches flushed from the start to the closing of the channel, in order,
-- are the series that arrived and that the endpoint takes, in order, each once. None of the batches is
-- empty, and none is over the limit.
pub run-delivers :
    (max_samples : ℕ) (native : Bool) (events : List Event)
    → 0 < max_samples
    → All (IsBatch max_samples) (run max_samples native events)
      × (joined (run max_samples native events) ≡ arrived native events)
unfolding run
run-delivers max_samples native events positive =
    run_from-delivers max_samples positive native
      (record { pending = []; pending_samples = 0; flushed = [] }) events positive
      (record { counted = refl; batches = tt })
