-- ===== src/Remote/Flush/Backoff.antt =====
-- The pauses between the attempts of `flush` of src/remote_write.rs.
use native.Mathlib.Nat.{pow-suc, mul_assoc}
use prometheus_scrape_rs.Base.{
  ℕ, zero, suc, ◌+◌, ◌*◌, ◌^◌, ◌≤◌, ◌≢◌, min, List, [], ◌∷◌, ◌≡◌, refl, sym, ap, ◌∙◌, arith,
}
use prometheus_scrape_rs.Remote.Flush.{
  Answer, accepted, unrecoverable, recoverable, Outcome, delivered, failed, waiting, retry,
}

abbrev pub failures : ℕ → List Answer → List Answer
failures zero answers = answers
failures (suc n) answers = recoverable ∷ failures n answers

-- `n` pauses, each twice the one before, up to the greatest.
abbrev pub doubling : ℕ → ℕ → ℕ → ℕ → List ℕ
doubling max_backoff min_backoff k zero = []
doubling max_backoff min_backoff k (suc n) =
    min (min_backoff * 2 ^ k) max_backoff ∷ doubling max_backoff min_backoff (k + 1) n

-- What the last answer makes of a batch.
abbrev pub settled : Answer → Outcome
settled accepted = delivered
settled unrecoverable = failed
settled recoverable = waiting

-- The pause after the next failure.
next-pause :
    (max_backoff b k : ℕ)
    → min (min (b * 2 ^ k) max_backoff * 2) max_backoff ≡ min (b * 2 ^ (k + 1)) max_backoff
next-pause max_backoff b k =
    let one_more : k + 1 ≡ suc k = omega arith in
    let doubled : b * 2 ^ (k + 1) ≡ b * 2 ^ k * 2 =
      ap (λ n. b * 2 ^ n) one_more ∙ ap (λ n. b * n) (pow-suc 2 k) ∙ sym (mul_assoc b (2 ^ k) 2) in
    omega (arith, doubled)

retry_from :
    (max_backoff b k n : ℕ) (last : Answer) (answers : List Answer)
    → settled last ≢ waiting
    → retry max_backoff (min (b * 2 ^ k) max_backoff) (failures n (last ∷ answers))
      ≡ record { pauses = doubling max_backoff b k n; outcome = settled last }
unfolding retry
retry_from max_backoff b k zero accepted answers settles = refl
retry_from max_backoff b k zero unrecoverable answers settles = refl
retry_from max_backoff b k zero recoverable answers settles = absurd (settles refl)
retry_from max_backoff b k (suc n) last answers settles =
    rw (next-pause max_backoff b k, retry_from max_backoff b (k + 1) n last answers settles) refl

-- Where the least pause is not above the greatest, a batch that fails `n` times and is then accepted or refused for
-- good is settled so, after `n` pauses: the least one, and each twice the one before up to the greatest.
pub retry-doubling :
    (max_backoff min_backoff n : ℕ) (last : Answer) (answers : List Answer)
    → min_backoff ≤ max_backoff
    → settled last ≢ waiting
    → retry max_backoff min_backoff (failures n (last ∷ answers))
      ≡ record { pauses = doubling max_backoff min_backoff 0 n; outcome = settled last }
retry-doubling max_backoff min_backoff n last answers bounded settles =
    let at_first : min (min_backoff * 2 ^ 0) max_backoff ≡ min_backoff = omega (arith, bounded) in
    rw (ap (λ b. retry max_backoff b (failures n (last ∷ answers))) (sym at_first))
      (retry_from max_backoff min_backoff 0 n last answers settles)
