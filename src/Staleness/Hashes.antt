-- ===== src/Staleness/Hashes.antt =====
-- `sort_unstable` and `dedup` of src/scrape.rs on the identities of a batch, and the counting of
-- what a filter keeps.
use prometheus_scrape_rs.Base.{
  ℕ, ◌+◌, ◌≤◌, ◌<◌, ◌==◌, Bool, true, false, ◌||◌, List, [], ◌∷◌, leb, length, any, retain, All,
  All-map, All-retain, Bool-cases, inl, inr, ◌≡◌, refl, ap, ◌∙◌, arith, ==_iff,
}
use prometheus_scrape_rs.Staleness.{has, insert_hash, sort_hashes, push_new, dedup}

abbrev IsSortedFrom : List ℕ → Type 0
IsSortedFrom [] = Unit {0}
IsSortedFrom (h ∷ hs) = All (λ k. h ≤ k) hs × IsSortedFrom hs

-- Ascending, so that no item stands twice.
abbrev pub IsAscending : List ℕ → Type 0
IsAscending [] = Unit {0}
IsAscending (h ∷ hs) = All (λ k. h < k) hs × IsAscending hs

All-insert_hash : (P : ℕ → Type 0) (h : ℕ) (hs : List ℕ) → P h → All P hs → All P (insert_hash h hs)
unfolding insert_hash
All-insert_hash P h [] p all = (p, tt)
All-insert_hash P h (k ∷ ks) p (q, all) = elim (Bool-cases (leb h k)) [
  | inl e ↦ rw e (p, (q, all))
  | inr e ↦ rw e (q, All-insert_hash P h ks p all)
]

insert_hash-IsSortedFrom : (h : ℕ) (hs : List ℕ) → IsSortedFrom hs → IsSortedFrom (insert_hash h hs)
unfolding insert_hash
insert_hash-IsSortedFrom h [] s = (tt, tt)
insert_hash-IsSortedFrom h (k ∷ ks) (low, s) = elim (Bool-cases (leb h k)) [
  | inl e ↦ rw e (
    (ground (arith, e), All-map (λ j. k ≤ j) (λ j. h ≤ j) ks (λ j kj. ground (arith, e, kj)) low),
    (low, s),
  )
  | inr e ↦
      rw e
        (All-insert_hash (λ j. k ≤ j) h ks (ground (arith, e)) low, insert_hash-IsSortedFrom h ks s)
]

sort_hashes-IsSortedFrom : (hs : List ℕ) → IsSortedFrom (sort_hashes hs)
unfolding sort_hashes
sort_hashes-IsSortedFrom [] = tt
sort_hashes-IsSortedFrom (h ∷ hs) =
    insert_hash-IsSortedFrom h (sort_hashes hs) (sort_hashes-IsSortedFrom hs)

All-push_new : (P : ℕ → Type 0) (h : ℕ) (hs : List ℕ) → P h → All P hs → All P (push_new h hs)
unfolding push_new
All-push_new P h [] p all = (p, tt)
All-push_new P h (k ∷ ks) p (q, all) = elim (Bool-cases (h == k)) [
  | inl e ↦ rw e (q, all)
  | inr e ↦ rw e (p, (q, all))
]

All-dedup : (P : ℕ → Type 0) (hs : List ℕ) → All P hs → All P (dedup hs)
unfolding dedup
All-dedup P [] all = tt
All-dedup P (h ∷ hs) (p, all) = All-push_new P h (dedup hs) p (All-dedup P hs all)

push_new-IsAscending :
    (h : ℕ) (hs : List ℕ) → All (λ k. h ≤ k) hs → IsAscending hs → IsAscending (push_new h hs)
unfolding push_new
push_new-IsAscending h [] low s = (tt, tt)
push_new-IsAscending h (k ∷ ks) (hk, low) (above, s) = elim (Bool-cases (h == k)) [
  | inl e ↦ rw e (above, s)
  | inr e ↦ rw e (
    (
      ground (arith, e, hk),
      All-map (λ j. k < j) (λ j. h < j) ks (λ j kj. ground (arith, hk, kj)) above,
    ),
    (above, s),
  )
]

dedup-IsAscending : (hs : List ℕ) → IsSortedFrom hs → IsAscending (dedup hs)
unfolding dedup
dedup-IsAscending [] s = tt
dedup-IsAscending (h ∷ hs) (low, s) =
    push_new-IsAscending h (dedup hs) (All-dedup (λ k. h ≤ k) hs low) (dedup-IsAscending hs s)

pub unique-IsAscending : (hs : List ℕ) → IsAscending (dedup (sort_hashes hs))
unique-IsAscending hs = dedup-IsAscending (sort_hashes hs) (sort_hashes-IsSortedFrom hs)

has-insert_hash : (v h : ℕ) (hs : List ℕ) → has v (insert_hash h hs) ≡ (h == v || has v hs)
unfolding has any insert_hash
has-insert_hash v h [] = refl
has-insert_hash v h (k ∷ ks) = ground (arith, has-insert_hash v h ks)

has-sort_hashes : (v : ℕ) (hs : List ℕ) → has v (sort_hashes hs) ≡ has v hs
unfolding has any sort_hashes
has-sort_hashes v [] = refl
has-sort_hashes v (h ∷ hs) =
    ground (arith, has-insert_hash v h (sort_hashes hs), has-sort_hashes v hs)

has-push_new : (v h : ℕ) (hs : List ℕ) → has v (push_new h hs) ≡ (h == v || has v hs)
unfolding has any push_new
has-push_new v h [] = refl
has-push_new v h (k ∷ ks) = ground arith

has-dedup : (v : ℕ) (hs : List ℕ) → has v (dedup hs) ≡ has v hs
unfolding has any dedup
has-dedup v [] = refl
has-dedup v (h ∷ hs) = ground (arith, has-push_new v h (dedup hs), has-dedup v hs)

pub has_unique : (v : ℕ) (hs : List ℕ) → has v (dedup (sort_hashes hs)) ≡ has v hs
has_unique v hs = has-dedup v (sort_hashes hs) ∙ has-sort_hashes v hs

length-insert_hash : (h : ℕ) (hs : List ℕ) → length (insert_hash h hs) ≡ length hs + 1
unfolding insert_hash
length-insert_hash h [] = refl
length-insert_hash h (k ∷ ks) = ground (arith, length-insert_hash h ks)

length-push_new : (h : ℕ) (hs : List ℕ) → length (push_new h hs) ≤ length hs + 1
unfolding push_new
length-push_new h [] = omega arith
length-push_new h (k ∷ ks) = ground arith

length-dedup : (hs : List ℕ) → length (dedup hs) ≤ length hs
unfolding dedup
length-dedup [] = omega arith
length-dedup (h ∷ hs) = omega (arith, length-push_new h (dedup hs), length-dedup hs)

length-sort_hashes : (hs : List ℕ) → length (sort_hashes hs) ≡ length hs
unfolding sort_hashes
length-sort_hashes [] = refl
length-sort_hashes (h ∷ hs) =
    omega (arith, length-insert_hash h (sort_hashes hs), length-sort_hashes hs)

pub length_unique : (hs : List ℕ) → length (dedup (sort_hashes hs)) ≤ length hs
length_unique hs = omega (arith, length-dedup (sort_hashes hs), length-sort_hashes hs)

pub retain-IsAscending : (p : ℕ → Bool) (hs : List ℕ) → IsAscending hs → IsAscending (retain p hs)
unfolding retain
retain-IsAscending p [] s = tt
retain-IsAscending p (h ∷ hs) (low, s) = elim (Bool-cases (p h)) [
  | inl e ↦ rw e (All-retain (λ k. h < k) p hs low, retain-IsAscending p hs s)
  | inr e ↦ rw e (retain-IsAscending p hs s)
]

absent-above : (v : ℕ) (hs : List ℕ) → All (λ k. v < k) hs → has v hs ≡ false
unfolding has any
absent-above v [] low = refl
absent-above v (h ∷ hs) (vh, low) = ground (arith, absent-above v hs low, vh)

-- Two tests that agree off `v` keep as many, where `v` does not stand.
pub count-absent :
    (p q : ℕ → Bool) (v : ℕ) (hs : List ℕ)
    → ((k : ℕ) → (k == v) ≡ false → p k ≡ q k)
    → has v hs ≡ false
    → length (retain p hs) ≡ length (retain q hs)
unfolding retain has any
count-absent p q v [] agree absent = refl
count-absent p q v (h ∷ hs) agree absent = ground (
  arith,
  agree h (ground (arith, absent)),
  count-absent p q v hs agree (ground (arith, absent)),
  absent,
)

pub count-same :
    (p q : ℕ → Bool) (hs : List ℕ)
    → ((k : ℕ) → p k ≡ q k)
    → length (retain p hs) ≡ length (retain q hs)
unfolding retain
count-same p q [] agree = refl
count-same p q (h ∷ hs) agree = ground (arith, agree h, count-same p q hs agree)

-- Where it does, the one that takes `v` keeps one more than the other.
pub count-present :
    (p q : ℕ → Bool) (v : ℕ) (hs : List ℕ)
    → ((k : ℕ) → (k == v) ≡ false → p k ≡ q k)
    → p v ≡ true
    → q v ≡ false
    → IsAscending hs
    → has v hs ≡ true
    → length (retain p hs) ≡ length (retain q hs) + 1
unfolding retain has any
count-present p q v [] agree pv qv s present = ground (arith, present)
count-present p q v (h ∷ hs) agree pv qv (low, s) present = elim (Bool-cases (h == v)) [
  | inl e ↦
      let same : h ≡ v = (==_iff h v).0 e in
      ground (
        arith,
        ap p same ∙ pv,
        ap q same ∙ qv,
        count-absent p q v hs agree (
            absent-above v hs
              (All-map (λ k. h < k) (λ k. v < k) hs (λ k hk. omega (arith, same, hk)) low)),
      )
  | inr e ↦ ground (arith, e, present, agree h e, count-present p q v hs agree pv qv s)
]
