-- ===== src/Staleness/Spec/Markers.antt =====
-- One marker for each series that vanished, for the tracker of src/scrape.rs: what the recalling of
-- markers from a list of series gives.
use mathlib.Core.List.{Mem, mem-cons_self, mem-cons_of_mem}
use mathlib.Core.Option
use prometheus_scrape_rs.Base.{
  ℕ, ◌==◌, ==_iff, Bool, true, false, not, ◌&&◌, List, [], ◌∷◌, Option, none, some, length, any,
  retain, All, Bool-cases, inl, inr, ◌≡◌, refl, sym, ap, ◌∙◌, arith,
}
use prometheus_scrape_rs.Base.Int.{ℤ}
use prometheus_scrape_rs.Model.{TimeSeries}
use prometheus_scrape_rs.Staleness.{
  has, vanished, identities, stale_series, dedup, sort_hashes, consume,
}
use prometheus_scrape_rs.Scrape.Once.{prepend}
use prometheus_scrape_rs.Staleness.Hashes.{
  IsAscending, unique-IsAscending, has_unique, retain-IsAscending, count-absent, count-same,
  count-present,
}
use prometheus_scrape_rs.Staleness.Spec.{Remembered, recall, recalled_labels, recall_sent}

-- The identities that are yet to be marked, given those that are left to come.
abbrev awaits : List ℕ → List TimeSeries → ℕ → Bool
awaits consumed sent h = has h (identities sent) && not (has h consumed)

retain_nothing : (consumed hs : List ℕ) → length (retain (awaits consumed []) hs) ≡ 0
unfolding retain has any
retain_nothing consumed [] = refl
retain_nothing consumed (h ∷ hs) = retain_nothing consumed hs

-- Off the identity of the first series, those behind it await the same.
awaits-behind :
    (consumed : List ℕ) (t : TimeSeries) (ts : List TimeSeries) (k : ℕ)
    → (k == t.identity_hash) ≡ false
    → awaits consumed ts k ≡ awaits consumed (t ∷ ts) k
unfolding has any
awaits-behind consumed t ts k e = ground (arith, e)

awaits-consumed :
    (consumed : List ℕ) (t : TimeSeries) (ts : List TimeSeries) (k : ℕ)
    → has t.identity_hash consumed ≡ true
    → awaits consumed ts k ≡ awaits consumed (t ∷ ts) k
awaits-consumed consumed t ts k done = elim (Bool-cases (k == t.identity_hash)) [
  | inr e ↦ awaits-behind consumed t ts k e
  | inl e ↦
      let same : has k consumed ≡ true =
        ap (λ v. has v consumed) ((==_iff k t.identity_hash).0 e) ∙ done in
      ground (arith, same)
]

awaits-marked :
    (consumed : List ℕ) (t : TimeSeries) (ts : List TimeSeries) (k : ℕ)
    → (k == t.identity_hash) ≡ false
    → awaits consumed (t ∷ ts) k ≡ awaits (t.identity_hash ∷ consumed) ts k
unfolding has any
awaits-marked consumed t ts k e = ground (arith, e)

awaits_now :
    (consumed : List ℕ) (t : TimeSeries) (ts : List TimeSeries)
    → has t.identity_hash consumed ≡ false
    → awaits consumed (t ∷ ts) t.identity_hash ≡ true
unfolding has any
awaits_now consumed t ts new = ground (arith, new)

awaits_no_more :
    (consumed : List ℕ) (t : TimeSeries) (ts : List TimeSeries)
    → awaits (t.identity_hash ∷ consumed) ts t.identity_hash ≡ false
unfolding has any
awaits_no_more consumed t ts = ground arith

recall-length :
    (timestamp : ℤ) (gone consumed : List ℕ) (sent : List TimeSeries)
    → IsAscending gone
    → length (recall timestamp gone consumed sent) ≡ length (retain (awaits consumed sent) gone)
unfolding recall
recall-length timestamp gone consumed [] s = sym (retain_nothing consumed gone)
recall-length timestamp gone consumed (t ∷ ts) s = elim (Bool-cases (has t.identity_hash gone)) [
  | inr kept ↦ rw kept (
      recall-length timestamp gone consumed ts s
      ∙ count-absent (awaits consumed ts) (awaits consumed (t ∷ ts)) t.identity_hash gone
          (awaits-behind consumed t ts) kept)
  | inl lost ↦ elim (Bool-cases (has t.identity_hash consumed)) [
    | inl done ↦
        rw (lost, done)
          (recall-length timestamp gone consumed ts s
            ∙ count-same (awaits consumed ts) (awaits consumed (t ∷ ts)) gone
                (λ k. awaits-consumed consumed t ts k done))
    | inr new ↦
        rw (lost, new)
          (omega (
            arith,
            recall-length timestamp gone (t.identity_hash ∷ consumed) ts s,
            count-present (awaits consumed (t ∷ ts)) (awaits (t.identity_hash ∷ consumed) ts)
                t.identity_hash gone (awaits-marked consumed t ts) (awaits_now consumed t ts new)
                (awaits_no_more consumed t ts) s lost,
          ))
  ]
]

-- What is remembered is what was seen.
abbrev pub IsSeen : Option (List TimeSeries) → List ℕ → Type 0
IsSeen none seen = seen ≡ []
IsSeen (some sent) seen = seen ≡ dedup (sort_hashes (identities sent))

abbrev pub IsConsistent : Remembered → Type 0
IsConsistent m = IsSeen m.sent m.seen

-- A marker with the labels of a series that has `P`, whose identity is gone.
abbrev pub IsMarkerOf : (TimeSeries → Type 0) → ℤ → List ℕ → TimeSeries → Type 0
IsMarkerOf P timestamp gone marker =
    (s : TimeSeries) × P s
    × (has s.identity_hash gone ≡ true)
    × (marker ≡ stale_series s.labels timestamp)

pub recall-IsMarkerOf :
    (P : TimeSeries → Type 0) (timestamp : ℤ) (gone consumed : List ℕ) (sent : List TimeSeries)
    → All P sent
    → All (IsMarkerOf P timestamp gone) (recall timestamp gone consumed sent)
unfolding recall
recall-IsMarkerOf P timestamp gone consumed [] all = tt
recall-IsMarkerOf P timestamp gone consumed (t ∷ ts) (p, all) =
    elim (Bool-cases (has t.identity_hash gone)) [
      | inr kept ↦ rw kept (recall-IsMarkerOf P timestamp gone consumed ts all)
      | inl lost ↦ elim (Bool-cases (has t.identity_hash consumed)) [
        | inl done ↦ rw (lost, done) (recall-IsMarkerOf P timestamp gone consumed ts all)
        | inr new ↦
            rw (lost, new)
              (
                (t, p, lost, refl),
                recall-IsMarkerOf P timestamp gone (t.identity_hash ∷ consumed) ts all,
              )
      ]
    ]

-- The marker of an identity, with the labels of a series that has `P`.
abbrev pub IsMarked : (TimeSeries → Type 0) → ℤ → List TimeSeries → ℕ → Type 0
IsMarked P timestamp markers h =
    (s : TimeSeries) × P s × (s.identity_hash ≡ h) × Mem (stale_series s.labels timestamp) markers

recall-IsMarked :
    (P : TimeSeries → Type 0) (timestamp : ℤ) (gone consumed : List ℕ) (sent : List TimeSeries)
    (h : ℕ)
    → All P sent
    → has h gone ≡ true
    → awaits consumed sent h ≡ true
    → IsMarked P timestamp (recall timestamp gone consumed sent) h
unfolding recall has any
recall-IsMarked P timestamp gone consumed [] h all lost waits = ground (arith, waits)
recall-IsMarked P timestamp gone consumed (t ∷ ts) h (p, all) lost waits =
    elim (Bool-cases (t.identity_hash == h)) [
      | inl e ↦
          let same : t.identity_hash ≡ h = (==_iff t.identity_hash h).0 e in
          let fresh : has h consumed ≡ false = ground (arith, waits) in
          rw (ap (λ v. has v gone) same ∙ lost, ap (λ v. has v consumed) same ∙ fresh)
            (t, p, same, mem-cons_self)
      | inr e ↦ elim (Bool-cases (has t.identity_hash gone && not (has t.identity_hash consumed))) [
        | inr off ↦
            rw off
              (recall-IsMarked P timestamp gone consumed ts h all lost (ground (arith, e, waits)))
        | inl on ↦ rw on (
            let (s, q, same, m) =
              recall-IsMarked P timestamp gone (t.identity_hash ∷ consumed) ts h all lost
                (ground (arith, e, waits)) in
            (s, q, same, mem-cons_of_mem (stale_series t.labels timestamp) m))
      ]
    ]

-- Nothing is consumed at first.
pub recall-IsMarked_first :
    (P : TimeSeries → Type 0) (timestamp : ℤ) (gone : List ℕ) (sent : List TimeSeries) (h : ℕ)
    → All P sent
    → has h gone ≡ true
    → has h (identities sent) ≡ true
    → IsMarked P timestamp (recall timestamp gone [] sent) h
unfolding has any
recall-IsMarked_first P timestamp gone sent h all lost known =
    recall-IsMarked P timestamp gone [] sent h all lost (ground (arith, known))

-- The order of the identities that are gone does not matter.
pub recall_same :
    (timestamp : ℤ) (gone other consumed : List ℕ) (sent : List TimeSeries)
    → ((h : ℕ) → has h gone ≡ has h other)
    → recall timestamp gone consumed sent ≡ recall timestamp other consumed sent
unfolding recall
recall_same timestamp gone other consumed [] same = refl
recall_same timestamp gone other consumed (s ∷ ss) same = rw (same s.identity_hash) (
    ap
      (prepend
        (Option.map (λ labels. stale_series labels timestamp) (recalled_labels other consumed s)))
      (recall_same timestamp gone other
        (consume (recalled_labels other consumed s) s.identity_hash consumed) ss same))

pub has-vanished :
    (k : ℕ) (hashes current : List ℕ)
    → has k (vanished hashes current) ≡ (has k hashes && not (has k current))
unfolding vanished retain has any
has-vanished k [] current = refl
has-vanished k (h ∷ hs) current = ground (arith, ==_iff h k, has-vanished k hs current)

-- Every identity that vanished was sent, so each is marked.
kept_all :
    (p : ℕ → Bool) (hs : List ℕ)
    → ((k : ℕ) → has k hs ≡ true → p k ≡ true)
    → length (retain p hs) ≡ length hs
unfolding retain has any
kept_all p [] all = refl
kept_all p (h ∷ hs) all =
    ground (arith, all h (ground arith), kept_all p hs (λ k e. all k (ground (arith, e))))

has-retain : (p : ℕ → Bool) (k : ℕ) (hs : List ℕ) → has k (retain p hs) ≡ true → has k hs ≡ true
unfolding retain has any
has-retain p k [] e = e
has-retain p k (h ∷ hs) e = ground (arith, e, has-retain p k hs)

pub recall_sent-length :
    (m : Remembered) (timestamp : ℤ) (current : List ℕ)
    → IsConsistent m
    → length (recall_sent m.sent timestamp (vanished m.seen current))
      ≡ length (vanished m.seen current)
unfolding vanished retain has any
recall_sent-length m timestamp current seen = go m.sent m.seen seen
  where
    go :
        (sent : Option (List TimeSeries)) (hashes : List ℕ)
        → IsSeen sent hashes
        → length (recall_sent sent timestamp (vanished hashes current))
          ≡ length (vanished hashes current)
    go none hashes seen = rw seen refl
    go (some sent) hashes seen = rw seen (
        let unique = dedup (sort_hashes (identities sent)) in
        let gone = vanished unique current in
        recall-length timestamp gone [] sent (
          retain-IsAscending (λ h. not (has h current)) unique
            (unique-IsAscending (identities sent)))
        ∙ kept_all (awaits [] sent) gone (λ k e. ground (
          arith,
          sym (has_unique k (identities sent)) ∙ has-retain (λ h. not (has h current)) k unique e,
        )))

pub recall_sent-IsMarked :
    (P : TimeSeries → Type 0) (sent : Option (List TimeSeries)) (seen : List ℕ) (timestamp : ℤ)
    (current : List ℕ) (h : ℕ)
    → IsSeen sent seen
    → ((s : List TimeSeries) → sent ≡ some s → All P s)
    → has h (vanished seen current) ≡ true
    → IsMarked P timestamp (recall_sent sent timestamp (vanished seen current)) h
unfolding vanished retain has any
recall_sent-IsMarked P none hashes timestamp current h seen all lost =
    let impossible : true ≡ false = sym lost ∙ ap (λ hs. has h (vanished hs current)) seen in
    absurd (ground (arith, impossible))
recall_sent-IsMarked P (some sent) hashes timestamp current h seen all lost =
    recall-IsMarked P timestamp (vanished hashes current) [] sent h (all sent refl) lost (
      let tracked_before : has h hashes ≡ true =
        has-retain (λ k. not (has k current)) h hashes lost in
      let sent_before : has h (identities sent) ≡ true =
        sym (has_unique h (identities sent)) ∙ sym (ap (has h) seen) ∙ tracked_before in
      ground (arith, sent_before))
