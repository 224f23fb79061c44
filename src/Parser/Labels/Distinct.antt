-- ===== src/Parser/Labels/Distinct.antt =====
-- The labels that `parse_labels` of src/parser.rs collects, and its index of the names seen.
use mathlib.Core.Path.{subst}
use prometheus_scrape_rs.Base.{
  ℕ, zero, suc, ◌<◌, ◌≤◌, Bool, true, false, ◌||◌, List, [], ◌∷◌, ◌++◌, none, some, map, Bytes,
  ◌==◌, beq, if◌then◌else◌, length, length-append, any, Bool-cases, arith, ◌≡◌, refl, sym, ap, ◌∙◌,
  inl, inr, ◌⊎◌, not, ltb,
}
use prometheus_scrape_rs.Model.{Label}
use prometheus_scrape_rs.Labels.{has_name, IsDistinct}
use prometheus_scrape_rs.Labels.Laws.{push-IsDistinct, has_name-push}
use prometheus_scrape_rs.Parser.{
  Message, bad_label_start, expected_comma, span, is_name_start, is_name_continue, Result, ok, err,
  ◌>>=◌, Seen, skip_spaces, max_labels_per_series, is_duplicate, check_label_name,
  record_label_name,
}
use prometheus_scrape_rs.Parser.Labels.{
  Round, Step, done, next, label_value_of, parse_label_named, parse_label, after_value, labels_step,
  parse_labels,
}

-- What a chain that succeeds went through.
pub bind-ok {ℓ κ} :
    {A : Type ℓ} {B : Type κ} (r : Result A) (f : A → Result B) (b : B)
    → (r >>= f) ≡ ok b
    → (a : A) × (r ≡ ok a) × (f a ≡ ok b)
bind-ok (ok a) f b e = (a, refl, e)
bind-ok (err m) f b e = ground arith

pub guard-ok {ℓ} :
    {A : Type ℓ} (b : Bool) (m : Message) (r : Result A) (a : A)
    → (if b then err m else r) ≡ ok a
    → (b ≡ false) × (r ≡ ok a)
guard-ok true m r a e = ground arith
guard-ok false m r a e = (refl, e)

pub if-ok {ℓ} :
    {A : Type ℓ} (b : Bool) (x y : Result A) (a : A)
    → (if b then x else y) ≡ ok a
    → ((b ≡ true) × (x ≡ ok a)) ⊎ ((b ≡ false) × (y ≡ ok a))
if-ok true x y a e = inl (refl, e)
if-ok false x y a e = inr (refl, e)

pub ok-injective {ℓ} : {A : Type ℓ} (a b : A) → ok a ≡ ok b → a ≡ b
ok-injective a b e = ground arith

-- The names seen are those of the labels, whose names are distinct, and which are no more than the
-- limit.
pub record IsIndexed (first : Label) (labels : List Label) (seen : Seen) : Type 0 where
  pub distinct : IsDistinct labels
  pub bound : length labels ≤ max_labels_per_series
  pub agrees : (name : Bytes) → is_duplicate name labels seen ≡ has_name name labels
  pub front : (rest : List Label) × (labels ≡ first ∷ rest)

any-map_name :
    (key : Bytes) (labels : List Label)
    → any (λ n. beq n key) (map (λ l. l.name) labels) ≡ has_name key labels
unfolding any has_name
any-map_name key [] = refl
any-map_name key (l ∷ ls) = ap (λ b. beq l.name key || b) (any-map_name key ls)

-- The set that is built past 32 labels and the scan of the labels find the same names.
record_label_name-agrees :
    (labels : List Label) (l : Label) (seen : Seen)
    → ((name : Bytes) → is_duplicate name labels seen ≡ has_name name labels)
    → (name : Bytes)
    → is_duplicate name (labels ++ l ∷ []) (record_label_name l.name (labels ++ l ∷ []) seen)
      ≡ has_name name (labels ++ l ∷ [])
unfolding is_duplicate record_label_name any
record_label_name-agrees labels l (some names) h name =
    ground (arith, h name, has_name-push labels l name)
record_label_name-agrees labels l none h name =
    elim (Bool-cases (ltb 32 (length (labels ++ l ∷ [])))) [
      | inl e ↦ rw (e) (any-map_name name (labels ++ l ∷ []))
      | inr e ↦ rw (e)
    ]

check_label_name-ok :
    (name : Bytes) (labels : List Label) (seen : Seen) (u : Unit {0})
    → check_label_name name labels seen ≡ ok u
    → (is_duplicate name labels seen ≡ false) × (length labels < max_labels_per_series)
unfolding check_label_name
check_label_name-ok name labels seen u e = ground arith

module _ (first : Label) where
  push-IsIndexed :
      (labels : List Label) (l : Label) (seen : Seen)
      → IsIndexed first labels seen
      → is_duplicate l.name labels seen ≡ false
      → length labels < max_labels_per_series
      → IsIndexed first (labels ++ l ∷ []) (record_label_name l.name (labels ++ l ∷ []) seen)
  push-IsIndexed labels l seen ix fresh below = record {
    distinct = push-IsDistinct labels l ix.distinct (sym (ix.agrees l.name) ∙ fresh);
    bound = omega (arith, length-append labels (l ∷ []), below);
    agrees = record_label_name-agrees labels l seen ix.agrees;
    front = (ix.front.0 ++ l ∷ [], ap (λ ls. ls ++ l ∷ []) ix.front.1);
  }

  parse_label_named-IsIndexed :
      (name s : Bytes) (labels : List Label) (seen : Seen) (r : Round)
      → IsIndexed first labels seen
      → parse_label_named name s labels seen ≡ ok r
      → IsIndexed first r.labels r.seen
  unfolding parse_label_named
  parse_label_named-IsIndexed name s labels seen r ix e =
      let finish : Bytes × Bytes → Result Round = λ (value, rest).
        let pushed = labels ++ (record { name = name; value = value }) ∷ [] in
        ok (record { labels = pushed; seen = record_label_name name pushed seen; rest = rest }) in
      let (_, body) = guard-ok _ _ _ r e in
      let (u, checked, e1) =
        bind-ok (check_label_name name labels seen) (λ _. label_value_of name s >>= finish) r
          body in
      let (fresh, below) = check_label_name-ok name labels seen u checked in
      let (found, _, e2) = bind-ok (label_value_of name s) finish r e1 in
      subst (λ round. IsIndexed first round.labels round.seen) (ok-injective _ r e2)
        (push-IsIndexed labels (record { name = name; value = found.0 }) seen ix fresh below)

  parse_label-IsIndexed :
      (c : ℕ) (s : Bytes) (labels : List Label) (seen : Seen) (r : Round)
      → IsIndexed first labels seen
      → parse_label c s labels seen ≡ ok r
      → IsIndexed first r.labels r.seen
  unfolding parse_label
  parse_label-IsIndexed c s labels seen r ix e =
      let named = span (λ b. is_name_continue b false) s in
      let (_, body) =
        guard-ok (not (is_name_start c false)) (bad_label_start c)
          (parse_label_named (c ∷ named.0) named.1 labels seen) r e in
      parse_label_named-IsIndexed (c ∷ named.0) named.1 labels seen r ix body

  IsStep : Step → Type 0
  IsStep (done labels rest) = (seen : Seen) × IsIndexed first labels seen
  IsStep (next r) = IsIndexed first r.labels r.seen

  after_value-IsStep :
      (r : Round) (s : Bytes) (step : Step)
      → IsIndexed first r.labels r.seen
      → after_value r s ≡ ok step
      → IsStep step
  unfolding after_value IsStep
  after_value-IsStep r [] step ix e = ground arith
  after_value-IsStep r (c ∷ s) step ix e =
      elim (if-ok (c == b',') (ok (next (record r { rest = s }))) _ step e) [
        | inl (_, e1) ↦ subst IsStep (ok-injective _ step e1) ix
        | inr (_, e1) ↦
            elim (if-ok (c == b'}') (ok (done r.labels s)) (err (expected_comma c)) step e1) [
              | inl (_, e2) ↦ subst IsStep (ok-injective _ step e2) (r.seen, ix)
              | inr (_, e2) ↦ ground arith
            ]
      ]

  labels_step-IsStep :
      (s : Bytes) (labels : List Label) (seen : Seen) (step : Step)
      → IsIndexed first labels seen
      → labels_step s labels seen ≡ ok step
      → IsStep step
  unfolding labels_step IsStep
  labels_step-IsStep [] labels seen step ix e = ground arith
  labels_step-IsStep (c ∷ s) labels seen step ix e =
      elim (if-ok (c == b'}') (ok (done labels s)) _ step e) [
        | inl (_, e1) ↦ subst IsStep (ok-injective _ step e1) (seen, ix)
        | inr (_, e1) ↦
            let (r, parsed, e2) =
              bind-ok (parse_label c s labels seen) (λ r. after_value r (skip_spaces r.rest)) step
                e1 in
            after_value-IsStep r (skip_spaces r.rest) step
              (parse_label-IsIndexed c s labels seen r ix parsed) e2
      ]

  pub parse_labels-IsIndexed :
      (fuel : ℕ) (s : Bytes) (labels : List Label) (seen : Seen) (out : List Label) (rest : Bytes)
      → IsIndexed first labels seen
      → parse_labels fuel s labels seen ≡ ok (out, rest)
      → (last : Seen) × IsIndexed first out last
  unfolding parse_labels IsStep
  parse_labels-IsIndexed zero s labels seen out rest ix e = ground arith
  parse_labels-IsIndexed (suc fuel) s labels seen out rest ix e =
      let (step, stepped, e1) =
        bind-ok (labels_step (skip_spaces s) labels seen)
          (λ step. elim step [
            | done o t ↦ ok (o, t)
            | next r ↦ parse_labels fuel r.rest r.labels r.seen
          ])
          (out, rest) e in
      go step (labels_step-IsStep (skip_spaces s) labels seen step ix stepped)
        (λ r. parse_labels-IsIndexed fuel r.rest r.labels r.seen out rest) e1
    where
      go :
          (step : Step)
          → IsStep step
          → ((r : Round)
              → IsIndexed first r.labels r.seen
              → parse_labels fuel r.rest r.labels r.seen ≡ ok (out, rest)
              → (last : Seen) × IsIndexed first out last)
          → ◌≡◌ {A = Result (List Label × Bytes)}
              (elim step [
                | done o t ↦ ok (o, t)
                | next r ↦ parse_labels fuel r.rest r.labels r.seen
              ])
              (ok (out, rest))
          → (last : Seen) × IsIndexed first out last
      go (done o t) h later e2 =
          (h.0, subst (λ p. IsIndexed first p.0 h.0) (ok-injective (o, t) (out, rest) e2) h.1)
      go (next r) h later e2 = later r h e2
