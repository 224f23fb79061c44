-- ===== src/Parser/Labels/Total.antt =====
-- The fuel of `parse_labels` of src/parser.rs, and the bytes that its steps take.
use prometheus_scrape_rs.Base.{
  ℕ, zero, suc, ◌<◌, ◌≤◌, Bool, true, false, not, List, [], ◌∷◌, Bytes, ◌==◌, if◌then◌else◌, leb,
  beq, length, any, Bool-cases, arith, ◌≡◌, refl, inl, inr,
}
use prometheus_scrape_rs.Model.{Label, metric_name_label}
use prometheus_scrape_rs.Parser.{
  Message, expected_equals, expected_quote, expected_comma, too_many_labels, name_label_in_braces,
  is_space, is_duplicate, max_labels_per_series, crash, unterminated_value, trailing_backslash,
  bad_label_start, Result, ok, err, ◌>>=◌, Seen, span, skip_spaces, is_name_continue, is_name_start,
  scan_value, escaped_byte, decode_escapes, parse_label_value, check_label_name,
}
use prometheus_scrape_rs.Parser.Labels.{
  expect, label_value_of, Round, Step, done, next, parse_label_named, parse_label, after_value,
  labels_step, parse_labels,
}

abbrev pub is_crash : Message → Bool
is_crash crash = true
is_crash m = false

-- No crash, and `P` for what is given.
abbrev pub Gives {ℓ} : {A : Type ℓ} → (A → Type 0) → Result A → Type 0
Gives P (ok a) = P a
Gives P (err m) = is_crash m ≡ false

pub bind-Gives {ℓ κ} :
    {A : Type ℓ} {B : Type κ} (P : A → Type 0) (Q : B → Type 0) (r : Result A) (f : A → Result B)
    → Gives P r
    → ((a : A) → P a → Gives Q (f a))
    → Gives Q (r >>= f)
bind-Gives P Q (ok a) f h k = k a h
bind-Gives P Q (err m) f h k = h

pub if-Gives {ℓ} :
    {A : Type ℓ} (P : A → Type 0) (b : Bool) (x y : Result A)
    → Gives P x
    → Gives P y
    → Gives P (if b then x else y)
if-Gives P true x y hx hy = hx
if-Gives P false x y hx hy = hy

abbrev pub Anything {ℓ} : {A : Type ℓ} → A → Type 0
Anything a = Unit {0}

pub length-span : (p : ℕ → Bool) (s : Bytes) → length (span p s).1 ≤ length s
unfolding span
length-span p [] = omega arith
length-span p (c ∷ cs) = elim (Bool-cases (p c)) [
  | inl e ↦ rw e (omega (arith, length-span p cs))
  | inr e ↦ rw e (omega arith)
]

escaped_byte-Gives : (c : ℕ) → Gives Anything (escaped_byte c)
unfolding escaped_byte
escaped_byte-Gives c =
    if-Gives Anything (c == b'\\') _ _ tt
      (if-Gives Anything (c == b'"') _ _ tt (if-Gives Anything (c == b'n') (ok b'\n') _ tt refl))

decode_pair :
    (c d : ℕ) (s : Bytes)
    → (c == b'\\') ≡ true
    → Gives Anything (decode_escapes s)
    → Gives Anything (decode_escapes (c ∷ d ∷ s))
unfolding decode_escapes
decode_pair c d s escape h =
    rw (escape, decode_escapes)
      (bind-Gives Anything Anything (escaped_byte d)
        (λ b. decode_escapes s >>= (λ decoded. ok (b ∷ decoded))) (escaped_byte-Gives d)
        (λ b _.
          bind-Gives Anything Anything (decode_escapes s) (λ decoded. ok (b ∷ decoded)) h
            (λ _ _. tt)))

decode_plain :
    (c : ℕ) (s : Bytes)
    → (c == b'\\') ≡ false
    → Gives Anything (decode_escapes s)
    → Gives Anything (decode_escapes (c ∷ s))
unfolding decode_escapes
decode_plain c [] plain h = rw plain tt
decode_plain c (d ∷ s) plain h =
    rw (plain, decode_escapes)
      (bind-Gives Anything Anything (decode_escapes (d ∷ s)) (λ decoded. ok (c ∷ decoded)) h
        (λ _ _. tt))

abbrev IsScan : ℕ → Bytes × Bytes → Type 0
IsScan n found = Gives Anything (decode_escapes found.0) × (length found.1 < n)

scan_value-Gives : (s : Bytes) → Gives (IsScan (length s)) (scan_value s)
unfolding scan_value decode_escapes
scan_value-Gives [] = refl
scan_value-Gives (c ∷ []) =
    if-Gives (IsScan 1) (c == b'"') _ _ (tt, omega arith)
      (if-Gives (IsScan 1) (c == b'\\') (err trailing_backslash) (err unterminated_value) refl refl)
scan_value-Gives (c ∷ d ∷ s) = elim (Bool-cases (c == b'"')) [
  | inl q ↦ rw (q, scan_value) (tt, omega arith)
  | inr q ↦ elim (Bool-cases (c == b'\\')) [
    | inl e ↦
        rw (q, e, scan_value)
          (bind-Gives (IsScan (length s)) (IsScan (suc (suc (length s)))) (scan_value s)
            (λ (raw, rest). ok (c ∷ d ∷ raw, rest)) (scan_value-Gives s)
            (λ (raw, rest) (h, shorter). (decode_pair c d raw e h, omega arith)))
    | inr e ↦
        rw (q, e, scan_value)
          (bind-Gives (IsScan (suc (length s))) (IsScan (suc (suc (length s)))) (scan_value (d ∷ s))
            (λ (raw, rest). ok (c ∷ raw, rest)) (scan_value-Gives (d ∷ s))
            (λ (raw, rest) (h, shorter). (decode_plain c raw e h, omega arith)))
  ]
]

-- Fewer bytes than `n` are left.
abbrev IsLeft : ℕ → Bytes × Bytes → Type 0
IsLeft n found = length found.1 < n

weaken : (r : Result (Bytes × Bytes)) (m n : ℕ) → m ≤ n → Gives (IsLeft m) r → Gives (IsLeft n) r
weaken (ok a) m n le h = omega (arith, le, h)
weaken (err e) m n le h = h

round_weaken :
    (r : Result Round) (m n : ℕ)
    → m ≤ n
    → Gives (λ r. length r.rest ≤ m) r
    → Gives (λ r. length r.rest ≤ n) r
round_weaken (ok a) m n le h = omega (arith, le, h)
round_weaken (err e) m n le h = h

parse_label_value-Gives : (s : Bytes) → Gives (IsLeft (suc (length s))) (parse_label_value s)
unfolding parse_label_value
parse_label_value-Gives s =
    bind-Gives (IsScan (length s)) (IsLeft (suc (length s))) (scan_value s)
      (λ (raw, rest).
        (if any (λ c. c == b'\\') raw then decode_escapes raw else ok raw)
        >>= (λ value. ok (value, rest)))
      (scan_value-Gives s)
      (λ (raw, rest) (h, shorter).
        bind-Gives Anything (IsLeft (suc (length s)))
          (if any (λ c. c == b'\\') raw then decode_escapes raw else ok raw)
          (λ value. ok (value, rest))
          (if-Gives Anything (any (λ c. c == b'\\') raw) (decode_escapes raw) (ok raw) h tt)
          (λ _ _. omega arith))

expect-Gives :
    (byte : ℕ) (m : Message) (s : Bytes)
    → is_crash m ≡ false
    → Gives (λ rest. length rest < length s) (expect byte m s)
unfolding expect
expect-Gives byte m [] h = h
expect-Gives byte m (c ∷ s) h =
    if-Gives (λ rest. length rest < suc (length s)) (c == byte) (ok s) (err m) (omega arith) h

label_value_of-Gives : (name s : Bytes) → Gives (IsLeft (suc (length s))) (label_value_of name s)
unfolding label_value_of
label_value_of-Gives name s =
    bind-Gives (λ rest. length rest < length (skip_spaces s)) (IsLeft (suc (length s)))
      (expect b'=' (expected_equals name) (skip_spaces s)) _
      (expect-Gives b'=' (expected_equals name) (skip_spaces s) refl)
      (λ a shorter.
        bind-Gives (λ rest. length rest < length (skip_spaces a)) (IsLeft (suc (length s)))
          (expect b'"' (expected_quote name) (skip_spaces a)) _
          (expect-Gives b'"' (expected_quote name) (skip_spaces a) refl)
          (λ q less.
            weaken (parse_label_value q) (suc (length q)) (suc (length s))
              (omega (arith, length-span is_space s, length-span is_space a))
              (parse_label_value-Gives q)))

check_label_name-Gives :
    (name : Bytes) (labels : List Label) (seen : Seen)
    → Gives Anything (check_label_name name labels seen)
unfolding check_label_name
check_label_name-Gives name labels seen =
    if-Gives Anything (is_duplicate name labels seen) _ _ refl (
      if-Gives Anything (leb max_labels_per_series (length labels)) (err too_many_labels) (ok tt)
        refl tt)

parse_label_named-Gives :
    (name s : Bytes) (labels : List Label) (seen : Seen)
    → Gives (λ r. length r.rest ≤ length s) (parse_label_named name s labels seen)
unfolding parse_label_named
parse_label_named-Gives name s labels seen =
    if-Gives (λ r. length r.rest ≤ length s) (beq name metric_name_label) (err name_label_in_braces)
      _ refl
      (bind-Gives Anything (λ r. length r.rest ≤ length s) (check_label_name name labels seen) _
        (check_label_name-Gives name labels seen)
        (λ _ _.
          bind-Gives (IsLeft (suc (length s))) (λ r. length r.rest ≤ length s)
            (label_value_of name s) _ (label_value_of-Gives name s)
            (λ found shorter. omega (arith, shorter))))

parse_label-Gives :
    (c : ℕ) (s : Bytes) (labels : List Label) (seen : Seen)
    → Gives (λ r. length r.rest ≤ length s) (parse_label c s labels seen)
unfolding parse_label
parse_label-Gives c s labels seen =
    let named = span (λ b. is_name_continue b false) s in
    if-Gives (λ r. length r.rest ≤ length s) (not (is_name_start c false)) (err (bad_label_start c))
      _ refl
      (round_weaken (parse_label_named (c ∷ named.0) named.1 labels seen) (length named.1)
        (length s) (length-span (λ b. is_name_continue b false) s)
        (parse_label_named-Gives (c ∷ named.0) named.1 labels seen))

-- A further round starts with fewer bytes than `n`.
IsShorter : ℕ → Step → Type 0
IsShorter n (done labels rest) = Unit {0}
IsShorter n (next r) = length r.rest < n

after_value-Gives :
    (r : Round) (s : Bytes) (n : ℕ) → length s ≤ n → Gives (IsShorter n) (after_value r s)
unfolding after_value IsShorter
after_value-Gives r [] n h = refl
after_value-Gives r (c ∷ s) n h =
    if-Gives (IsShorter n) (c == b',') _ _ (omega arith)
      (if-Gives (IsShorter n) (c == b'}') (ok (done r.labels s)) (err (expected_comma c)) tt refl)

labels_step-Gives :
    (s : Bytes) (labels : List Label) (seen : Seen)
    → Gives (IsShorter (length s)) (labels_step s labels seen)
unfolding labels_step IsShorter
labels_step-Gives [] labels seen = refl
labels_step-Gives (c ∷ s) labels seen =
    if-Gives (IsShorter (suc (length s))) (c == b'}') (ok (done labels s)) _ tt (
      bind-Gives (λ r. length r.rest ≤ length s) (IsShorter (suc (length s)))
        (parse_label c s labels seen) _ (parse_label-Gives c s labels seen)
        (λ r h.
          after_value-Gives r (skip_spaces r.rest) (suc (length s))
            (omega (arith, h, length-span is_space r.rest))))

-- Fuel above the number of bytes is enough: the loop ends with the labels or with a message of the
-- parser, whatever the bytes, the labels so far and the index.
pub parse_labels-fuel :
    (fuel : ℕ) (s : Bytes) (labels : List Label) (seen : Seen)
    → length s < fuel
    → Gives Anything (parse_labels fuel s labels seen)
unfolding parse_labels IsShorter
parse_labels-fuel zero s labels seen h = absurd (omega arith)
parse_labels-fuel (suc fuel) s labels seen h =
    bind-Gives (IsShorter (length (skip_spaces s))) Anything
      (labels_step (skip_spaces s) labels seen) _ (labels_step-Gives (skip_spaces s) labels seen)
      (λ step. go step (λ r less.
        parse_labels-fuel fuel r.rest r.labels r.seen
          (omega (arith, less, length-span is_space s))))
  where
    go :
        (step : Step)
        → ((r : Round)
            → length r.rest < length (skip_spaces s)
            → Gives Anything (parse_labels fuel r.rest r.labels r.seen))
        → IsShorter (length (skip_spaces s)) step
        → Gives {A = List Label × Bytes} Anything (elim step [
          | done out rest ↦ ok (out, rest)
          | next r ↦ parse_labels fuel r.rest r.labels r.seen
        ])
    go (done out rest) k short = tt
    go (next r) k short = k r short
