-- ===== src/Parser/Lines/Results.antt =====
-- What `parse_line` and `parse` of src/parser.rs give for a line and a body.
use mathlib.Core.Path.{subst}
use prometheus_scrape_rs.Base.{
  ℕ, suc, ◌≤◌, Bool, true, false, not, List, [], ◌∷◌, Option, none, some, Bytes, ◌==◌,
  if◌then◌else◌, length, all, All, arith, ◌≡◌, refl, sym, ap, ◌∙◌, inl, inr, Bool-cases,
}
use prometheus_scrape_rs.Base.Int.{ℤ}
use prometheus_scrape_rs.Model.{Label, Sample, TimeSeries, Float, metric_name_label}
use prometheus_scrape_rs.Labels.{IsDistinct, has_name}
use prometheus_scrape_rs.Parser.{
  Seen, FloatOps, invalid_value, bad_metric_start, Result, ok, err, ◌>>=◌, max_labels_per_series,
  is_duplicate, span, skip_spaces, is_name_start, is_name_continue, is_valid_name,
}
use prometheus_scrape_rs.Parser.Labels.{parse_labels}
use prometheus_scrape_rs.Parser.Labels.Distinct.{
  bind-ok, guard-ok, if-ok, ok-injective, IsIndexed, parse_labels-IsIndexed,
}
use prometheus_scrape_rs.Parser.Lines.{
  Parsed, series, failed, add_line, split_lines, strip_return, parse_label_set, label_set_at,
  parse_sample, parse_content, parse_line, parse_lines, parse, parse_time, parse_value, check_tail,
  or_message, token, slice,
}
use prometheus_scrape_rs.Hash.{hash_bytes}

-- The labels have distinct names, they are at most 128, and the first is `__name__` with a metric
-- name that the text format accepts.
pub record IsParsed (default_timestamp : ℤ) (honor : Bool) (s : TimeSeries) : Type 0 where
  pub distinct : IsDistinct s.labels
  pub bound : length s.labels ≤ max_labels_per_series
  pub name : Bytes
  pub named : is_valid_name name true ≡ true
  pub others : List Label
  pub front : s.labels ≡ (record { name = metric_name_label; value = name }) ∷ others
  pub timestamp : s.sample.timestamp ≡ (if honor then s.sample.timestamp else default_timestamp)

span-all : (p : ℕ → Bool) (s : Bytes) → all p (span p s).0 ≡ true
unfolding span all
span-all p [] = refl
span-all p (c ∷ cs) = ground (arith, span-all p cs)

one-IsIndexed : (first : Label) → IsIndexed first (first ∷ []) none
unfolding is_duplicate has_name
one-IsIndexed first = record {
  distinct = (refl, tt);
  bound = omega arith;
  agrees = λ name. refl;
  front = ([], refl);
}

label_set_at-IsIndexed :
    (first : Label) (after_name s : Bytes) (labels : List Label) (rest : Bytes)
    → label_set_at after_name (first ∷ []) s ≡ ok (labels, rest)
    → (last : Seen) × IsIndexed first labels last
unfolding label_set_at
label_set_at-IsIndexed first after_name [] labels rest e = (
  none,
  subst (λ p. IsIndexed first p.0 none) (ok-injective _ (labels, rest) e) (one-IsIndexed first),
)
label_set_at-IsIndexed first after_name (c ∷ s) labels rest e =
    elim (if-ok (c == b'{') (parse_labels (suc (length s)) s (first ∷ []) none)
      (ok (first ∷ [], after_name)) (labels, rest) e) [
        | inl (_, e1) ↦
            parse_labels-IsIndexed first (suc (length s)) s (first ∷ []) none labels rest
              (one-IsIndexed first) e1
        | inr (_, e1) ↦ (
          none,
          subst (λ p. IsIndexed first p.0 none)
              (ok-injective (first ∷ [], after_name) (labels, rest) e1) (one-IsIndexed first),
        )
      ]

parse_label_set-IsIndexed :
    (name s : Bytes) (labels : List Label) (rest : Bytes)
    → parse_label_set name s ≡ ok (labels, rest)
    → (last : Seen) × IsIndexed (record { name = metric_name_label; value = name }) labels last
unfolding parse_label_set
parse_label_set-IsIndexed name s labels rest e =
    label_set_at-IsIndexed _ s (skip_spaces s) labels rest e

valid_name :
    (c : ℕ) (s : Bytes)
    → not (is_name_start c true) ≡ false
    → is_valid_name (c ∷ (span (λ b. is_name_continue b true) s).0) true ≡ true
unfolding is_valid_name
valid_name c s h = ground (arith, span-all (λ b. is_name_continue b true) s)

some-injective {ℓ} : {A : Type ℓ} (a b : A) → some a ≡ some b → a ≡ b
some-injective a b e = ground arith

series-injective : (a b : List TimeSeries) → series a ≡ series b → a ≡ b
series-injective a b e = ground arith

add_line-All :
    (P : TimeSeries → Type 0) (line_no : ℕ) (r : Result (Option TimeSeries)) (rest : Parsed)
    (out : List TimeSeries)
    → ((s : TimeSeries) → r ≡ ok (some s) → P s)
    → ((xs : List TimeSeries) → rest ≡ series xs → All P xs)
    → add_line line_no r rest ≡ series out
    → All P out
unfolding add_line
add_line-All P line_no (err m) rest out here there e = ground arith
add_line-All P line_no (ok none) rest out here there e = there out e
add_line-All P line_no (ok (some s)) (series xs) out here there e =
    subst (All P) (series-injective (s ∷ xs) out e) (here s refl, there xs refl)
add_line-All P line_no (ok (some s)) (failed f) out here there e = ground arith

module _ (ops : FloatOps) (default_timestamp : ℤ) (honor : Bool) where
  parse_sample-timestamp :
      (s : Bytes) (sample : Sample)
      → parse_sample ops default_timestamp honor s ≡ ok sample
      → sample.timestamp ≡ (if honor then sample.timestamp else default_timestamp)
  unfolding parse_sample
  parse_sample-timestamp [] sample e = ground arith
  parse_sample-timestamp (c ∷ s) sample e =
      let finish : Float → ℤ × Bytes → Result Sample = λ value (timestamp, tail).
        check_tail tail >>= (λ _.
          ok (record {
            value = value;
            timestamp = if honor then timestamp else default_timestamp;
          })) in
      let timed : Float → Result Sample = λ value.
        parse_time ops default_timestamp honor (skip_spaces (token (c ∷ s)).1) >>= finish value in
      let (value, _, e1) =
        bind-ok (or_message invalid_value (parse_value ops (token (c ∷ s)).0)) timed sample e in
      let (found, _, e2) =
        bind-ok (parse_time ops default_timestamp honor (skip_spaces (token (c ∷ s)).1))
          (finish value) sample e1 in
      let (_, _, e3) =
        bind-ok (check_tail found.1)
          (λ _.
            ok (record { value = value; timestamp = if honor then found.0 else default_timestamp }))
          sample e2 in
      let same =
        ok-injective
          (record { value = value; timestamp = if honor then found.0 else default_timestamp })
          sample e3 in
      elim (Bool-cases honor) [
        | inl on ↦ rw on refl
        | inr off ↦ rw off (sym (ap (λ r. r.timestamp) same) ∙ rw off refl)
      ]

  pub parse_content-IsParsed :
      (s : Bytes) (out : TimeSeries)
      → parse_content ops default_timestamp honor s ≡ ok (some out)
      → IsParsed default_timestamp honor out
  unfolding parse_content
  parse_content-IsParsed [] out e = ground arith
  parse_content-IsParsed (c ∷ s) out e =
      let name = span (λ b. is_name_continue b true) s in
      let finish : List Label × Bytes → Sample → Result (Option TimeSeries) = λ found sample. ok (
        some (record {
          labels = found.0;
          sample = sample;
          identity_hash = hash_bytes (slice (c ∷ s) found.1);
          histogram = none;
        })) in
      let sampled : List Label × Bytes → Result (Option TimeSeries) =
        λ found. parse_sample ops default_timestamp honor (skip_spaces found.1) >>= finish found in
      elim (if-ok (c == b'#') (ok none)
        (if not (is_name_start c true)
          then err (bad_metric_start c)
          else (parse_label_set (c ∷ name.0) name.1 >>= sampled))
        (some out) e) [
          | inl (_, e1) ↦ ground arith
          | inr (_, e1) ↦
              let (started, e2) =
                guard-ok (not (is_name_start c true)) (bad_metric_start c)
                  (parse_label_set (c ∷ name.0) name.1 >>= sampled) (some out) e1 in
              let (found, labelled, e3) =
                bind-ok (parse_label_set (c ∷ name.0) name.1) sampled (some out) e2 in
              let (sample, taken, e4) =
                bind-ok (parse_sample ops default_timestamp honor (skip_spaces found.1))
                  (finish found) (some out) e3 in
              let (last, ix) =
                parse_label_set-IsIndexed (c ∷ name.0) name.1 found.0 found.1 labelled in
              subst (IsParsed default_timestamp honor)
                (some-injective _ out (ok-injective _ (some out) e4))
                (record {
                  distinct = ix.distinct;
                  bound = ix.bound;
                  name = c ∷ name.0;
                  named = valid_name c s started;
                  others = ix.front.0;
                  front = ix.front.1;
                  timestamp = parse_sample-timestamp (skip_spaces found.1) sample taken;
                })
        ]

  -- A series that a line gives has at most 128 labels with distinct names. The first of them is
  -- `__name__` with a metric name that the text format accepts. Its timestamp is the default one
  -- unless timestamps are honored.
  pub parse_line-IsParsed :
      (line : Bytes) (out : TimeSeries)
      → parse_line ops default_timestamp honor line ≡ ok (some out)
      → IsParsed default_timestamp honor out
  unfolding parse_line
  parse_line-IsParsed line out e = parse_content-IsParsed (skip_spaces line) out e

  parse_lines-IsParsed :
      (line_no : ℕ) (lines : List Bytes) (out : List TimeSeries)
      → parse_lines ops default_timestamp honor line_no lines ≡ series out
      → All (IsParsed default_timestamp honor) out
  unfolding parse_lines
  parse_lines-IsParsed line_no [] out e =
      subst (All (IsParsed default_timestamp honor)) (series-injective [] out e) tt
  parse_lines-IsParsed line_no (line ∷ lines) out e =
      add_line-All (IsParsed default_timestamp honor) line_no
        (parse_line ops default_timestamp honor (strip_return line))
        (parse_lines ops default_timestamp honor (suc line_no) lines) out
        (λ s h. parse_line-IsParsed (strip_return line) s h)
        (λ xs h. parse_lines-IsParsed (suc line_no) lines xs h) e

  -- Every series that a body gives has at most 128 labels with distinct names. The first of them is
  -- `__name__` with a metric name that the text format accepts. Its timestamp is the default one
  -- unless timestamps are honored.
  pub parse-IsParsed :
      (body : Bytes) (out : List TimeSeries)
      → parse ops body default_timestamp honor ≡ series out
      → All (IsParsed default_timestamp honor) out
  unfolding parse
  parse-IsParsed body out e = parse_lines-IsParsed 1 (split_lines body) out e
