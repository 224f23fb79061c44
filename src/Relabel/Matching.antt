-- ===== src/Relabel/Matching.antt =====
-- `AnchoredRegex::matches` of src/relabel.rs against the regex engine that it avoids.
use prometheus_scrape_rs.Base.{
  ℕ, Bool, List, All, ◌==◌, ◌||◌, ◌&&◌, any, is_empty, append-nil, true, false, not, [], ◌∷◌, ◌++◌,
  none, some, Bytes, beq, beq_iff, text, contains, strip_prefix, strip_suffix, ◌≡◌, refl, sym, ap,
  ◌∙◌, arith, Bool-cases, Option-cases, map-eq-some, inl, inr,
}
use prometheus_scrape_rs.Relabel.{
  Engine, AnchoredRegex, PatternKind, literal, literal_prefix, general, has_meta, regex_meta,
  classify, anchored, new_regex, matches_kind, matches,
}

-- The part of the syntax that is a sequence of plain characters and of `.*`.
pub data Item : Type 0 where
  char : ℕ → Item
  any_run : Item

unfoldable pub print_items : List Item → Bytes
print_items [] = []
print_items (char c ∷ items) = c ∷ print_items items
print_items (any_run ∷ items) = b'.' ∷ b'*' ∷ print_items items

-- The characters that the documented syntax gives a meaning outside of a class.
unfoldable pub is_syntax : ℕ → Bool
is_syntax c =
    c == b'\\'
    || c == b'.'
    || c == b'+'
    || c == b'*'
    || c == b'?'
    || c == b'('
    || c == b')'
    || c == b'|'
    || c == b'['
    || c == b']'
    || c == b'{'
    || c == b'}'
    || c == b'^'
    || c == b'$'

abbrev pub IsPlain : Item → Type 0
IsPlain (char c) = is_syntax c ≡ false
IsPlain any_run = Unit {0}

-- Some run of characters other than the newline, then `k`.
unfoldable pub after_run : (Bytes → Bool) → Bytes → Bool
after_run k [] = k []
after_run k (x ∷ s) = k (x ∷ s) || (not (x == b'\n') && after_run k s)

-- The whole of a value, item by item.
unfoldable pub matches_items : List Item → Bytes → Bool
unfolding after_run
matches_items [] value = is_empty value
matches_items (char c ∷ items) [] = false
matches_items (char c ∷ items) (x ∷ value) = x == c && matches_items items value
matches_items (any_run ∷ items) value = after_run (matches_items items) value

-- What the documentation of the `regex` crate says of its syntax.
pub record IsEngine (e : Engine) : Type 0 where
  -- Between the anchors, a plain character matches itself, `.*` a run without newlines, and a
  -- sequence the one after the other.
  pub sequence_law :
      (items : List Item) (value : Bytes) (re : e.Regex)
      → All IsPlain items
      → e.compile (anchored (print_items items)) ≡ some re
      → e.is_match re value ≡ matches_items items value
  -- There are captures exactly for a match.
  pub captures_law :
      (re : e.Regex) (value : Bytes)
      → elim (e.captures re value) [ some _ ↦ true | none ↦ false ] ≡ e.is_match re value
  -- `(.*)` captures the whole of a value with no newline as group 1.
  pub default_match :
      (value : Bytes) (re : e.Regex)
      → e.compile (anchored (text "(.*)")) ≡ some re
      → e.is_match re value ≡ not (contains b'\n' value)
  pub default_group :
      (value : Bytes) (re : e.Regex) (caps : e.Captures)
      → e.compile (anchored (text "(.*)")) ≡ some re
      → e.captures re value ≡ some caps
      → (e.expand caps (text "$1") ≡ value) × (e.expand caps (text "${1}") ≡ value)
  -- A template with no dollar sign stands for itself.
  pub plain_law :
      (caps : e.Captures) (template : Bytes)
      → contains b'$' template ≡ false
      → e.expand caps template ≡ template

-- A text as a sequence of its characters.
unfoldable chars : Bytes → List Item → List Item
chars [] items = items
chars (c ∷ p) items = char c ∷ chars p items

plain_char : (c : ℕ) → contains c regex_meta ≡ false → is_syntax c ≡ false
unfolding contains is_syntax
plain_char c h = ground (arith, h)

print_chars : (p : Bytes) (items : List Item) → print_items (chars p items) ≡ p ++ print_items items
unfolding print_items chars
print_chars [] items = refl
print_chars (c ∷ p) items = ap (◌∷◌ c) (print_chars p items)

chars-IsPlain :
    (p : Bytes) (items : List Item)
    → has_meta p ≡ false
    → All IsPlain items
    → All IsPlain (chars p items)
unfolding chars has_meta any
chars-IsPlain [] items h hs = hs
chars-IsPlain (c ∷ p) items h hs =
    (plain_char c (ground (arith, h)), chars-IsPlain p items (ground (arith, h)) hs)

matches_chars : (p value : Bytes) → matches_items (chars p []) value ≡ beq value p
unfolding matches_items chars beq
matches_chars [] [] = refl
matches_chars [] (x ∷ value) = refl
matches_chars (c ∷ p) [] = refl
matches_chars (c ∷ p) (x ∷ value) = ap (λ b. x == c && b) (matches_chars p value)

run_to_end : (value : Bytes) → after_run is_empty value ≡ not (contains b'\n' value)
unfolding after_run contains
run_to_end [] = refl
run_to_end (x ∷ value) = ground (arith, run_to_end value)

matches_prefix :
    (p value : Bytes)
    → matches_items (chars p (any_run ∷ [])) value
      ≡ elim (strip_prefix p value) [ some rest ↦ not (contains b'\n' rest) | none ↦ false ]
unfolding matches_items chars strip_prefix
matches_prefix [] value = run_to_end value
matches_prefix (c ∷ p) [] = refl
matches_prefix (c ∷ p) (x ∷ value) = elim (Bool-cases (x == c)) [
  | inl e ↦ let same : (c == x) ≡ true = ground arith in rw (e, same) (matches_prefix p value)
  | inr e ↦ let other : (c == x) ≡ false = ground arith in rw (e, other) refl
]

module _ (e : Engine) (laws : IsEngine e) where
  -- A pattern with no metacharacter, anchored, matches itself alone.
  pub pattern_match :
      (p value : Bytes) (re : e.Regex)
      → has_meta p ≡ false
      → e.compile (anchored p) ≡ some re
      → e.is_match re value ≡ beq value p
  unfolding print_items
  pattern_match p value re plain compiled =
      let same : print_items (chars p []) ≡ p = print_chars p [] ∙ append-nil p in
      laws.sequence_law (chars p []) value re (chars-IsPlain p [] plain tt) (rw same compiled)
      ∙ matches_chars p value

  -- A literal before `.*` matches what begins with it and goes on with no newline.
  prefix_match :
      (p value : Bytes) (re : e.Regex)
      → has_meta p ≡ false
      → e.compile (anchored (p ++ text ".*")) ≡ some re
      → e.is_match re value
        ≡ elim (strip_prefix p value) [ some rest ↦ not (contains b'\n' rest) | none ↦ false ]
  unfolding print_items
  prefix_match p value re plain compiled =
      laws.sequence_law (chars p (any_run ∷ [])) value re
        (chars-IsPlain p (any_run ∷ []) plain (tt, tt)) (rw (print_chars p (any_run ∷ [])) compiled)
      ∙ matches_prefix p value

strip_suffix-append :
    (suffix s : Bytes) {prefix : Bytes} → strip_suffix suffix s ≡ some prefix → s ≡ prefix ++ suffix
unfolding strip_suffix
strip_suffix-append suffix [] h = ground (arith, beq_iff [] suffix)
strip_suffix-append suffix (c ∷ s) h = elim (Bool-cases (beq (c ∷ s) suffix)) [
  | inl same ↦ ground (arith, beq_iff (c ∷ s) suffix)
  | inr other ↦
      let (p, found, front) = map-eq-some (◌∷◌ c) (strip_suffix suffix s) (rw other at h) in
      rw (← front) (ap (◌∷◌ c) (strip_suffix-append suffix s found))
]

-- What a pattern is classified as decides how it must look.
pub classify-literal : (pattern : Bytes) → classify pattern ≡ literal → has_meta pattern ≡ false
unfolding classify
classify-literal pattern h = ground arith

classify-literal_prefix :
    (pattern : Bytes) {prefix : Bytes}
    → classify pattern ≡ literal_prefix prefix
    → (has_meta prefix ≡ false) × (pattern ≡ prefix ++ text ".*")
unfolding classify
classify-literal_prefix pattern {prefix} h =
    elim (Option-cases (strip_suffix (text ".*") pattern)) [
      | inl n ↦ ground (arith, n)
      | inr (p, q) ↦
          (ground (arith, q), strip_suffix-append (text ".*") pattern (q ∙ ground (arith, q)))
    ]

module _ (e : Engine) (pattern : Bytes) (re : AnchoredRegex e.Regex)
    (built : new_regex e pattern ≡ some re) where
  -- What a built regex holds.
  pub new_regex-parts :
      (re.source ≡ pattern)
      × (e.compile (anchored pattern) ≡ some re.regex)
      × (re.kind ≡ classify pattern)
  unfolding new_regex
  new_regex-parts =
      let (r, compiled, same) = map-eq-some _ (e.compile (anchored pattern)) built in
      (
        ap (λ x. x.source) (sym same),
        compiled ∙ ap (λ x. some x.regex) same,
        ap (λ x. x.kind) (sym same),
      )

module _ (e : Engine) (laws : IsEngine e) where
  matches_kind-is_match :
      (kind : PatternKind) (pattern : Bytes) (re : AnchoredRegex e.Regex) (value : Bytes)
      → re.source ≡ pattern
      → e.compile (anchored pattern) ≡ some re.regex
      → kind ≡ classify pattern
      → matches_kind e kind re value ≡ e.is_match re.regex value
  matches_kind-is_match literal pattern re value source compiled k = rw source (
      sym (pattern_match e laws pattern value re.regex (classify-literal pattern (sym k)) compiled))
  matches_kind-is_match (literal_prefix prefix) pattern re value source compiled k =
      let (plain, shape) = classify-literal_prefix pattern (sym k) in
      sym (prefix_match e laws prefix value re.regex plain (rw shape at compiled))
  matches_kind-is_match general pattern re value source compiled k = refl

  -- A regex that `new` built matches a value exactly when the engine does, whichever comparison
  -- the class of its pattern selects.
  pub matches-is_match :
      (pattern value : Bytes) (re : AnchoredRegex e.Regex)
      → new_regex e pattern ≡ some re
      → matches e re value ≡ e.is_match re.regex value
  unfolding matches
  matches-is_match pattern value re built =
      let (source, compiled, kind) = new_regex-parts e pattern re built in
      matches_kind-is_match re.kind pattern re value source compiled kind
