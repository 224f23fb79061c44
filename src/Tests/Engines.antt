-- ===== src/Tests/Engines.antt =====
-- A regex engine that knows the default pattern and the sequences of plain characters and `.*`.
use mathlib.Core.Path.{subst}
use mathlib.Core.Option
use prometheus_scrape_rs.Base.{
  ℕ, ◌-◌, ◌==◌, Bool, true, false, not, ◌||◌, ◌&&◌, List, All, [], ◌∷◌, Option, none, some, Bytes,
  beq, beq_iff, if◌then◌else◌, text, contains, length, length-append, take, drop, take-append_self,
  ◌≡◌, refl, sym, ap, ◌∙◌, arith, Bool-cases, inl, inr,
}
use prometheus_scrape_rs.Relabel.{Engine, anchored}
use prometheus_scrape_rs.Relabel.Matching.{
  IsEngine, IsPlain, Item, char, any_run, print_items, is_syntax, matches_items,
}

pub data Pattern : Type 0 where
  whole : Pattern
  seq : List Item → Pattern

-- Reads back a sequence of plain characters and of `.*`.
unfoldable pub parse_items : Bytes → Option (List Item)
parse_items [] = some []
parse_items (c ∷ []) = if is_syntax c then none else some (char c ∷ [])
parse_items (c ∷ d ∷ s) =
    if is_syntax c
    then (if c == b'.' && d == b'*' then Option.map (◌∷◌ any_run) (parse_items s) else none)
    else Option.map (◌∷◌ (char c)) (parse_items (d ∷ s))

-- The pattern between the anchors.
unfoldable pub inner : Bytes → Bytes
inner x = take (length x - 6) (drop 4 x)

unfoldable pub compile_inner : Bytes → Option Pattern
compile_inner p =
    if beq p (text "(.*)") then some whole else Option.map (λ items. seq items) (parse_items p)

unfoldable pub is_match_pattern : Pattern → Bytes → Bool
is_match_pattern whole value = not (contains b'\n' value)
is_match_pattern (seq items) value = matches_items items value

abbrev pub small_engine : Engine
small_engine = record {
  Regex = Pattern;
  Captures = Bytes;
  compile = λ x. compile_inner (inner x);
  is_match = is_match_pattern;
  captures = λ re value. if is_match_pattern re value then some value else none;
  expand = λ value template.
      if beq template (text "$1") || beq template (text "${1}") then value else template;
  digest = λ value. value;
  to_lowercase = λ value. value;
  to_uppercase = λ value. value;
}

inner-anchored : (p : Bytes) → inner (anchored p) ≡ p
unfolding inner
inner-anchored p =
    let n : length (anchored p) - 6 ≡ length p = omega (arith, length-append p (text ")$")) in
    rw n (take-append_self p (text ")$"))

dollar_one : (contains b'$' (text "$1") ≡ true) × (contains b'$' (text "${1}") ≡ true)
unfolding contains
dollar_one = (refl, refl)

parse_items-plain :
    (c : ℕ) (s : Bytes)
    → is_syntax c ≡ false
    → parse_items (c ∷ s) ≡ Option.map (◌∷◌ (char c)) (parse_items s)
unfolding parse_items
parse_items-plain c [] h = rw h
parse_items-plain c (d ∷ s) h = rw h

parse_items-print_items :
    (items : List Item) → All IsPlain items → parse_items (print_items items) ≡ some items
unfolding parse_items print_items is_syntax
parse_items-print_items [] h = refl
parse_items-print_items (char c ∷ items) (h, hs) =
    parse_items-plain c (print_items items) h
    ∙ ap (Option.map (◌∷◌ (char c))) (parse_items-print_items items hs)
parse_items-print_items (any_run ∷ items) (h, hs) =
    ap (Option.map (◌∷◌ any_run)) (parse_items-print_items items hs)

-- A sequence of plain items never prints as the default pattern, whose first character is syntax.
not_default :
    (items : List Item) → All IsPlain items → beq (print_items items) (text "(.*)") ≡ false
unfolding print_items beq is_syntax
not_default [] h = refl
not_default (char c ∷ items) (h, hs) = ground (arith, h)
not_default (any_run ∷ items) h = refl

some-injective {ℓ} : {A : Type ℓ} (a b : A) → some a ≡ some b → a ≡ b
some-injective a b e = ground arith

captured :
    (re : Pattern) (value caps : Bytes)
    → (if is_match_pattern re value then some value else none) ≡ some caps
    → (caps ≡ value) × (caps ≡ value)
captured re value caps found = elim (Bool-cases (is_match_pattern re value)) [
  | inl e ↦ (ground arith, ground arith)
  | inr e ↦ absurd (ground arith)
]

expand_plain :
    (caps template : Bytes)
    → contains b'$' template ≡ false
    → (if beq template (text "$1") || beq template (text "${1}") then caps else template) ≡ template
expand_plain caps template h = elim (Bool-cases (beq template (text "$1"))) [
  | inl e ↦ absurd (
      ground (arith, dollar_one, subst (λ x. contains b'$' x ≡ false) ((beq_iff template _).0 e) h))
  | inr e ↦ elim (Bool-cases (beq template (text "${1}"))) [
    | inl f ↦ absurd (
        ground
          (arith, dollar_one, subst (λ x. contains b'$' x ≡ false) ((beq_iff template _).0 f) h))
    | inr f ↦ rw (e, f)
  ]
]

compiled :
    (items : List Item) (re : Pattern)
    → All IsPlain items
    → compile_inner (inner (anchored (print_items items))) ≡ some re
    → seq items ≡ re
unfolding compile_inner
compiled items re h built = some-injective (seq items) re (
    sym (
      rw (inner-anchored (print_items items), not_default items h, parse_items-print_items items h)
        refl)
    ∙ built)

default_compiled :
    (re : Pattern) → compile_inner (inner (anchored (text "(.*)"))) ≡ some re → whole ≡ re
unfolding compile_inner inner beq
default_compiled re built = some-injective whole re built

pub small_engine-IsEngine : IsEngine small_engine
unfolding is_match_pattern beq
small_engine-IsEngine = record {
  sequence_law = λ items value re h built.
      subst (λ r. is_match_pattern r value ≡ matches_items items value) (compiled items re h built)
        refl;
  captures_law =
      λ re value. elim (Bool-cases (is_match_pattern re value)) [ inl e ↦ rw (e) | inr e ↦ rw (e) ];
  default_match = λ value re built.
      subst (λ r. is_match_pattern r value ≡ not (contains b'\n' value)) (default_compiled re built)
        refl;
  default_group = λ value re caps built found. captured re value caps found;
  plain_law = λ caps template h. expand_plain caps template h;
}
