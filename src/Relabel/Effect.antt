-- ===== src/Relabel/Effect.antt =====
-- What one rule writes: `LabelSet`, `replace`, `hashmod`, `labeldrop` and `labelkeep` of
-- src/relabel.rs.
use mathlib.Core.List.{Perm, perm_middle}
use mathlib.Core.List.Perm
use mathlib.Core.Option
use native.Mathlib.Nat.{pow-suc}
use prometheus_scrape_rs.Base.{
  ℕ, zero, suc, ◌+◌, ◌-◌, ◌*◌, ◌/◌, ◌%◌, ◌^◌, ◌<◌, Bool, true, not, ◌&&◌, List, [], ◌∷◌, ◌++◌,
  Option, none, some, Bytes, beq, beq_iff, if◌then◌else◌, is_empty, decimal, decimal_from, retain,
  ltb, ◌≡◌, refl, ap, ◌∙◌, arith, Bool-cases, inl, inr, beq_refl, All, All-map, false,
}
use prometheus_scrape_rs.Base.Int.{IsU64}
use prometheus_scrape_rs.Model.{Label}
use prometheus_scrape_rs.Labels.{find_named, get_label, has_name, assign_named, set_label}
use prometheus_scrape_rs.Labels.Laws.{get_label-set_label, find_named-append, find_named-none}
use prometheus_scrape_rs.Relabel.{
  Engine, RelabelConfig, LabelSet, hash_mod, label_drop, label_keep, get, set_value, remove,
  set_or_remove, is_valid_label_name, join, matches, hash_mod_of, replace_general, apply_replace,
  new_regex, apply_action,
}
use prometheus_scrape_rs.Relabel.Matching.{IsEngine}
use prometheus_scrape_rs.Relabel.Replace.{apply_replace-general}
use prometheus_scrape_rs.Relabel.Rules.{set_value-labels}

pub get-set_value :
    (set : LabelSet) (name key value : Bytes)
    → get (set_value set name value) key ≡ (if beq name key then value else get set key)
unfolding get get_label
get-set_value set name key value =
    rw (set_value-labels set name value) (get_label-set_label set.labels name key value)

-- The value of a label, where there is one.
abbrev pub lookup : LabelSet → Bytes → Option Bytes
lookup set key = Option.map (λ l. l.value) (find_named key set.labels)

lookup_removed :
    (name key : Bytes) (ls : List Label)
    → Option.map (λ l. l.value) (find_named key (retain (λ l. not (beq l.name name)) ls))
      ≡ (if beq name key then none else Option.map (λ l. l.value) (find_named key ls))
unfolding find_named retain
lookup_removed name key [] = ground arith
lookup_removed name key (l ∷ ls) =
    ground
      (arith, beq_iff l.name name, beq_iff l.name key, beq_iff name key, lookup_removed name key ls)

lookup_assigned :
    (name key value : Bytes) (ls : List Label)
    → has_name name ls ≡ true
    → Option.map (λ l. l.value) (find_named key (assign_named name value ls))
      ≡ (if beq name key then some value else Option.map (λ l. l.value) (find_named key ls))
unfolding has_name find_named assign_named
lookup_assigned name key value [] h = cc
lookup_assigned name key value (l ∷ ls) h = ground (
  arith,
  beq_iff l.name name,
  beq_iff l.name key,
  beq_iff name key,
  lookup_assigned name key value ls,
)

lookup-set_value :
    (set : LabelSet) (name value key : Bytes)
    → lookup (set_value set name value) key ≡ (if beq name key then some value else lookup set key)
unfolding find_named set_label
lookup-set_value set name value key =
    ap (λ ls. Option.map (λ l. l.value) (find_named key ls)) (set_value-labels set name value)
    ∙ elim (Bool-cases (has_name name set.labels)) [
      | inl h ↦ rw h (lookup_assigned name key value set.labels h)
      | inr h ↦ rw h (
          ground (
            arith,
            find_named-append key set.labels (record { name = name; value = value } ∷ []),
            beq_iff name key,
            find_named-none key set.labels,
          ))
    ]

-- What a write leaves: no label for the empty value.
abbrev pub written : Bytes → Option Bytes
written [] = none
written (c ∷ value) = some (c ∷ value)

lookup-set_or_remove :
    (set : LabelSet) (target key value : Bytes)
    → lookup (set_or_remove set target value) key
      ≡ (if is_valid_label_name target && beq target key then written value else lookup set key)
unfolding set_or_remove
lookup-set_or_remove set target key value = elim (Bool-cases (is_valid_label_name target)) [
  | inr n ↦ rw n
  | inl h ↦ by_value value h
]
  where
    by_value :
        (v : Bytes)
        → is_valid_label_name target ≡ true
        → lookup
            (if not (is_valid_label_name target)
              then set
              else if is_empty v
              then remove set target
              else set_value set target v)
            key
          ≡ (if is_valid_label_name target && beq target key then written v else lookup set key)
    by_value [] h = rw h (unfold remove in lookup_removed target key set.labels)
    by_value (c ∷ v) h = rw h (lookup-set_value set target (c ∷ v) key)

module _ (e : Engine) (laws : IsEngine e) where
  -- `replace` as Prometheus defines it, for an engine with the documented behaviour: where the
  -- anchored regex matches the joined source values, and the expanded target is a valid label name,
  -- there is no label of that name afterwards if the replacement expands to the empty string, and
  -- else one with the expanded replacement; every other label, and every label where it does not
  -- match, is there with its value exactly as before.
  pub lookup-apply_replace :
      (set : LabelSet) (config : RelabelConfig e.Regex) (pattern key : Bytes)
      → new_regex e pattern ≡ some config.regex
      → lookup (apply_replace e set config) key
        ≡ elim (e.captures config.regex.regex (join set config.source_labels config.separator)) [
          | none ↦ lookup set key
          | some caps ↦
              if is_valid_label_name (e.expand caps config.target_label)
                && beq (e.expand caps config.target_label) key
              then written (e.expand caps config.replacement)
              else lookup set key
        ]
  unfolding replace_general
  lookup-apply_replace set config pattern key built =
      ap (λ s. lookup s key) (apply_replace-general e laws set config pattern built)
      ∙ by_captures (e.captures config.regex.regex (join set config.source_labels config.separator))
          refl
    where
      by_captures :
          (c : Option e.Captures)
          → e.captures config.regex.regex (join set config.source_labels config.separator) ≡ c
          → lookup
              (replace_general e set config (join set config.source_labels config.separator))
              key
            ≡ elim c [
              | none ↦ lookup set key
              | some caps ↦
                  if is_valid_label_name (e.expand caps config.target_label)
                    && beq (e.expand caps config.target_label) key
                  then written (e.expand caps config.replacement)
                  else lookup set key
            ]
      by_captures none h = rw (h, replace_general)
      by_captures (some caps) h = rw (h, replace_general) (lookup-set_or_remove set _ key _)

-- The number that decimal digits stand for.
unfoldable pub read_decimal : ℕ → Bytes → ℕ
read_decimal acc [] = acc
read_decimal acc (c ∷ cs) = read_decimal (acc * 10 + (c - b'0')) cs

read_decimal-append :
    (xs ys : Bytes) (acc : ℕ) → read_decimal acc (xs ++ ys) ≡ read_decimal (read_decimal acc xs) ys
unfolding read_decimal
read_decimal-append [] ys acc = refl
read_decimal-append (c ∷ xs) ys acc = read_decimal-append xs ys (acc * 10 + (c - b'0'))

read_decimal-decimal_from :
    (fuel n : ℕ) → n < 10 ^ suc fuel → read_decimal 0 (decimal_from fuel n) ≡ n
unfolding decimal_from read_decimal
read_decimal-decimal_from zero n h = omega arith
read_decimal-decimal_from (suc fuel) n h = elim (Bool-cases (ltb n 10)) [
  | inl small ↦ rw small (omega arith)
  | inr big ↦ rw big (
      read_decimal-append (decimal_from fuel (n / 10)) ((n % 10 + b'0') ∷ []) 0
      ∙ omega
          (arith, read_decimal-decimal_from fuel (n / 10) (omega (arith, pow-suc 10 (suc fuel)))))
]

read_decimal-decimal : (n : ℕ) → IsU64 n → read_decimal 0 (decimal n) ≡ n
unfolding decimal
read_decimal-decimal n h = read_decimal-decimal_from 20 n (omega arith)

-- `hashmod` leaves every other label as it was, and under its target the decimal digits of a number
-- below the modulus, which is the same for sets that give the same joined value.
pub get-hash_mod :
    (e : Engine) (set : LabelSet) (config : RelabelConfig e.Regex) (key : Bytes)
    → 0 < config.modulus
    → IsU64 config.modulus
    → (get (apply_action e hash_mod set config).0 key ≡ (
        if beq config.target_label key
        then decimal (hash_mod_of e (join set config.source_labels config.separator) config.modulus)
        else get set key))
      × (read_decimal 0 (get (apply_action e hash_mod set config).0 config.target_label)
          < config.modulus)
unfolding apply_action
get-hash_mod e set config key positive u = (get-set_value set config.target_label key _, written)
  where
    bucket : ℕ
    bucket = hash_mod_of e (join set config.source_labels config.separator) config.modulus

    bound : bucket < config.modulus
    bound = unfold hash_mod_of in omega arith

    written :
        read_decimal 0
          (get (set_value set config.target_label (decimal bucket)) config.target_label)
        < config.modulus
    written = rw (get-set_value set config.target_label config.target_label (decimal bucket)) (
        rw (beq_refl config.target_label)
          (rw (read_decimal-decimal bucket (omega (arith, bound))) bound))

retain_partition :
    (p : Label → Bool) (ls : List Label) → Perm (retain p ls ++ retain (λ l. not (p l)) ls) ls
unfolding retain
retain_partition p [] = Perm.refl []
retain_partition p (l ∷ ls) = elim (Bool-cases (p l)) [
  | inl h ↦ rw h (Perm.cons l (retain_partition p ls))
  | inr h ↦ rw h (
      Perm.trans (perm_middle (retain p ls) (retain (λ l. not (p l)) ls))
        (Perm.cons l (retain_partition p ls)))
]

All-retained : (p : Label → Bool) (ls : List Label) → All (λ l. p l ≡ true) (retain p ls)
unfolding retain
All-retained p [] = tt
All-retained p (l ∷ ls) = elim (Bool-cases (p l)) [
  | inl h ↦ rw h (h, All-retained p ls)
  | inr h ↦ rw h (All-retained p ls)
]

-- What `labelkeep` leaves and what `labeldrop` leaves, with one regex.
pub record AreSplit (e : Engine) (config : RelabelConfig e.Regex) (labels kept left : List Label)
    : Type 0 where
  pub all_match : All (λ l. matches e config.regex l.name ≡ true) kept
  pub none_match : All (λ l. matches e config.regex l.name ≡ false) left
  pub together : Perm (kept ++ left) labels

-- With one regex, `labelkeep` leaves labels whose names match, `labeldrop` labels whose names do
-- not, both together are the labels of the set, each as often as before, and both keep the series.
pub label_keep-label_drop :
    (e : Engine) (set : LabelSet) (config : RelabelConfig e.Regex)
    → AreSplit e config set.labels
        (apply_action e label_keep set config).0.labels
        (apply_action e label_drop set config).0.labels
      × ((apply_action e label_keep set config).1 ≡ true)
      × ((apply_action e label_drop set config).1 ≡ true)
unfolding apply_action
label_keep-label_drop e set config = (
  record {
    all_match = All-retained (λ l. matches e config.regex l.name) set.labels;
    none_match =
        All-map (λ l. not (matches e config.regex l.name) ≡ true)
          (λ l. matches e config.regex l.name ≡ false)
          (retain (λ l. not (matches e config.regex l.name)) set.labels) (λ l h. ground (arith, h))
          (All-retained (λ l. not (matches e config.regex l.name)) set.labels);
    together = retain_partition (λ l. matches e config.regex l.name) set.labels;
  },
  refl,
  refl,
)
