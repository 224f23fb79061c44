-- ===== src/Relabel/Rules.antt =====
-- What a list of rules does to a label set: `apply` and `process` of src/relabel.rs.
use mathlib.Core.Option.{some-injective}
use mathlib.Core.Path.{subst}
use prometheus_scrape_rs.Base.{
  Bool, true, false, not, List, [], ◌∷◌, Option, none, some, Bytes, if◌then◌else◌, is_empty, retain,
  All, ◌≡◌, ◌≢◌, arith, Bool-cases, map-eq-some, inl, inr,
}
use prometheus_scrape_rs.Model.{Label}
use prometheus_scrape_rs.Labels.{IsDistinct, set_label, has_name}
use prometheus_scrape_rs.Labels.Laws.{set_label-IsDistinct, retain-IsDistinct}
use prometheus_scrape_rs.Relabel.{
  Engine, Action, replace, keep, drop_matching, keep_equal, drop_equal, hash_mod, label_map,
  label_drop, label_keep, lowercase, uppercase, RelabelConfig, LabelSet, set_value, remove,
  set_or_remove, is_valid_label_name, join, replace_general, replace_literal, apply_replace,
  set_all, apply_action, apply, apply_all, process, copied_value,
}

-- `LabelSet::set` and `set_label` are one function.
pub set_value-labels :
    (set : LabelSet) (name value : Bytes)
    → (set_value set name value).labels ≡ set_label set.labels name value
unfolding set_value set_label
set_value-labels set name value = elim (Bool-cases (has_name name set.labels)) [
  | inl h ↦ rw h
  | inr h ↦ rw h
]

record HasDistinct (set : LabelSet) : Type 0 where
  names : IsDistinct set.labels

set_value-IsDistinct :
    (set : LabelSet) (name value : Bytes) → HasDistinct set → HasDistinct (set_value set name value)
set_value-IsDistinct set name value d = record {
  names = rw (set_value-labels set name value) (set_label-IsDistinct set.labels name value d.names);
}

remove-IsDistinct :
    (set : LabelSet) (name : Bytes) → HasDistinct set → HasDistinct (remove set name)
unfolding remove
remove-IsDistinct set name d = record { names = retain-IsDistinct _ set.labels d.names }

set_or_remove-IsDistinct :
    (set : LabelSet) (target value : Bytes)
    → HasDistinct set
    → HasDistinct (set_or_remove set target value)
unfolding set_or_remove
set_or_remove-IsDistinct set target value d = elim (Bool-cases (is_valid_label_name target)) [
  | inr n ↦ rw n d
  | inl h ↦ elim (Bool-cases (is_empty value)) [
    | inl z ↦ rw (h, z) (remove-IsDistinct set target d)
    | inr z ↦ rw (h, z) (set_value-IsDistinct set target value d)
  ]
]

-- A test keeps what both its branches keep.
if-IsDistinct :
    (b : Bool) (x y : LabelSet) → HasDistinct x → HasDistinct y → HasDistinct (if b then x else y)
if-IsDistinct true x y dx dy = dx
if-IsDistinct false x y dx dy = dy

module _ (e : Engine) where
  replace_general-IsDistinct :
      (set : LabelSet) (config : RelabelConfig e.Regex) (joined : Bytes)
      → HasDistinct set
      → HasDistinct (replace_general e set config joined)
  unfolding replace_general
  replace_general-IsDistinct set config joined d =
      elim (e.captures config.regex.regex joined)
        as (λ c. HasDistinct (elim c [
          | none ↦ set
          | some caps ↦
              set_or_remove set (e.expand caps config.target_label)
                (e.expand caps config.replacement)
        ])) [ none ↦ d | some caps ↦ set_or_remove-IsDistinct set _ _ d ]

  replace_literal-IsDistinct :
      (set : LabelSet) (config : RelabelConfig e.Regex) (joined : Bytes)
      → HasDistinct set
      → HasDistinct (replace_literal e set config joined)
  unfolding replace_literal
  replace_literal-IsDistinct set config joined d =
      if-IsDistinct _ _ _ (if-IsDistinct _ _ _ d (set_or_remove-IsDistinct set _ _ d))
        (replace_general-IsDistinct set config joined d)

  apply_replace-IsDistinct :
      (set : LabelSet) (config : RelabelConfig e.Regex)
      → HasDistinct set
      → HasDistinct (apply_replace e set config)
  unfolding apply_replace
  apply_replace-IsDistinct set config d =
      if-IsDistinct _ _ _ (if-IsDistinct _ _ _ d (by_value (copied_value config.replacement _)))
        (replace_literal-IsDistinct set config _ d)
    where
      by_value :
          (v : Option Bytes)
          → HasDistinct (elim v [
            | some value ↦ set_or_remove set config.target_label value
            | none ↦ replace_literal e set config (join set config.source_labels config.separator)
          ])
      by_value none = replace_literal-IsDistinct set config _ d
      by_value (some value) = set_or_remove-IsDistinct set config.target_label value d

  set_all-IsDistinct :
      (updates : List Label) (set : LabelSet)
      → HasDistinct set
      → HasDistinct (set_all e set updates)
  unfolding set_all
  set_all-IsDistinct [] set d = d
  set_all-IsDistinct (u ∷ updates) set d =
      set_all-IsDistinct updates _ (set_value-IsDistinct set u.name u.value d)

  apply_action-IsDistinct :
      (action : Action) (set : LabelSet) (config : RelabelConfig e.Regex)
      → HasDistinct set
      → HasDistinct (apply_action e action set config).0
  unfolding apply_action
  apply_action-IsDistinct replace set config d = apply_replace-IsDistinct set config d
  apply_action-IsDistinct hash_mod set config d = set_value-IsDistinct set _ _ d
  apply_action-IsDistinct label_map set config d = set_all-IsDistinct _ set d
  apply_action-IsDistinct label_drop set config d = record {
    names = retain-IsDistinct _ set.labels d.names;
  }
  apply_action-IsDistinct label_keep set config d = record {
    names = retain-IsDistinct _ set.labels d.names;
  }
  apply_action-IsDistinct lowercase set config d = set_value-IsDistinct set _ _ d
  apply_action-IsDistinct uppercase set config d = set_value-IsDistinct set _ _ d
  apply_action-IsDistinct keep set config d = d
  apply_action-IsDistinct drop_matching set config d = d
  apply_action-IsDistinct keep_equal set config d = d
  apply_action-IsDistinct drop_equal set config d = d

  apply_all-IsDistinct :
      (configs : List (RelabelConfig e.Regex)) (set : LabelSet) {out : LabelSet}
      → HasDistinct set
      → apply_all e set configs ≡ some out
      → HasDistinct out
  unfolding apply_all apply
  apply_all-IsDistinct [] set d h = subst HasDistinct (some-injective set _ h) d
  apply_all-IsDistinct (config ∷ configs) set d h =
      elim (Bool-cases (apply_action e config.action set config).1) [
        | inl kept ↦
            apply_all-IsDistinct configs _ (apply_action-IsDistinct config.action set config d)
              (rw kept at h)
        | inr dropped ↦ absurd (ground (arith, dropped, h))
      ]

  abbrev HasValue : Label → Type 0
  HasValue l = l.value ≢ []

  is_empty-nil : (value : Bytes) → not (is_empty value) ≡ true → value ≢ []
  is_empty-nil [] h = λ _. cc
  is_empty-nil (c ∷ s) h = λ p. cc

  retain-HasValue : (ls : List Label) → All HasValue (retain (λ l. not (is_empty l.value)) ls)
  unfolding retain
  retain-HasValue [] = tt
  retain-HasValue (l ∷ ls) = elim (Bool-cases (not (is_empty l.value))) [
    | inl h ↦ rw h (is_empty-nil l.value h, retain-HasValue ls)
    | inr h ↦ rw h (retain-HasValue ls)
  ]

  -- Whatever the rules and the engine, a label set with distinct names that they keep still has
  -- distinct names, and no label of it is empty.
  pub process-IsDistinct :
      (labels : List Label) (configs : List (RelabelConfig e.Regex)) {out : List Label}
      → IsDistinct labels
      → process e labels configs ≡ some out
      → IsDistinct out × All (λ l. l.value ≢ []) out
  unfolding process
  process-IsDistinct labels configs d h =
      let (set, kept, same) = map-eq-some _ (apply_all e (record { labels = labels }) configs) h in
      let distinct = apply_all-IsDistinct configs _ (record { names = d }) kept in
      rw (← same) (retain-IsDistinct _ set.labels distinct.names, retain-HasValue set.labels)
