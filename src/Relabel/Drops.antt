-- ===== src/Relabel/Drops.antt =====
-- When a list of rules drops a series: `process` of src/relabel.rs.
use mathlib.Core.Logic.{◌≢◌}
use prometheus_scrape_rs.Base.{
  true, false, not, beq, beq_iff, List, [], ◌∷◌, none, ◌≡◌, ◌↔◌, ◌⊎◌, ap, arith, Bool-cases, inl,
  inr, Option-cases,
}
use prometheus_scrape_rs.Model.{Label}
use prometheus_scrape_rs.Relabel.{
  Engine, RelabelConfig, LabelSet, Action, replace, keep, drop_matching, keep_equal, drop_equal,
  hash_mod, label_map, label_drop, label_keep, lowercase, uppercase, matches, join, get,
  apply_action, apply, apply_all, process,
}

module _ (e : Engine) where
  -- When the documentation of a rule says that the series goes.
  abbrev pub IsRefused : LabelSet → RelabelConfig e.Regex → Action → Type 0
  IsRefused set config keep =
      matches e config.regex (join set config.source_labels config.separator) ≡ false
  IsRefused set config drop_matching =
      matches e config.regex (join set config.source_labels config.separator) ≡ true
  IsRefused set config keep_equal =
      join set config.source_labels config.separator ≢ get set config.target_label
  IsRefused set config drop_equal =
      join set config.source_labels config.separator ≡ get set config.target_label
  IsRefused set config _ = ⊥

  apply_action-IsRefused :
      (set : LabelSet) (config : RelabelConfig e.Regex) (action : Action)
      → ((apply_action e action set config).1 ≡ false) ↔ IsRefused set config action
  unfolding apply_action
  apply_action-IsRefused set config replace = (λ h. absurd (ground arith), λ n. absurd n)
  apply_action-IsRefused set config keep = (λ h. h, λ h. h)
  apply_action-IsRefused set config drop_matching = (λ h. ground (arith, h), λ h. ground (arith, h))
  apply_action-IsRefused set config keep_equal = (
    λ h same. absurd (
        ground (
          arith,
          h,
          (beq_iff (join set config.source_labels config.separator) (get set config.target_label)).1
              same,
        )),
    λ n.
        elim (Bool-cases
          (beq (join set config.source_labels config.separator) (get set config.target_label))) [
            | inl e ↦ absurd (n ((beq_iff _ _).0 e))
            | inr e ↦ e
          ],
  )
  apply_action-IsRefused set config drop_equal =
      (λ h. (beq_iff _ _).0 (ground (arith, h)), λ same. ap not ((beq_iff _ _).1 same))
  apply_action-IsRefused set config hash_mod = (λ h. absurd (ground arith), λ n. absurd n)
  apply_action-IsRefused set config label_map = (λ h. absurd (ground arith), λ n. absurd n)
  apply_action-IsRefused set config label_drop = (λ h. absurd (ground arith), λ n. absurd n)
  apply_action-IsRefused set config label_keep = (λ h. absurd (ground arith), λ n. absurd n)
  apply_action-IsRefused set config lowercase = (λ h. absurd (ground arith), λ n. absurd n)
  apply_action-IsRefused set config uppercase = (λ h. absurd (ground arith), λ n. absurd n)

  -- Some rule, met with the set that the rules before it leave, refuses it, and none of these does.
  pub data Drops : LabelSet → List (RelabelConfig e.Regex) → Type 0 where
    here :
        {set : LabelSet} {config : RelabelConfig e.Regex} {configs : List (RelabelConfig e.Regex)}
        → IsRefused set config config.action
        → Drops set (config ∷ configs)
    later :
        {set : LabelSet} {config : RelabelConfig e.Regex} {configs : List (RelabelConfig e.Regex)}
        → ¬ IsRefused set config config.action
        → Drops (apply e set config).0 configs
        → Drops set (config ∷ configs)

  module _ (set : LabelSet) (config : RelabelConfig e.Regex) where
    refused : IsRefused set config config.action → (apply e set config).1 ≡ false
    unfolding apply
    refused h = (apply_action-IsRefused set config config.action).1 h

    kept : ¬ IsRefused set config config.action → (apply e set config).1 ≡ true
    unfolding apply
    kept n = elim (Bool-cases (apply e set config).1) [
      | inl k ↦ k
      | inr d ↦ absurd (n ((apply_action-IsRefused set config config.action).0 d))
    ]

    decided :
        IsRefused set config config.action
        ⊎ (((apply e set config).1 ≡ true) × (¬ IsRefused set config config.action))
    unfolding apply
    decided = elim (Bool-cases (apply e set config).1) [
      | inl k ↦ inr (k, λ h. absurd (ground (arith, k, refused h)))
      | inr d ↦ inl ((apply_action-IsRefused set config config.action).0 d)
    ]

  Drops-none :
      (set : LabelSet) (configs : List (RelabelConfig e.Regex))
      → Drops set configs
      → apply_all e set configs ≡ none
  unfolding apply_all
  Drops-none set [] d = elim d [ ]
  Drops-none set (config ∷ configs) (here h) = rw (refused set config h)
  Drops-none set (config ∷ configs) (later n d) =
      rw (kept set config n) (Drops-none (apply e set config).0 configs d)

  none-Drops :
      (configs : List (RelabelConfig e.Regex)) (set : LabelSet)
      → apply_all e set configs ≡ none
      → Drops set configs
  unfolding apply_all
  none-Drops [] set h = cc
  none-Drops (config ∷ configs) set h = elim (decided set config) [
    | inl r ↦ here r
    | inr (k, n) ↦ later n (none-Drops configs (apply e set config).0 (rw k at h))
  ]

  -- `process` gives nothing exactly when some rule, met with the set that the rules before it leave
  -- and that they do not refuse, refuses it: `keep` where its regex does not match the joined values,
  -- `drop` where it does, `keepequal` where they differ from the target label, `dropequal` where they
  -- are equal to it, and no other action ever. Empty values never drop a series.
  pub process-none :
      (labels : List Label) (configs : List (RelabelConfig e.Regex))
      → (process e labels configs ≡ none) ↔ Drops (record { labels = labels }) configs
  unfolding process
  process-none labels configs = (
    λ h. elim (Option-cases (apply_all e (record { labels = labels }) configs)) [
      | inl n ↦ none-Drops configs (record { labels = labels }) n
      | inr (set, s) ↦ absurd (ground (arith, h, s))
    ],
    λ d. rw (Drops-none (record { labels = labels }) configs d),
  )
