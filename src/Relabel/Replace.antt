-- ===== src/Relabel/Replace.antt =====
-- The `replace` action of src/relabel.rs: both fast paths give what the engine would.
use prometheus_scrape_rs.Base.{
  true, false, not, none, some, Bytes, beq, beq_iff, if◌then◌else◌, text, contains, ◌≡◌, refl, sym,
  ap, ◌∙◌, arith, Bool-cases, Option-cases, inl, inr, ◌⊎◌,
}
use prometheus_scrape_rs.Relabel.{
  Engine, RelabelConfig, LabelSet, PatternKind, literal, general, anchored, new_regex, copied_value,
  is_literal, join, replace_general, replace_literal, apply_replace, set_or_remove, has_meta,
}
use prometheus_scrape_rs.Relabel.Matching.{
  IsEngine, new_regex-parts, classify-literal, pattern_match,
}

module _ (e : Engine) (laws : IsEngine e) where
  -- Captures and matches decide one another.
  captured :
      (re : e.Regex) (value : Bytes)
      → e.is_match re value ≡ true
      → (caps : e.Captures) × (e.captures re value ≡ some caps)
  captured re value h = elim (Option-cases (e.captures re value)) [
    | inl n ↦ absurd (ground (arith, n, laws.captures_law re value))
    | inr c ↦ c
  ]

  not_captured :
      (re : e.Regex) (value : Bytes) → e.is_match re value ≡ false → e.captures re value ≡ none
  not_captured re value h = elim (Option-cases (e.captures re value)) [
    | inl n ↦ n
    | inr (c, q) ↦ absurd (ground (arith, q, laws.captures_law re value))
  ]

  -- The engine's path, at a value that matches and at one that does not.
  replace_general-some :
      (set : LabelSet) (config : RelabelConfig e.Regex) (joined target value : Bytes)
      (caps : e.Captures)
      → e.captures config.regex.regex joined ≡ some caps
      → e.expand caps config.target_label ≡ target
      → e.expand caps config.replacement ≡ value
      → replace_general e set config joined ≡ set_or_remove set target value
  unfolding replace_general
  replace_general-some set config joined target value caps c t v = rw (c, replace_general, t, v)

  replace_general-none :
      (set : LabelSet) (config : RelabelConfig e.Regex) (joined : Bytes)
      → e.captures config.regex.regex joined ≡ none
      → replace_general e set config joined ≡ set
  unfolding replace_general
  replace_general-none set config joined c = rw (c, replace_general)

  module _ (config : RelabelConfig e.Regex) (pattern : Bytes)
      (built : new_regex e pattern ≡ some config.regex) where
    is_literal-kind : (k : PatternKind) → is_literal k ≡ true → k ≡ literal
    is_literal-kind literal h = refl
    is_literal-kind general h = cc
    is_literal-kind _ h = cc

    compiled : e.compile (anchored pattern) ≡ some config.regex.regex
    compiled = (new_regex-parts e pattern config.regex built).1

    -- On a literal pattern the engine matches the pattern alone.
    literal_match :
        (joined : Bytes)
        → is_literal config.regex.kind ≡ true
        → e.is_match config.regex.regex joined ≡ beq joined config.regex.source
    literal_match joined h =
        let (source, c, kind) = new_regex-parts e pattern config.regex built in
        let plain : has_meta pattern ≡ false =
          classify-literal pattern (sym kind ∙ is_literal-kind config.regex.kind h) in
        rw source (pattern_match e laws pattern joined config.regex.regex plain c)

    plain_replace :
        (set : LabelSet) (joined target value : Bytes)
        → e.is_match config.regex.regex joined ≡ true
        → config.target_label ≡ target
        → config.replacement ≡ value
        → contains b'$' target ≡ false
        → contains b'$' value ≡ false
        → replace_general e set config joined ≡ set_or_remove set target value
    plain_replace set joined target value m t v pt pv =
        let (caps, c) = captured config.regex.regex joined m in
        replace_general-some set config joined target value caps c
          (ap (e.expand caps) t ∙ laws.plain_law caps target pt)
          (ap (e.expand caps) v ∙ laws.plain_law caps value pv)

    -- The comparison with a literal pattern does what the engine does.
    replace_literal-general :
        (set : LabelSet) (joined : Bytes)
        → replace_literal e set config joined ≡ replace_general e set config joined
    unfolding replace_literal
    replace_literal-general set joined = elim (Bool-cases (is_literal config.regex.kind)) [
      | inr n ↦ rw n
      | inl k ↦ elim (Bool-cases (contains b'$' config.target_label)) [
        | inl t ↦ rw (k, t)
        | inr t ↦ elim (Bool-cases (contains b'$' config.replacement)) [
          | inl v ↦ rw (k, t, v)
          | inr v ↦ elim (Bool-cases (beq joined config.regex.source)) [
            | inl same ↦
                rw (k, t, v, same)
                  (sym (plain_replace set joined _ _ (literal_match joined k ∙ same) refl refl t v))
            | inr other ↦
                rw (k, t, v, other)
                  (sym (
                    replace_general-none set config joined
                      (not_captured config.regex.regex joined (literal_match joined k ∙ other))))
          ]
        ]
      ]
    ]

    -- The default pattern, where it captures the joined value as group 1.
    module _ (default : pattern ≡ text "(.*)") (set : LabelSet) (joined : Bytes)
        (target : contains b'$' config.target_label ≡ false) where
      default_compiled : e.compile (anchored (text "(.*)")) ≡ some config.regex.regex
      default_compiled = rw default at compiled

      default_matches : contains b'\n' joined ≡ false → e.is_match config.regex.regex joined ≡ true
      default_matches h = laws.default_match joined config.regex.regex default_compiled ∙ ap not h

      copy_group :
          contains b'\n' joined ≡ false
          → (config.replacement ≡ text "$1") ⊎ (config.replacement ≡ text "${1}")
          → set_or_remove set config.target_label joined ≡ replace_general e set config joined
      copy_group h which =
          let (caps, c) = captured config.regex.regex joined (default_matches h) in
          let (one, braced) =
            laws.default_group joined config.regex.regex caps default_compiled c in
          sym (
            replace_general-some set config joined _ _ caps c
              (laws.plain_law caps config.target_label target)
              (elim which [
                | inl d ↦ ap (e.expand caps) d ∙ one
                | inr b ↦ ap (e.expand caps) b ∙ braced
              ]))

      default-general :
          (if contains b'\n' joined then set else elim (copied_value config.replacement joined) [
            | some value ↦ set_or_remove set config.target_label value
            | none ↦ replace_literal e set config joined
          ])
          ≡ replace_general e set config joined
      default-general = elim (Bool-cases (contains b'\n' joined)) [
        | inl h ↦ rw h (
            sym (
              replace_general-none set config joined (
                not_captured config.regex.regex joined
                  (laws.default_match joined config.regex.regex default_compiled ∙ ap not h))))
        | inr h ↦ elim (Bool-cases (beq config.replacement (text "$1"))) [
          | inl d ↦ rw (h, d) (copy_group h (inl ((beq_iff config.replacement _).0 d)))
          | inr d ↦ elim (Bool-cases (beq config.replacement (text "${1}"))) [
            | inl b ↦ rw (h, d, b) (copy_group h (inr ((beq_iff config.replacement _).0 b)))
            | inr b ↦ elim (Bool-cases (contains b'$' config.replacement)) [
              | inl v ↦ rw (h, d, b, v) (replace_literal-general set joined)
              | inr v ↦
                  rw (h, d, b, v)
                    (sym (plain_replace set joined _ _ (default_matches h) refl refl target v))
            ]
          ]
        ]
      ]

  -- Whichever fast path a `replace` rule takes, the set that it leaves is the one that the engine's
  -- captures and expansions give, for a rule whose regex `new` built.
  pub apply_replace-general :
      (set : LabelSet) (config : RelabelConfig e.Regex) (pattern : Bytes)
      → new_regex e pattern ≡ some config.regex
      → apply_replace e set config
        ≡ replace_general e set config (join set config.source_labels config.separator)
  unfolding apply_replace
  apply_replace-general set config pattern built =
      elim (Bool-cases (beq config.regex.source (text "(.*)"))) [
        | inr n ↦ rw n (replace_literal-general config pattern built set _)
        | inl d ↦ elim (Bool-cases (contains b'$' config.target_label)) [
          | inl t ↦ rw (d, t) (replace_literal-general config pattern built set _)
          | inr t ↦
              rw (d, t)
                (default-general config pattern built
                  (sym (new_regex-parts e pattern config.regex built).0
                    ∙ (beq_iff config.regex.source _).0 d)
                  set _ t)
        ]
      ]
