-- ===== src/Relabel/Validate.antt =====
-- `RelabelConfig::validate` of src/relabel.rs.
use mathlib.Core.Path.{subst}
use prometheus_scrape_rs.Base.{
  ℕ, ◌<◌, true, Option, none, some, Bytes, ◌==◌, if◌then◌else◌, is_empty, arith, ◌≡◌, refl, sym,
}
use prometheus_scrape_rs.Base.Int.{IsU64}
use prometheus_scrape_rs.Relabel.{
  Engine, Action, replace, keep, drop_matching, keep_equal, drop_equal, hash_mod, label_map,
  label_drop, label_keep, lowercase, uppercase, RelabelConfig, LabelSet, get, apply, apply_action,
}
use prometheus_scrape_rs.Relabel.Effect.{read_decimal, get-hash_mod}

pub data Invalid : Type 0 where
  requires_modulus : Invalid
  requires_target_label : Action → Invalid

abbrev require_target : Action → Bytes → Option Invalid
require_target action target = if is_empty target then some (requires_target_label action) else none

-- The error of a rule of that action, if it has one.
unfoldable pub validate_action : Action → ℕ → Bytes → Option Invalid
validate_action hash_mod modulus target =
    if modulus == 0 then some requires_modulus else require_target hash_mod target
validate_action replace modulus target = require_target replace target
validate_action lowercase modulus target = require_target lowercase target
validate_action uppercase modulus target = require_target uppercase target
validate_action keep_equal modulus target = require_target keep_equal target
validate_action drop_equal modulus target = require_target drop_equal target
validate_action keep modulus target = none
validate_action drop_matching modulus target = none
validate_action label_map modulus target = none
validate_action label_drop modulus target = none
validate_action label_keep modulus target = none

abbrev pub validate : {Regex : Type 0} → RelabelConfig Regex → Option Invalid
validate config = validate_action config.action config.modulus config.target_label

positive_modulus :
    (modulus : ℕ) (target : Bytes) → validate_action hash_mod modulus target ≡ none → 0 < modulus
unfolding validate_action
positive_modulus modulus target h = ground arith

kept :
    (e : Engine) (set : LabelSet) (config : RelabelConfig e.Regex)
    → (apply_action e hash_mod set config).1 ≡ true
unfolding apply_action
kept e set config = refl

-- A `hashmod` rule that `validate` accepts, with a `u64` modulus, keeps every series, and its target
-- then reads as the decimal digits of a number below the modulus: the division is never by zero.
pub validate-hash_mod :
    (e : Engine) (set : LabelSet) (config : RelabelConfig e.Regex)
    → config.action ≡ hash_mod
    → validate config ≡ none
    → IsU64 config.modulus
    → ((apply e set config).1 ≡ true)
      × (read_decimal 0 (get (apply e set config).0 config.target_label) < config.modulus)
unfolding apply
validate-hash_mod e set config is_hash accepted u =
    subst
      (λ a.
        ((apply_action e a set config).1 ≡ true)
        × (read_decimal 0 (get (apply_action e a set config).0 config.target_label)
            < config.modulus))
      (sym is_hash)
      (
        kept e set config,
        (get-hash_mod e set config config.target_label
            (positive_modulus config.modulus config.target_label (
              subst (λ a. validate_action a config.modulus config.target_label ≡ none) is_hash
                accepted))
            u).1,
      )
