-- ===== src/Relabel.antt =====
-- src/relabel.rs: relabelling rules over label sets. The `regex` crate, the `md5` crate and the
-- Unicode case tables are the parameter `Engine`.
pub mod Matching
pub mod Replace
pub mod Rules
pub mod Drops
pub mod Validate
pub mod Effect
use mathlib.Core.Option
use prometheus_scrape_rs.Base.{
  ℕ, ◌+◌, ◌*◌, ◌%◌, Bool, true, false, not, ◌&&◌, ◌||◌, List, [], ◌∷◌, ◌++◌, Option, none, some,
  Bytes, ◌==◌, beq, if◌then◌else◌, take, drop, text, is_empty, contains, strip_prefix, strip_suffix,
  decimal, all, any, retain, is_ascii_alphabetic, is_ascii_alphanumeric,
}
use prometheus_scrape_rs.Model.{Label}
use prometheus_scrape_rs.Labels.{has_name, find_named, value_or_empty, assign_named}

-- What is not code of the repository: compiled patterns with `is_match`, `captures` and
-- `Captures::expand` (what it appends), `Md5::digest`, `to_lowercase` and `to_uppercase`.
pub record Engine : Type 1 where
  pub Regex : Type 0
  pub Captures : Type 0
  pub compile : Bytes → Option Regex
  pub is_match : Regex → Bytes → Bool
  pub captures : Regex → Bytes → Option Captures
  pub expand : Captures → Bytes → Bytes
  pub digest : Bytes → Bytes
  pub to_lowercase : Bytes → Bytes
  pub to_uppercase : Bytes → Bytes

pub data Action : Type 0 where
  replace keep drop_matching keep_equal drop_equal hash_mod label_map : Action
  label_drop label_keep lowercase uppercase : Action

pub data PatternKind : Type 0 where
  literal : PatternKind
  literal_prefix : Bytes → PatternKind
  general : PatternKind

pub record AnchoredRegex (Regex : Type 0) : Type 0 where
  pub source : Bytes
  pub regex : Regex
  pub kind : PatternKind

pub record RelabelConfig (Regex : Type 0) : Type 0 where
  pub source_labels : List Bytes
  pub separator : Bytes
  pub target_label : Bytes
  pub regex : AnchoredRegex Regex
  pub modulus : ℕ
  pub replacement : Bytes
  pub action : Action

-- `REGEX_META`
abbrev pub regex_meta : Bytes
regex_meta = text ".^$*+?()[]{}|\\"

unfoldable pub has_meta : Bytes → Bool
unfolding any contains
has_meta = any (λ c. contains c regex_meta)

unfoldable pub classify : Bytes → PatternKind
unfolding strip_suffix
classify pattern =
    if not (has_meta pattern) then literal else elim (strip_suffix (text ".*") pattern) [
      | some prefix ↦ if not (has_meta prefix) then literal_prefix prefix else general
      | none ↦ general
    ]

-- `^(?:pattern)$`
abbrev pub anchored : Bytes → Bytes
anchored pattern = text "^(?:" ++ (pattern ++ text ")$")

-- `is_valid_label_name`: `[a-zA-Z_][a-zA-Z0-9_]*`; no byte of a longer character is in the ranges.
unfoldable pub is_valid_label_name : Bytes → Bool
unfolding all
is_valid_label_name [] = false
is_valid_label_name (c ∷ cs) =
    (c == b'_' || is_ascii_alphabetic c) && all (λ c. c == b'_' || is_ascii_alphanumeric c) cs

pub record LabelSet : Type 0 where
  pub labels : List Label

unfoldable pub get : LabelSet → Bytes → Bytes
get set name = value_or_empty (find_named name set.labels)

unfoldable pub set_value : LabelSet → Bytes → Bytes → LabelSet
set_value set name value =
    if has_name name set.labels
    then record { labels = assign_named name value set.labels }
    else record { labels = set.labels ++ (record { name = name; value = value }) ∷ [] }

unfoldable pub remove : LabelSet → Bytes → LabelSet
remove set name = record { labels = retain (λ l. not (beq l.name name)) set.labels }

-- `join`: a separator in front of every value but the first. Its buffer is cleared at each call.
pub join_rest : LabelSet → List Bytes → Bytes → Bytes
join_rest set [] separator = []
join_rest set (name ∷ names) separator =
    separator ++ (get set name ++ join_rest set names separator)

unfoldable pub join : LabelSet → List Bytes → Bytes → Bytes
unfolding join_rest
join set [] separator = []
join set (name ∷ names) separator = get set name ++ join_rest set names separator

pub from_be_bytes : ℕ → Bytes → ℕ
from_be_bytes acc [] = acc
from_be_bytes acc (c ∷ cs) = from_be_bytes (acc * 256 + c) cs

-- A fast path that is not taken gives `none`, so that the next one is tried.
unfoldable pub set_or_remove : LabelSet → Bytes → Bytes → LabelSet
set_or_remove set target value =
    if not (is_valid_label_name target)
    then set
    else if is_empty value
    then remove set target
    else set_value set target value

-- The value that the first fast path of `replace` writes: a copy, a constant, or none.
abbrev pub copied_value : Bytes → Bytes → Option Bytes
copied_value replacement joined =
    if beq replacement (text "$1") || beq replacement (text "${1}")
    then some joined
    else if not (contains b'$' replacement)
    then some replacement
    else none

abbrev pub is_literal : PatternKind → Bool
is_literal literal = true
is_literal (literal_prefix _) = false
is_literal general = false

module _ (e : Engine) where
  open e use {Regex, compile, is_match, captures, expand, digest, to_lowercase, to_uppercase}

  -- `AnchoredRegex::new`
  unfoldable pub new_regex : Bytes → Option (AnchoredRegex Regex)
  new_regex pattern =
      Option.map (λ regex. record { source = pattern; regex = regex; kind = classify pattern })
        (compile (anchored pattern))

  abbrev pub matches_kind : PatternKind → AnchoredRegex Regex → Bytes → Bool
  matches_kind literal re value = beq value re.source
  matches_kind (literal_prefix prefix) re value = elim (strip_prefix prefix value) [
    | some rest ↦ not (contains b'\n' rest)
    | none ↦ false
  ]
  matches_kind general re value = is_match re.regex value

  unfoldable pub matches : AnchoredRegex Regex → Bytes → Bool
  matches re = matches_kind re.kind re

  unfoldable pub hash_mod_of : Bytes → ℕ → ℕ
  unfolding from_be_bytes
  hash_mod_of val modulus = from_be_bytes 0 (take 8 (drop 8 (digest val))) % modulus

  -- The path through the engine.
  unfoldable pub replace_general : LabelSet → RelabelConfig Regex → Bytes → LabelSet
  replace_general set config joined = elim (captures config.regex.regex joined) [
    | none ↦ set
    | some caps ↦
        set_or_remove set (expand caps config.target_label) (expand caps config.replacement)
  ]

  -- The second fast path, and the path through the engine behind it.
  unfoldable pub replace_literal : LabelSet → RelabelConfig Regex → Bytes → LabelSet
  unfolding replace_general
  replace_literal set config joined =
      if is_literal config.regex.kind
        && not (contains b'$' config.target_label)
        && not (contains b'$' config.replacement)
      then (if not (beq joined config.regex.source)
          then set
          else set_or_remove set config.target_label config.replacement)
      else replace_general set config joined

  unfoldable pub apply_replace : LabelSet → RelabelConfig Regex → LabelSet
  apply_replace set config =
      let joined = join set config.source_labels config.separator in
      if beq config.regex.source (text "(.*)") && not (contains b'$' config.target_label)
      then (if contains b'\n' joined then set else elim (copied_value config.replacement joined) [
        | some value ↦ set_or_remove set config.target_label value
        | none ↦ replace_literal set config joined
      ])
      else replace_literal set config joined

  -- `labelmap` collects the renamed labels first, then writes them.
  unfoldable pub label_map_updates : Regex → Bytes → List Label → List Label
  label_map_updates re replacement [] = []
  label_map_updates re replacement (l ∷ ls) =
      let rest = label_map_updates re replacement ls in
      elim (captures re l.name) [
        | none ↦ rest
        | some caps ↦ (record { name = expand caps replacement; value = l.value }) ∷ rest
      ]

  pub set_all : LabelSet → List Label → LabelSet
  set_all set [] = set
  set_all set (u ∷ updates) = set_all (set_value set u.name u.value) updates

  -- `apply`: the new set, and whether the series is kept.
  unfoldable pub apply_action : Action → LabelSet → RelabelConfig Regex → LabelSet × Bool
  apply_action replace set config = (apply_replace set config, true)
  apply_action keep set config =
      (set, matches config.regex (join set config.source_labels config.separator))
  apply_action drop_matching set config =
      (set, not (matches config.regex (join set config.source_labels config.separator)))
  apply_action keep_equal set config =
      (set, beq (join set config.source_labels config.separator) (get set config.target_label))
  apply_action drop_equal set config = (
    set,
    not (beq (join set config.source_labels config.separator) (get set config.target_label)),
  )
  apply_action hash_mod set config =
      let joined = join set config.source_labels config.separator in
      (set_value set config.target_label (decimal (hash_mod_of joined config.modulus)), true)
  apply_action label_map set config =
      (set_all set (label_map_updates config.regex.regex config.replacement set.labels), true)
  apply_action label_drop set config =
      (record { labels = retain (λ l. not (matches config.regex l.name)) set.labels }, true)
  apply_action label_keep set config =
      (record { labels = retain (λ l. matches config.regex l.name) set.labels }, true)
  apply_action lowercase set config =
      let joined = join set config.source_labels config.separator in
      (set_value set config.target_label (to_lowercase joined), true)
  apply_action uppercase set config =
      let joined = join set config.source_labels config.separator in
      (set_value set config.target_label (to_uppercase joined), true)

  unfoldable pub apply : LabelSet → RelabelConfig Regex → LabelSet × Bool
  apply set config = apply_action config.action set config

  -- The loop of `process`: it stops at the first rule that drops the series.
  unfoldable pub apply_all : LabelSet → List (RelabelConfig Regex) → Option LabelSet
  apply_all set [] = some set
  apply_all set (config ∷ configs) =
      let (next, kept) = apply set config in
      let rest = apply_all next configs in if kept then rest else none

  unfoldable pub process : List Label → List (RelabelConfig Regex) → Option (List Label)
  process labels configs =
      Option.map (λ set. retain (λ l. not (is_empty l.value)) set.labels)
        (apply_all (record { labels = labels }) configs)
