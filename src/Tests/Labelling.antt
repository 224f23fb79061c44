-- ===== src/Tests/Labelling.antt =====
-- Tests for src/relabel.rs, the label functions of src/scrape.rs, and the sort of src/model.rs.
use mathlib.Core.Logic.{◌≢◌}
use prometheus_scrape_rs.Base.{
  ◌<◌, true, false, ◌&&◌, List, [], ◌∷◌, none, some, Bytes, beq, if◌then◌else◌, text, contains, All,
  any, retain, decimal, strip_prefix, strip_suffix, ◌≡◌, ◌↔◌, refl, arith,
}
use prometheus_scrape_rs.Model.{Label}
use prometheus_scrape_rs.Model.Sort.{sort_labels, insert_label, before}
use prometheus_scrape_rs.Model.SortLaws.{IsSorted, sort_labels-IsSorted}
use prometheus_scrape_rs.Labels.{
  has_name, find_named, get_label, set_label, add_if_absent, assign_named, IsDistinct,
}
use prometheus_scrape_rs.Labels.Laws.{get_label-set_label}
use prometheus_scrape_rs.Relabel.{
  Action, replace, hash_mod, label_keep, label_drop, AnchoredRegex, RelabelConfig, classify,
  new_regex, matches, get, join, apply_action, apply_replace, replace_general, process, apply_all,
  is_valid_label_name, hash_mod_of, literal_prefix, general, has_meta,
}
use prometheus_scrape_rs.Relabel.Matching.{matches-is_match, char, any_run, is_syntax}
use prometheus_scrape_rs.Relabel.Replace.{apply_replace-general}
use prometheus_scrape_rs.Relabel.Rules.{process-IsDistinct}
use prometheus_scrape_rs.Relabel.Drops.{Drops, process-none}
use prometheus_scrape_rs.Relabel.{apply}
use prometheus_scrape_rs.Relabel.Validate.{validate, validate_action, validate-hash_mod}
use prometheus_scrape_rs.Relabel.Effect.{
  lookup, written, lookup-apply_replace, get-hash_mod, read_decimal, AreSplit,
  label_keep-label_drop,
}
use prometheus_scrape_rs.Scrape.{
  merge_conflict, add_all_if_absent, merge_target_labels, TargetLabels, finalize_series_labels,
}
use prometheus_scrape_rs.Scrape.Merge.{moved_or, HasNoClash, merge_honored, merge_exported}
use prometheus_scrape_rs.Scrape.Finalize.{IsStrict, finalize-IsStrict, finalize-get_label}
use prometheus_scrape_rs.Tests.Engines.{
  inner, parse_items, compile_inner, Pattern, whole, seq, small_engine, small_engine-IsEngine,
}

abbrev label : Bytes → Bytes → Label
label name value = record { name = name; value = value }

-- A scraped series, and the labels of a target whose `job` conflicts with it.
abbrev scraped : List Label
scraped = label (text "up") (text "1") ∷ label (text "job") (text "a") ∷ []

abbrev target_labels : List Label
target_labels = label (text "job") (text "b") ∷ label (text "zone") (text "z") ∷ []

scraped-IsDistinct : IsDistinct scraped
unfolding has_name beq
scraped-IsDistinct = (refl, (refl, tt))

target_labels-IsDistinct : IsDistinct target_labels
unfolding has_name beq
target_labels-IsDistinct = (refl, (refl, tt))

target_labels-HasNoClash : HasNoClash target_labels
unfolding has_name beq
target_labels-HasNoClash = (refl, (refl, tt))

merge_exported_example :
    get_label (merge_target_labels scraped target_labels false) (text "exported_job") ≡ (
      if has_name (text "exported_job") target_labels
      then get_label target_labels (text "exported_job")
      else moved_or
          (get_label scraped (text "exported_job"))
          scraped
          target_labels
          (text "exported_job"))
merge_exported_example =
    merge_exported target_labels scraped (text "exported_job") target_labels-IsDistinct
      target_labels-HasNoClash

merge_honored_example : get_label (merge_target_labels scraped target_labels true) (text "job") ≡ (
    if has_name (text "job") scraped
    then get_label scraped (text "job")
    else get_label target_labels (text "job"))
merge_honored_example = merge_honored target_labels scraped (text "job")

-- The conflict moves the scraped job, and without the side condition a target label is lost: one
-- that is `exported_job` itself reads as the scraped job afterwards.
merged_labels :
    merge_target_labels scraped target_labels false
    ≡ label (text "up") (text "1")
      ∷ label (text "job") (text "b")
      ∷ label (text "exported_job") (text "a")
      ∷ label (text "zone") (text "z")
      ∷ []
unfolding merge_target_labels merge_conflict set_label has_name assign_named get_label find_named
    beq
merged_labels = refl

clash :
    get_label
      (merge_target_labels scraped
        (label (text "exported_job") (text "mine") ∷ label (text "job") (text "b") ∷ [])
        false)
      (text "exported_job")
    ≡ text "a"
unfolding merge_target_labels merge_conflict set_label has_name assign_named get_label find_named
    beq
clash = refl

set_label_example :
    get_label (set_label scraped (text "job") (text "c")) (text "job")
    ≡ (if beq (text "job") (text "job") then text "c" else get_label scraped (text "job"))
set_label_example = get_label-set_label scraped (text "job") (text "job") (text "c")

sort_labels-IsSorted_example : IsSorted (sort_labels scraped)
sort_labels-IsSorted_example = sort_labels-IsSorted scraped

abbrev rule : List Bytes → AnchoredRegex Pattern → Bytes → Action → RelabelConfig Pattern
rule sources regex target action = record {
  source_labels = sources;
  separator = text ";";
  target_label = target;
  regex = regex;
  modulus = 4;
  replacement = text "$1";
  action = action;
}

abbrev default_regex : AnchoredRegex Pattern
default_regex = record { source = text "(.*)"; regex = whole; kind = general }

abbrev node_items : Pattern
node_items = seq (char b'n' ∷ char b'o' ∷ char b'd' ∷ char b'e' ∷ any_run ∷ [])

abbrev node_regex : AnchoredRegex Pattern
node_regex = record {
  source = text "node.*";
  regex = node_items;
  kind = literal_prefix (text "node");
}

default_regex-new_regex : new_regex small_engine (text "(.*)") ≡ some default_regex
unfolding new_regex compile_inner inner parse_items is_syntax classify beq has_meta strip_suffix any
    contains strip_prefix
default_regex-new_regex = refl

node_regex-new_regex : new_regex small_engine (text "node.*") ≡ some node_regex
unfolding new_regex compile_inner inner parse_items is_syntax classify beq has_meta strip_suffix any
    contains strip_prefix
node_regex-new_regex = refl

matches-is_match_example :
    matches small_engine node_regex (text "node_load")
    ≡ small_engine.is_match node_items (text "node_load")
matches-is_match_example =
    matches-is_match small_engine small_engine-IsEngine (text "node.*") (text "node_load")
      node_regex node_regex-new_regex

-- The address of the target goes to `instance`.
abbrev copy_rule : RelabelConfig Pattern
copy_rule = rule (text "job" ∷ []) default_regex (text "instance") replace

apply_replace-general_example :
    apply_replace small_engine (record { labels = scraped }) copy_rule
    ≡ replace_general small_engine
        (record { labels = scraped })
        copy_rule
        (join (record { labels = scraped }) (text "job" ∷ []) (text ";"))
apply_replace-general_example =
    apply_replace-general small_engine small_engine-IsEngine (record { labels = scraped }) copy_rule
      (text "(.*)") default_regex-new_regex

lookup-apply_replace_example :
    lookup (apply_replace small_engine (record { labels = scraped }) copy_rule) (text "instance")
    ≡ elim (small_engine.captures whole
        (join (record { labels = scraped }) (text "job" ∷ []) (text ";"))) [
          | none ↦ lookup (record { labels = scraped }) (text "instance")
          | some caps ↦
              if is_valid_label_name (small_engine.expand caps (text "instance"))
                && beq (small_engine.expand caps (text "instance")) (text "instance")
              then written (small_engine.expand caps (text "$1"))
              else lookup (record { labels = scraped }) (text "instance")
        ]
lookup-apply_replace_example =
    lookup-apply_replace small_engine small_engine-IsEngine (record { labels = scraped }) copy_rule
      (text "(.*)") (text "instance") default_regex-new_regex

abbrev hash_rule : RelabelConfig Pattern
hash_rule = rule (text "job" ∷ []) default_regex (text "shard") hash_mod

get-hash_mod_example :
    (get
        (apply_action small_engine hash_mod (record { labels = scraped }) hash_rule).0
        (text "shard")
      ≡ (if beq (text "shard") (text "shard")
          then decimal (
              hash_mod_of small_engine
                (join (record { labels = scraped }) (text "job" ∷ []) (text ";"))
                4)
          else get (record { labels = scraped }) (text "shard")))
    × (read_decimal 0 (
          get
            (apply_action small_engine hash_mod (record { labels = scraped }) hash_rule).0
            (text "shard"))
        < 4)
get-hash_mod_example =
    get-hash_mod small_engine (record { labels = scraped }) hash_rule (text "shard") (omega arith)
      (omega arith)

abbrev node_rule : RelabelConfig Pattern
node_rule = rule [] node_regex [] label_keep

label_keep-label_drop_example :
    AreSplit small_engine node_rule scraped
      (apply_action small_engine label_keep (record { labels = scraped }) node_rule).0.labels
      (apply_action small_engine label_drop (record { labels = scraped }) node_rule).0.labels
    × ((apply_action small_engine label_keep (record { labels = scraped }) node_rule).1 ≡ true)
    × ((apply_action small_engine label_drop (record { labels = scraped }) node_rule).1 ≡ true)
label_keep-label_drop_example =
    label_keep-label_drop small_engine (record { labels = scraped }) node_rule

process-nil : process small_engine scraped [] ≡ some scraped
unfolding process apply_all retain
process-nil = refl

process-IsDistinct_example : IsDistinct scraped × All (λ l. l.value ≢ []) scraped
process-IsDistinct_example =
    process-IsDistinct small_engine scraped [] scraped-IsDistinct process-nil

process-none_example :
    (process small_engine scraped (copy_rule ∷ []) ≡ none)
    ↔ Drops small_engine (record { labels = scraped }) (copy_rule ∷ [])
process-none_example = process-none small_engine scraped (copy_rule ∷ [])

abbrev target : TargetLabels Pattern
target = record {
  labels = target_labels;
  honor_labels = true;
  metric_relabel_configs = [];
  external_labels = label (text "dc") (text "1") ∷ [];
}

abbrev sent : List Label
sent =
    label (text "dc") (text "1")
    ∷ label (text "job") (text "a")
    ∷ label (text "up") (text "1")
    ∷ label (text "zone") (text "z")
    ∷ []

target-finalize : finalize_series_labels small_engine scraped target ≡ some sent
unfolding finalize_series_labels process apply_all retain merge_target_labels add_all_if_absent
    add_if_absent has_name sort_labels insert_label before beq
target-finalize = refl

finalize-IsStrict_example : IsStrict sent
finalize-IsStrict_example =
    finalize-IsStrict small_engine scraped target scraped-IsDistinct target-finalize

finalize-get_label_example :
    (kept : List Label) × (process small_engine (merge_target_labels scraped target_labels true) []
      ≡ some kept)
    × (get_label sent (text "dc") ≡ (
        if has_name (text "dc") kept
        then get_label kept (text "dc")
        else get_label target.external_labels (text "dc")))
finalize-get_label_example =
    finalize-get_label small_engine scraped target (text "dc") scraped-IsDistinct target-finalize

hash_rule-validate : validate hash_rule ≡ none
unfolding validate_action
hash_rule-validate = refl

validate-hash_mod_example :
    ((apply small_engine (record { labels = scraped }) hash_rule).1 ≡ true)
    × (read_decimal 0
          (get (apply small_engine (record { labels = scraped }) hash_rule).0 (text "shard"))
        < 4)
validate-hash_mod_example =
    validate-hash_mod small_engine (record { labels = scraped }) hash_rule refl hash_rule-validate
      (omega arith)
