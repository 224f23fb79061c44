-- ===== src/Scrape.antt =====
-- The label pipeline of src/scrape.rs: target labels, metric relabelling, external labels, order.
pub mod Merge
pub mod Finalize
pub mod Content
pub mod Once
use mathlib.Core.Option
use prometheus_scrape_rs.Base.{
  ℕ, Bool, true, false, List, [], ◌∷◌, ◌++◌, Option, none, some, Bytes, if◌then◌else◌, text, retain,
  beq,
}
use prometheus_scrape_rs.Model.{Label}
use prometheus_scrape_rs.Model.Sort.{sort_labels}
use prometheus_scrape_rs.Labels.{
  has_name, find_named, value_or_empty, assign_named, get_label, set_label, add_if_absent,
}
use prometheus_scrape_rs.Relabel.{Engine, RelabelConfig, process}

-- `EXPORTED_LABEL_PREFIX` in front of a name.
abbrev pub exported : Bytes → Bytes
exported name = text "exported_" ++ name

-- The conflict of one target label: its value goes in, the scraped value moves on.
unfoldable pub merge_conflict : List Label → Label → List Label
merge_conflict labels t =
    set_label (assign_named t.name t.value labels) (exported t.name) (get_label labels t.name)

-- The loop of `merge_target_labels`.
unfoldable pub merge_target_labels : List Label → List Label → Bool → List Label
unfolding merge_conflict
merge_target_labels labels [] honor_labels = labels
merge_target_labels labels (t ∷ target_labels) honor_labels =
    merge_target_labels
      (if honor_labels
        then add_if_absent labels t.name t.value
        else if has_name t.name labels
        then merge_conflict labels t
        else labels ++ t ∷ [])
      target_labels honor_labels

-- `for external in target.external_labels.iter()`
unfoldable pub add_all_if_absent : List Label → List Label → List Label
add_all_if_absent labels [] = labels
add_all_if_absent labels (x ∷ external) =
    add_all_if_absent (add_if_absent labels x.name x.value) external

-- The fields of `Target` that the label pipeline reads.
pub record TargetLabels (Regex : Type 0) : Type 0 where
  pub labels : List Label
  pub honor_labels : Bool
  pub metric_relabel_configs : List (RelabelConfig Regex)
  pub external_labels : List Label

unfoldable pub finalize_series_labels :
    (e : Engine) → List Label → TargetLabels e.Regex → Option (List Label)
finalize_series_labels e raw target =
    Option.map (λ labels. sort_labels (add_all_if_absent labels target.external_labels))
      (process e (merge_target_labels raw target.labels target.honor_labels)
        target.metric_relabel_configs)
