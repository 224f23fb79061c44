-- ===== src/Scrape/Finalize.antt =====
-- `finalize_series_labels` of src/scrape.rs: the labels that are sent.
use prometheus_scrape_rs.Base.{
  Bool, true, false, ◌||◌, List, [], ◌∷◌, Bytes, if◌then◌else◌, beq, beq_iff, some, map-eq-some,
  ◌≡◌, refl, ◌∙◌, arith, Bool-cases, inl, inr,
}
use prometheus_scrape_rs.Model.{Label}
use prometheus_scrape_rs.Model.Sort.{before, insert_label, sort_labels}
use prometheus_scrape_rs.Model.SortLaws.{IsSorted, sort_labels-IsSorted}
use prometheus_scrape_rs.Labels.{has_name, get_label, add_if_absent, IsDistinct}
use prometheus_scrape_rs.Labels.Laws.{
  set_label-IsDistinct, assign_named-IsDistinct, add_if_absent-IsDistinct, push-IsDistinct,
  has_name-add_if_absent, get_label-add_if_absent, get_label-cons, get_label-absent,
}
use prometheus_scrape_rs.Relabel.{Engine, process}
use prometheus_scrape_rs.Relabel.Rules.{process-IsDistinct}
use prometheus_scrape_rs.Scrape.{
  exported, merge_conflict, merge_target_labels, add_all_if_absent, TargetLabels,
  finalize_series_labels,
}

merge_target_labels-IsDistinct :
    (target_labels labels : List Label) (honor : Bool)
    → IsDistinct labels
    → IsDistinct (merge_target_labels labels target_labels honor)
unfolding merge_target_labels merge_conflict
merge_target_labels-IsDistinct [] labels honor d = d
merge_target_labels-IsDistinct (t ∷ ts) labels true d =
    merge_target_labels-IsDistinct ts _ true (add_if_absent-IsDistinct labels t.name t.value d)
merge_target_labels-IsDistinct (t ∷ ts) labels false d =
    elim (Bool-cases (has_name t.name labels)) [
      | inl h ↦ rw h (
          merge_target_labels-IsDistinct ts _ false (
            set_label-IsDistinct _ (exported t.name) _
              (assign_named-IsDistinct t.name t.value labels d)))
      | inr h ↦ rw h (merge_target_labels-IsDistinct ts _ false (push-IsDistinct labels t d h))
    ]

pub add_all_if_absent-IsDistinct :
    (external labels : List Label)
    → IsDistinct labels
    → IsDistinct (add_all_if_absent labels external)
unfolding add_all_if_absent
add_all_if_absent-IsDistinct [] labels d = d
add_all_if_absent-IsDistinct (x ∷ external) labels d =
    add_all_if_absent-IsDistinct external _ (add_if_absent-IsDistinct labels x.name x.value d)

-- Sorting keeps every name, its value and the distinctness.
has_name-insert_label :
    (key : Bytes) (l : Label) (ls : List Label)
    → has_name key (insert_label l ls) ≡ (beq l.name key || has_name key ls)
unfolding has_name insert_label
has_name-insert_label key l [] = refl
has_name-insert_label key l (m ∷ ms) = ground (arith, has_name-insert_label key l ms)

insert_label-IsDistinct :
    (l : Label) (ls : List Label)
    → IsDistinct ls
    → has_name l.name ls ≡ false
    → IsDistinct (insert_label l ls)
unfolding insert_label has_name
insert_label-IsDistinct l [] d h = (refl, tt)
insert_label-IsDistinct l (m ∷ ms) (k, d) h = elim (Bool-cases (before m.name l.name)) [
  | inl e ↦ rw e (
    ground (arith, has_name-insert_label m.name l ms, beq_iff l.name m.name, beq_iff m.name l.name),
    insert_label-IsDistinct l ms d (ground arith),
  )
  | inr e ↦ rw e (h, (k, d))
]

pub has_name-sort_labels :
    (key : Bytes) (ls : List Label) → has_name key (sort_labels ls) ≡ has_name key ls
unfolding has_name sort_labels
has_name-sort_labels key [] = refl
has_name-sort_labels key (l ∷ ls) =
    ground (arith, has_name-insert_label key l (sort_labels ls), has_name-sort_labels key ls)

pub sort_labels-IsDistinct : (ls : List Label) → IsDistinct ls → IsDistinct (sort_labels ls)
unfolding sort_labels
sort_labels-IsDistinct [] d = tt
sort_labels-IsDistinct (l ∷ ls) (h, d) =
    insert_label-IsDistinct l (sort_labels ls) (sort_labels-IsDistinct ls d)
      (has_name-sort_labels l.name ls ∙ h)

get_label-insert_label :
    (key : Bytes) (l : Label) (ls : List Label)
    → has_name l.name ls ≡ false
    → get_label (insert_label l ls) key ≡ get_label (l ∷ ls) key
unfolding insert_label has_name
get_label-insert_label key l [] h = refl
get_label-insert_label key l (m ∷ ms) h = ground (
  arith,
  get_label-insert_label key l ms,
  get_label-cons l (m ∷ ms) key,
  get_label-cons m ms key,
  get_label-cons l ms key,
  get_label-cons m (insert_label l ms) key,
  beq_iff l.name key,
  beq_iff m.name key,
  beq_iff m.name l.name,
)

pub get_label-sort_labels :
    (key : Bytes) (ls : List Label)
    → IsDistinct ls
    → get_label (sort_labels ls) key ≡ get_label ls key
unfolding sort_labels
get_label-sort_labels key [] d = refl
get_label-sort_labels key (l ∷ ls) (h, d) = ground (
  arith,
  get_label-insert_label key l (sort_labels ls) (has_name-sort_labels l.name ls ∙ h),
  get_label-cons l ls key,
  get_label-cons l (sort_labels ls) key,
  get_label-sort_labels key ls d,
)

-- The external labels fill what is missing, the first of a name.
add_all_if_absent-get :
    (external labels : List Label) (key : Bytes)
    → get_label (add_all_if_absent labels external) key
      ≡ (if has_name key labels then get_label labels key else get_label external key)
unfolding add_all_if_absent
add_all_if_absent-get [] labels key =
    ground (arith, get_label-absent key labels, get_label-absent key [] (unfold has_name in refl))
add_all_if_absent-get (x ∷ external) labels key = ground (
  arith,
  add_all_if_absent-get external (add_if_absent labels x.name x.value) key,
  has_name-add_if_absent labels x.name key x.value,
  get_label-add_if_absent labels x.name key x.value,
  get_label-cons x external key,
  get_label-absent key labels,
  beq_iff x.name key,
)

pub has_name-add_all_if_absent :
    (external labels : List Label) (key : Bytes)
    → has_name key labels ≡ false
    → has_name key external ≡ false
    → has_name key (add_all_if_absent labels external) ≡ false
unfolding add_all_if_absent has_name
has_name-add_all_if_absent [] labels key h hx = h
has_name-add_all_if_absent (x ∷ external) labels key h hx =
    has_name-add_all_if_absent external (add_if_absent labels x.name x.value) key
      (ground (arith, has_name-add_if_absent labels x.name key x.value, h, hx)) (ground (arith, hx))

-- What the remote-write side requires of a label set: names in strictly ascending order.
abbrev pub IsStrict : List Label → Type 0
IsStrict ls = IsSorted ls × IsDistinct ls

module _ (e : Engine) where
  -- A scraped series with distinct label names that is not dropped is sent with its labels in
  -- strictly ascending order of their names.
  pub finalize-IsStrict :
      (raw : List Label) (target : TargetLabels e.Regex) {out : List Label}
      → IsDistinct raw
      → finalize_series_labels e raw target ≡ some out
      → IsStrict out
  unfolding finalize_series_labels
  finalize-IsStrict raw target d h =
      let merged = merge_target_labels raw target.labels target.honor_labels in
      let (kept, p, same) = map-eq-some _ (process e merged target.metric_relabel_configs) h in
      let (distinct, _) =
        process-IsDistinct e merged target.metric_relabel_configs
          (merge_target_labels-IsDistinct target.labels raw target.honor_labels d) p in
      rw (← same) (
        sort_labels-IsSorted _,
        sort_labels-IsDistinct _
            (add_all_if_absent-IsDistinct target.external_labels kept distinct),
      )

  -- A scraped series with distinct label names that is not dropped reads, under every name, as metric
  -- relabelling of the merged labels leaves it, and under a name that this leaves free as the
  -- external labels.
  pub finalize-get_label :
      (raw : List Label) (target : TargetLabels e.Regex) {out : List Label} (key : Bytes)
      → IsDistinct raw
      → finalize_series_labels e raw target ≡ some out
      → (kept : List Label) × (process e
            (merge_target_labels raw target.labels target.honor_labels)
            target.metric_relabel_configs
          ≡ some kept)
        × (get_label out key ≡ (
            if has_name key kept then get_label kept key else get_label target.external_labels key))
  unfolding finalize_series_labels
  finalize-get_label raw target key d h =
      let merged = merge_target_labels raw target.labels target.honor_labels in
      let (kept, p, same) = map-eq-some _ (process e merged target.metric_relabel_configs) h in
      let (distinct, _) =
        process-IsDistinct e merged target.metric_relabel_configs
          (merge_target_labels-IsDistinct target.labels raw target.honor_labels d) p in
      (
        kept,
        p,
        rw (← same) (
            get_label-sort_labels key _
              (add_all_if_absent-IsDistinct target.external_labels kept distinct)
            ∙ add_all_if_absent-get target.external_labels kept key),
      )
