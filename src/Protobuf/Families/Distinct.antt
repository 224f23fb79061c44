-- ===== src/Protobuf/Families/Distinct.antt =====
-- The labels of the series that `parse` of src/protobuf.rs gives.
use prometheus_scrape_rs.Base.{
  ℕ, ◌+◌, ◌≤◌, Bool, true, false, not, ◌||◌, List, [], ◌∷◌, ◌++◌, Option, none, some, Bytes, beq,
  beq_iff, beq_refl, ltb, leb, any, length, length-append, Bool-cases, arith, ◌≡◌, refl, ap, ◌∙◌,
  inl, inr,
}
use prometheus_scrape_rs.Base.Result.{
  ok, refuse, Ensures, Anything, bind-Ensures, if-Ensures, refuse-Ensures, map-Ensures,
}
use prometheus_scrape_rs.Model.{Label, metric_name_label}
use prometheus_scrape_rs.Labels.{has_name, IsDistinct}
use prometheus_scrape_rs.Labels.Laws.{push-IsDistinct, has_name-push}
use prometheus_scrape_rs.Parser.{is_valid_name, max_labels_per_series}
use prometheus_scrape_rs.Protobuf.{LabelPair, or_empty, invalid_label_name}
use prometheus_scrape_rs.Protobuf.Native.Limits.{IsReported}
use prometheus_scrape_rs.Protobuf.Series.{SeriesBuilder, suffixed, builder_labels}
use prometheus_scrape_rs.Protobuf.Families.{
  pair_labels, scan_duplicates, insert_names, check_duplicates, base_labels,
}

-- No label of the list has one of the names that stand before it, and its names are distinct.
abbrev IsFresh : (Bytes → Bool) → List Label → Type 0
IsFresh seen ls = IsDistinct ls × ((n : Bytes) → seen n ≡ true → has_name n ls ≡ false)

IsFresh-cons :
    (seen : Bytes → Bool) (l : Label) (ls : List Label)
    → seen l.name ≡ false
    → IsFresh (λ n. seen n || beq l.name n) ls
    → IsFresh seen (l ∷ ls)
unfolding has_name
IsFresh-cons seen l ls new (distinct, apart) = (
  (apart l.name (ground (arith, beq_refl l.name)), distinct),
  λ n h. ground (arith, beq_iff l.name n, apart n (ground arith)),
)

scan_duplicates-IsFresh :
    (before ls : List Label)
    → Ensures IsReported (λ _. IsFresh (λ n. has_name n before) ls) (scan_duplicates before ls)
unfolding scan_duplicates has_name
scan_duplicates-IsFresh before [] = (tt, λ n h. refl)
scan_duplicates-IsFresh before (l ∷ ls) = elim (Bool-cases (has_name l.name before)) [
  | inl old ↦ rw old refl
  | inr new ↦ rw new (
      map-Ensures IsReported (λ _. IsFresh (λ n. has_name n (before ++ l ∷ [])) ls)
        (λ _. IsFresh (λ n. has_name n before) (l ∷ ls)) (scan_duplicates (before ++ l ∷ []) ls)
        (λ _ (distinct, apart).
          IsFresh-cons (λ n. has_name n before) l ls new
            (distinct, λ n h. apart n (has_name-push before l n ∙ h)))
        (scan_duplicates-IsFresh (before ++ l ∷ []) ls))
]

insert_names-IsFresh :
    (seen : List Bytes) (ls : List Label)
    → Ensures IsReported (λ _. IsFresh (λ n. any (λ m. beq m n) seen) ls) (insert_names seen ls)
unfolding insert_names any has_name
insert_names-IsFresh seen [] = (tt, λ n h. refl)
insert_names-IsFresh seen (l ∷ ls) = elim (Bool-cases (any (λ n. beq n l.name) seen)) [
  | inl old ↦ rw old refl
  | inr new ↦ rw new (
      map-Ensures IsReported (λ _. IsFresh (λ n. any (λ m. beq m n) (l.name ∷ seen)) ls)
        (λ _. IsFresh (λ n. any (λ m. beq m n) seen) (l ∷ ls)) (insert_names (l.name ∷ seen) ls)
        (λ _ (distinct, apart).
          IsFresh-cons (λ n. any (λ m. beq m n) seen) l ls new
            (distinct, λ n h. apart n (ground (arith, h))))
        (insert_names-IsFresh (l.name ∷ seen) ls))
]

check_duplicates-IsDistinct :
    (labels : List Label) → Ensures IsReported (λ _. IsDistinct labels) (check_duplicates labels)
unfolding check_duplicates has_name any
check_duplicates-IsDistinct labels =
    if-Ensures IsReported (λ _. IsDistinct labels) (leb (length labels) 32)
      (scan_duplicates [] labels) (insert_names [] labels)
      (map-Ensures IsReported (λ _. IsFresh (λ n. has_name n []) labels) (λ _. IsDistinct labels)
        (scan_duplicates [] labels) (λ _ h. h.0) (scan_duplicates-IsFresh [] labels))
      (map-Ensures IsReported (λ _. IsFresh (λ n. any (λ m. beq m n) []) labels)
        (λ _. IsDistinct labels) (insert_names [] labels) (λ _ h. h.0)
        (insert_names-IsFresh [] labels))

-- Distinct names, first `__name__`, and at most one label more than the text format's limit: the
-- derived `le` or `quantile`.
pub record IsExposed (bound : ℕ) (labels : List Label) : Type 0 where
  pub distinct : IsDistinct labels
  pub within : length labels ≤ bound
  pub metric : Bytes
  pub others : List Label
  pub front : labels ≡ (record { name = metric_name_label; value = metric }) ∷ others

pair_labels-length :
    (pairs : List LabelPair)
    → Ensures IsReported (λ ls. length ls ≡ length pairs) (pair_labels pairs)
unfolding pair_labels
pair_labels-length [] = refl
pair_labels-length (p ∷ ps) =
    bind-Ensures IsReported Anything _
      (refuse (not (is_valid_name (or_empty p.name) false)) (invalid_label_name (or_empty p.name)))
      _ (refuse-Ensures IsReported (not (is_valid_name (or_empty p.name) false)) _ refl)
      (λ _ _.
        bind-Ensures IsReported (λ ls. length ls ≡ length ps) _ (pair_labels ps) _
          (pair_labels-length ps) (λ ls same. omega (arith, same)))

pub base_labels-IsExposed :
    (name : Bytes) (pairs : List LabelPair)
    → Ensures IsReported (IsExposed 128) (base_labels name pairs)
unfolding base_labels
base_labels-IsExposed name pairs =
    elim (Bool-cases (ltb max_labels_per_series (length pairs + 1))) [
      | inl above ↦ rw above refl
      | inr fits ↦ rw fits (
          bind-Ensures IsReported (λ ls. length ls ≡ length pairs) (IsExposed 128)
            (pair_labels pairs) _ (pair_labels-length pairs)
            (λ ls same.
              let labels = (record { name = metric_name_label; value = name }) ∷ ls in
              bind-Ensures IsReported (λ _. IsDistinct labels) (IsExposed 128)
                (check_duplicates labels) (λ _. ok labels) (check_duplicates-IsDistinct labels)
                (λ _ d. record {
                  distinct = d;
                  within = ground (arith, same);
                  metric = name;
                  others = ls;
                  front = refl;
                })))
    ]

suffixed-IsExposed :
    (name suffix : Bytes) (labels : List Label)
    → IsExposed 128 labels
    → IsExposed 128 (suffixed name suffix labels)
suffixed-IsExposed name [] labels e = e
suffixed-IsExposed name (c ∷ cs) [] e = e
suffixed-IsExposed name (c ∷ cs) (l ∷ ls) e = record {
  distinct = e.distinct;
  within = e.within;
  metric = name ++ c ∷ cs;
  others = ls;
  front = ap (λ n. (record { name = n; value = name ++ c ∷ cs }) ∷ ls) (ground (arith, e.front));
}

pub weaken-IsExposed : (labels : List Label) → IsExposed 128 labels → IsExposed 129 labels
weaken-IsExposed labels e = record {
  distinct = e.distinct;
  within = omega (arith, e.within);
  metric = e.metric;
  others = e.others;
  front = e.front;
}

push-IsExposed :
    (labels : List Label) (extra : Label)
    → IsExposed 128 labels
    → has_name extra.name labels ≡ false
    → IsExposed 129 (labels ++ extra ∷ [])
push-IsExposed labels extra e new = record {
  distinct = push-IsDistinct labels extra e.distinct new;
  within = omega (arith, length-append labels (extra ∷ []), e.within);
  metric = e.metric;
  others = e.others ++ extra ∷ [];
  front = ap (λ ls. ls ++ extra ∷ []) e.front;
}

pub builder_labels-IsExposed :
    (b : SeriesBuilder) (suffix : Bytes) (extra : Option Label)
    → IsExposed 128 b.labels
    → Ensures IsReported (IsExposed 129) (builder_labels b suffix extra)
unfolding builder_labels
builder_labels-IsExposed b suffix none e =
    weaken-IsExposed _ (suffixed-IsExposed b.name suffix b.labels e)
builder_labels-IsExposed b suffix (some extra) e =
    elim (Bool-cases (has_name extra.name (suffixed b.name suffix b.labels))) [
      | inl old ↦ rw old refl
      | inr new ↦ rw new (
          push-IsExposed (suffixed b.name suffix b.labels) extra
            (suffixed-IsExposed b.name suffix b.labels e) new)
    ]
