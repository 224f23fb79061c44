-- ===== src/Scrape/Merge.antt =====
-- `merge_target_labels` of src/scrape.rs: who wins a conflict, and where the other value goes.
use prometheus_scrape_rs.Base.{
  true, false, ◌&&◌, ◌||◌, List, [], ◌∷◌, ◌++◌, Bytes, if◌then◌else◌, beq, beq_iff, All, All-map,
  ◌≡◌, refl, arith, Bool-cases, inl, inr,
}
use prometheus_scrape_rs.Model.{Label}
use prometheus_scrape_rs.Labels.{has_name, assign_named, get_label, add_if_absent, IsDistinct}
use prometheus_scrape_rs.Labels.Laws.{
  has_name-set_label, has_name-assign_named, get_label-set_label, get_label-add_if_absent,
  get_label-assign_named, get_label-push, get_label-cons, get_label-absent, has_name-push,
  has_name-add_if_absent,
}
use prometheus_scrape_rs.Scrape.{exported, merge_conflict, merge_target_labels}

-- With `honor_labels` a scraped label keeps its value, and a target label is added where the
-- series has none of that name.
pub merge_honored :
    (target_labels labels : List Label) (key : Bytes)
    → get_label (merge_target_labels labels target_labels true) key
      ≡ (if has_name key labels then get_label labels key else get_label target_labels key)
unfolding merge_target_labels
merge_honored [] labels key =
    ground (arith, get_label-absent key labels, get_label-absent key [] (unfold has_name in refl))
merge_honored (t ∷ target_labels) labels key = ground (
  arith,
  merge_honored target_labels (add_if_absent labels t.name t.value) key,
  has_name-add_if_absent labels t.name key t.value,
  get_label-add_if_absent labels t.name key t.value,
  get_label-cons t target_labels key,
  get_label-absent key labels,
  beq_iff t.name key,
)

-- The scraped value that a conflict moves to `key`, or else `d`.
unfoldable pub moved_or : Bytes → List Label → List Label → Bytes → Bytes
moved_or d scraped [] key = d
moved_or d scraped (t ∷ target_labels) key =
    if beq (exported t.name) key && has_name t.name scraped
    then get_label scraped t.name
    else moved_or d scraped target_labels key

-- No target label has the name that another one's conflict moves to.
abbrev pub HasNoClash : List Label → Type 0
HasNoClash target_labels = All (λ t. has_name (exported t.name) target_labels ≡ false) target_labels

exported-injective : (a b : Bytes) → exported a ≡ exported b → a ≡ b
exported-injective a b h = cc

-- Two label sets that agree on the names of all target labels.
abbrev Agree : List Label → List Label → List Label → Type 0
Agree xs ys target_labels =
    All
      (λ t. (has_name t.name xs ≡ has_name t.name ys) × (get_label xs t.name ≡ get_label ys t.name))
      target_labels

moved_or-Agree :
    (d : Bytes) (xs ys target_labels : List Label) (key : Bytes)
    → Agree xs ys target_labels
    → moved_or d xs target_labels key ≡ moved_or d ys target_labels key
unfolding moved_or
moved_or-Agree d xs ys [] key a = refl
moved_or-Agree d xs ys (t ∷ target_labels) key ((h, g), a) =
    rw (h, g, moved_or-Agree d xs ys target_labels key a)

moved_or_none :
    (d : Bytes) (scraped target_labels : List Label) (key : Bytes)
    → All (λ t. beq (exported t.name) key ≡ false) target_labels
    → moved_or d scraped target_labels key ≡ d
unfolding moved_or
moved_or_none d scraped [] key h = refl
moved_or_none d scraped (t ∷ target_labels) key (h, hs) =
    rw (h, moved_or_none d scraped target_labels key hs)

-- One round without `honor_labels`.
abbrev step : List Label → Label → List Label
step labels t = if has_name t.name labels then merge_conflict labels t else labels ++ t ∷ []

has_name-step :
    (labels : List Label) (t : Label) (key : Bytes)
    → has_name key (step labels t) ≡ (
        has_name key labels
        || beq t.name key
        || (has_name t.name labels && beq (exported t.name) key))
unfolding merge_conflict
has_name-step labels t key = ground (
  arith,
  has_name-push labels t key,
  has_name-assign_named t.name key t.value labels,
  has_name-set_label (assign_named t.name t.value labels) (exported t.name) key
      (get_label labels t.name),
  beq_iff t.name key,
)

get_label-step :
    (labels : List Label) (t : Label) (key : Bytes)
    → get_label (step labels t) key ≡ (
        if has_name t.name labels && beq (exported t.name) key
        then get_label labels t.name
        else if beq t.name key
        then t.value
        else get_label labels key)
unfolding merge_conflict
get_label-step labels t key = ground (
  arith,
  get_label-push labels t key,
  get_label-absent key labels,
  get_label-set_label (assign_named t.name t.value labels) (exported t.name) key
      (get_label labels t.name),
  get_label-assign_named t.name key t.value labels,
  beq_iff t.name key,
)

step-Agree :
    (labels : List Label) (t : Label) (ts : List Label)
    → has_name t.name ts ≡ false
    → has_name (exported t.name) ts ≡ false
    → Agree (step labels t) labels ts
unfolding has_name
step-Agree labels t [] h k = tt
step-Agree labels t (u ∷ ts) h k = (
  (
    ground (
      arith,
      has_name-step labels t u.name,
      beq_iff t.name u.name,
      beq_iff u.name t.name,
      beq_iff (exported t.name) u.name,
      beq_iff u.name (exported t.name),
    ),
    ground (
      arith,
      get_label-step labels t u.name,
      beq_iff t.name u.name,
      beq_iff u.name t.name,
      beq_iff (exported t.name) u.name,
      beq_iff u.name (exported t.name),
    ),
  ),
  step-Agree labels t ts (ground arith) (ground arith),
)

-- No later conflict moves a value to a name in `front`, nor to the same place twice.
not_moved_to :
    (t : Label) (ts : List Label)
    → All (λ u. has_name (exported u.name) (t ∷ ts) ≡ false) ts
    → All (λ u. beq (exported u.name) t.name ≡ false) ts
unfolding has_name
not_moved_to t ts h =
    All-map _ _ ts
      (λ u k. ground (arith, beq_iff t.name (exported u.name), beq_iff (exported u.name) t.name)) h

not_moved_twice :
    (t : Label) (ts : List Label)
    → has_name t.name ts ≡ false
    → All (λ u. beq (exported u.name) (exported t.name) ≡ false) ts
unfolding has_name
not_moved_twice t [] h = tt
not_moved_twice t (u ∷ ts) h = (
  ground (
    arith,
    beq_iff u.name t.name,
    beq_iff (exported u.name) (exported t.name),
    exported-injective u.name t.name,
  ),
  not_moved_twice t ts (ground arith),
)

-- Without `honor_labels` every target label wins, and the scraped value of a conflict is read under
-- `exported_` and the name, where the names of the target labels are distinct and none of them is `exported_`
-- and the name of another; all other scraped labels stay.
pub merge_exported :
    (target_labels labels : List Label) (key : Bytes)
    → IsDistinct target_labels
    → HasNoClash target_labels
    → get_label (merge_target_labels labels target_labels false) key ≡ (
        if has_name key target_labels
        then get_label target_labels key
        else moved_or (get_label labels key) labels target_labels key)
unfolding merge_target_labels has_name moved_or
merge_exported [] labels key d c = refl
merge_exported (t ∷ ts) labels key (h, d) (own, c) =
    let ih = merge_exported ts (step labels t) key d (All-map _ _ ts (λ u k. ground arith) c) in
    let clear : has_name (exported t.name) ts ≡ false = ground arith in
    let agree =
      moved_or-Agree (get_label (step labels t) key) (step labels t) labels ts key
        (step-Agree labels t ts h clear) in
    elim (Bool-cases (beq t.name key)) [
      | inl same ↦
          let e : t.name ≡ key = (beq_iff t.name key).0 same in
          ground (
            arith,
            ih,
            agree,
            get_label-step labels t key,
            get_label-cons t ts key,
            moved_or_none (get_label (step labels t) key) labels ts t.name (not_moved_to t ts c),
            beq_iff (exported t.name) key,
            beq_iff t.name (exported t.name),
          )
      | inr other ↦ elim (Bool-cases (beq (exported t.name) key)) [
        | inl moved ↦
            let e : exported t.name ≡ key = (beq_iff (exported t.name) key).0 moved in
            ground (
              arith,
              ih,
              agree,
              get_label-step labels t key,
              get_label-cons t ts key,
              moved_or_none (get_label (step labels t) key) labels ts (exported t.name)
                  (not_moved_twice t ts h),
              moved_or_none (get_label labels key) labels ts (exported t.name)
                  (not_moved_twice t ts h),
            )
        | inr elsewhere ↦
            ground (arith, ih, agree, get_label-step labels t key, get_label-cons t ts key)
      ]
    ]
