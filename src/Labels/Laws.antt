-- ===== src/Labels/Laws.antt =====
-- Label sets as maps from names to values.
use prometheus_scrape_rs.Base.{
  List, [], ◌∷◌, ◌++◌, Bytes, Bool, true, false, none, beq, beq_iff, if◌then◌else◌, ◌||◌, ◌≡◌, refl,
  ap, ◌∙◌, arith, Bool-cases, inl, inr, retain,
}
use prometheus_scrape_rs.Model.{Label}
use prometheus_scrape_rs.Labels.{
  has_name, find_named, value_or_empty, assign_named, get_label, set_label, add_if_absent,
  IsDistinct,
}

module _ (name : Bytes) where
  pub has_name-append :
      (xs ys : List Label) → has_name name (xs ++ ys) ≡ (has_name name xs || has_name name ys)
  unfolding has_name
  has_name-append [] ys = refl
  has_name-append (l ∷ xs) ys = ground (arith, has_name-append xs ys)

  -- A search goes on past labels of other names.
  pub find_named-append :
      (xs ys : List Label)
      → find_named name (xs ++ ys)
        ≡ (if has_name name xs then find_named name xs else find_named name ys)
  unfolding find_named has_name
  find_named-append [] ys = refl
  find_named-append (l ∷ xs) ys = ground (arith, find_named-append xs ys)

  pub find_named-none : (ls : List Label) → has_name name ls ≡ false → find_named name ls ≡ none
  unfolding find_named has_name
  find_named-none [] h = refl
  find_named-none (l ∷ ls) h = ground (arith, find_named-none ls)

pub has_name-assign_named :
    (name key value : Bytes) (ls : List Label)
    → has_name key (assign_named name value ls) ≡ has_name key ls
unfolding has_name assign_named
has_name-assign_named name key value [] = refl
has_name-assign_named name key value (l ∷ ls) =
    ground (arith, has_name-assign_named name key value ls)

find_named-assign_named :
    (name key value : Bytes) (ls : List Label)
    → has_name name ls ≡ true
    → value_or_empty (find_named key (assign_named name value ls))
      ≡ (if beq name key then value else value_or_empty (find_named key ls))
unfolding has_name find_named assign_named
find_named-assign_named name key value [] h = cc
find_named-assign_named name key value (l ∷ ls) h = ground (
  arith,
  beq_iff l.name name,
  beq_iff l.name key,
  beq_iff name key,
  find_named-assign_named name key value ls,
)

-- After `set_label` the name has the new value and every other name the value that it had.
pub get_label-set_label :
    (labels : List Label) (name key value : Bytes)
    → get_label (set_label labels name value) key
      ≡ (if beq name key then value else get_label labels key)
unfolding get_label set_label find_named
get_label-set_label labels name key value = elim (Bool-cases (has_name name labels)) [
  | inl h ↦ rw h (find_named-assign_named name key value labels h)
  | inr h ↦ rw h (
      ground (
        arith,
        find_named-append key labels (record { name = name; value = value } ∷ []),
        beq_iff name key,
        find_named-none key labels,
      ))
]

pub has_name-set_label :
    (labels : List Label) (name key value : Bytes)
    → has_name key (set_label labels name value) ≡ (beq name key || has_name key labels)
unfolding set_label has_name
has_name-set_label labels name key value = ground (
  arith,
  has_name-assign_named name key value labels,
  has_name-append key labels (record { name = name; value = value } ∷ []),
  beq_iff name key,
)

pub assign_named-IsDistinct :
    (name value : Bytes) (ls : List Label) → IsDistinct ls → IsDistinct (assign_named name value ls)
unfolding assign_named
assign_named-IsDistinct name value [] d = d
assign_named-IsDistinct name value (l ∷ ls) (h, d) = elim (Bool-cases (beq l.name name)) [
  | inl e ↦ rw e (h, d)
  | inr e ↦
      rw e (has_name-assign_named name l.name value ls ∙ h, assign_named-IsDistinct name value ls d)
]

pub push-IsDistinct :
    (ls : List Label) (l : Label)
    → IsDistinct ls
    → has_name l.name ls ≡ false
    → IsDistinct (ls ++ l ∷ [])
unfolding has_name
push-IsDistinct [] l d h = (refl, tt)
push-IsDistinct (m ∷ ls) l (k, d) h = (
  ground (arith, has_name-append m.name ls (l ∷ []), beq_iff m.name l.name, beq_iff l.name m.name),
  push-IsDistinct ls l d (ground arith),
)

-- Both ways to write a label keep the names distinct.
pub set_label-IsDistinct :
    (labels : List Label) (name value : Bytes)
    → IsDistinct labels
    → IsDistinct (set_label labels name value)
unfolding set_label
set_label-IsDistinct labels name value d = elim (Bool-cases (has_name name labels)) [
  | inl h ↦ rw h (assign_named-IsDistinct name value labels d)
  | inr h ↦ rw h (push-IsDistinct labels _ d h)
]

pub add_if_absent-IsDistinct :
    (labels : List Label) (name value : Bytes)
    → IsDistinct labels
    → IsDistinct (add_if_absent labels name value)
unfolding add_if_absent
add_if_absent-IsDistinct labels name value d = elim (Bool-cases (has_name name labels)) [
  | inl h ↦ rw h d
  | inr h ↦ rw h (push-IsDistinct labels _ d h)
]

-- A value that is there stays; a name that is not gets the new value.
pub get_label-add_if_absent :
    (labels : List Label) (name key value : Bytes)
    → get_label (add_if_absent labels name value) key ≡ (
        if has_name name labels
        then get_label labels key
        else if beq name key
        then value
        else get_label labels key)
unfolding get_label add_if_absent find_named
get_label-add_if_absent labels name key value = ground (
  arith,
  find_named-append key labels (record { name = name; value = value } ∷ []),
  beq_iff name key,
  find_named-none key labels,
)

has_name-retain :
    (name : Bytes) (p : Label → Bool) (ls : List Label)
    → has_name name ls ≡ false
    → has_name name (retain p ls) ≡ false
unfolding has_name retain
has_name-retain name p [] h = refl
has_name-retain name p (l ∷ ls) h = ground (arith, has_name-retain name p ls)

pub retain-IsDistinct :
    (p : Label → Bool) (ls : List Label) → IsDistinct ls → IsDistinct (retain p ls)
unfolding retain
retain-IsDistinct p [] d = d
retain-IsDistinct p (l ∷ ls) (h, d) = elim (Bool-cases (p l)) [
  | inl e ↦ rw e (has_name-retain l.name p ls h, retain-IsDistinct p ls d)
  | inr e ↦ rw e (retain-IsDistinct p ls d)
]

pub get_label-assign_named :
    (name key value : Bytes) (ls : List Label)
    → has_name name ls ≡ true
    → get_label (assign_named name value ls) key
      ≡ (if beq name key then value else get_label ls key)
unfolding get_label
get_label-assign_named name key value ls h = find_named-assign_named name key value ls h

pub get_label-push :
    (ls : List Label) (l : Label) (key : Bytes)
    → get_label (ls ++ l ∷ []) key
      ≡ (if has_name key ls then get_label ls key else if beq l.name key then l.value else [])
unfolding get_label find_named
get_label-push ls l key = ground (arith, find_named-append key ls (l ∷ []))

pub get_label-absent :
    (key : Bytes) (ls : List Label) → has_name key ls ≡ false → get_label ls key ≡ []
unfolding get_label
get_label-absent key ls h = ap value_or_empty (find_named-none key ls h)

pub get_label-cons :
    (l : Label) (ls : List Label) (key : Bytes)
    → get_label (l ∷ ls) key ≡ (if beq l.name key then l.value else get_label ls key)
unfolding get_label find_named
get_label-cons l ls key = ground arith

pub has_name-push :
    (ls : List Label) (l : Label) (key : Bytes)
    → has_name key (ls ++ l ∷ []) ≡ (has_name key ls || beq l.name key)
unfolding has_name
has_name-push ls l key = ground (arith, has_name-append key ls (l ∷ []))

pub has_name-add_if_absent :
    (labels : List Label) (name key value : Bytes)
    → has_name key (add_if_absent labels name value) ≡ (has_name key labels || beq name key)
unfolding add_if_absent
has_name-add_if_absent labels name key value =
    ground
      (arith, has_name-push labels (record { name = name; value = value }) key, beq_iff name key)
