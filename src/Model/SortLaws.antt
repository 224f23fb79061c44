-- ===== src/Model/SortLaws.antt =====
-- `sort_labels` puts the labels in the order of their names.
use prometheus_scrape_rs.Base.{
  List, [], ◌∷◌, Bytes, true, false, All, ◌≡◌, refl, arith, Bool-cases, inl, inr,
}
use prometheus_scrape_rs.Model.{Label}
use prometheus_scrape_rs.Model.Sort.{before, insert_label, sort_labels}

pub before_irrefl : (a : Bytes) → before a a ≡ false
unfolding before
before_irrefl [] = refl
before_irrefl (x ∷ a) = ground (arith, before_irrefl a)

pub before_asymm : (a b : Bytes) → before a b ≡ true → before b a ≡ false
unfolding before
before_asymm [] [] h = refl
before_asymm [] (y ∷ b) h = refl
before_asymm (x ∷ a) [] h = cc
before_asymm (x ∷ a) (y ∷ b) h = ground (arith, before_asymm a b)

-- The order "not after" is transitive.
pub not_after_trans : (a b c : Bytes) → before b a ≡ false → before c b ≡ false → before c a ≡ false
unfolding before
not_after_trans [] [] [] h k = refl
not_after_trans [] [] (z ∷ c) h k = refl
not_after_trans [] (y ∷ b) [] h k = refl
not_after_trans [] (y ∷ b) (z ∷ c) h k = refl
not_after_trans (x ∷ a) [] c h k = cc
not_after_trans (x ∷ a) (y ∷ b) [] h k = cc
not_after_trans (x ∷ a) (y ∷ b) (z ∷ c) h k = ground (arith, not_after_trans a b c)

pub not_before_antisymm : (a b : Bytes) → before a b ≡ false → before b a ≡ false → a ≡ b
unfolding before
not_before_antisymm [] [] h k = refl
not_before_antisymm [] (y ∷ b) h k = cc
not_before_antisymm (x ∷ a) [] h k = cc
not_before_antisymm (x ∷ a) (y ∷ b) h k = ground (arith, not_before_antisymm a b)

abbrev NotAfter : Label → Label → Type 0
NotAfter l m = before m.name l.name ≡ false

-- No label stands behind one with a greater name.
abbrev pub IsSorted : List Label → Type 0
IsSorted [] = Unit {0}
IsSorted (l ∷ ls) = All (NotAfter l) ls × IsSorted ls

All-NotAfter :
    (l m : Label) (ls : List Label) → NotAfter l m → All (NotAfter m) ls → All (NotAfter l) ls
All-NotAfter l m [] h k = tt
All-NotAfter l m (x ∷ ls) h (k, ks) =
    (not_after_trans l.name m.name x.name h k, All-NotAfter l m ls h ks)

All-insert_label :
    (k l : Label) (ls : List Label)
    → NotAfter k l
    → All (NotAfter k) ls
    → All (NotAfter k) (insert_label l ls)
unfolding insert_label
All-insert_label k l [] h hs = (h, tt)
All-insert_label k l (m ∷ ms) h (hm, hs) = elim (Bool-cases (before m.name l.name)) [
  | inl e ↦ rw e (hm, All-insert_label k l ms h hs)
  | inr e ↦ rw e (h, (hm, hs))
]

insert_label-IsSorted : (l : Label) (ls : List Label) → IsSorted ls → IsSorted (insert_label l ls)
unfolding insert_label
insert_label-IsSorted l [] s = (tt, tt)
insert_label-IsSorted l (m ∷ ms) (h, s) = elim (Bool-cases (before m.name l.name)) [
  | inl e ↦
      rw e (All-insert_label m l ms (before_asymm m.name l.name e) h, insert_label-IsSorted l ms s)
  | inr e ↦ rw e ((e, All-NotAfter l m ms e h), (h, s))
]

-- The result is in the order of the names, whatever the labels.
pub sort_labels-IsSorted : (ls : List Label) → IsSorted (sort_labels ls)
unfolding sort_labels
sort_labels-IsSorted [] = tt
sort_labels-IsSorted (l ∷ ls) = insert_label-IsSorted l (sort_labels ls) (sort_labels-IsSorted ls)
