-- ===== src/Model/Sort.antt =====
-- `sort_labels` of src/model.rs.
use prometheus_scrape_rs.Base.{
  List, [], ◌∷◌, Bytes, Bool, true, false, ltb, ◌==◌, ◌||◌, ◌&&◌, if◌then◌else◌,
}
use prometheus_scrape_rs.Model.{Label}

-- `str::cmp` on the bytes: `a` comes before `b`.
unfoldable pub before : Bytes → Bytes → Bool
before [] [] = false
before [] (y ∷ ys) = true
before (x ∷ xs) [] = false
before (x ∷ xs) (y ∷ ys) = ltb x y || (x == y && before xs ys)

unfoldable pub insert_label : Label → List Label → List Label
insert_label l [] = l ∷ []
insert_label l (m ∷ ms) =
    let rest = insert_label l ms in if before m.name l.name then m ∷ rest else l ∷ m ∷ ms

-- `labels.sort_unstable_by(|a, b| a.name.cmp(&b.name))`. An unstable sort leaves the order of labels
-- with equal names open; insertion keeps them as they stand. For distinct names there is one result.
unfoldable pub sort_labels : List Label → List Label
sort_labels [] = []
sort_labels (l ∷ ls) = insert_label l (sort_labels ls)
