-- ===== src/Labels.antt =====
-- Label sets as lists that are searched from the front: `get_label`, `set_label` and
-- `add_if_absent` of src/scrape.rs, over the scans that `LabelSet` of src/relabel.rs makes too.
pub mod Laws
use prometheus_scrape_rs.Base.{
  List, [], ◌∷◌, ◌++◌, Bytes, Bool, true, false, Option, none, some, beq, if◌then◌else◌, ◌||◌, ◌≡◌,
}
use prometheus_scrape_rs.Model.{Label}

-- `iter().any(|label| label.name == name)`
unfoldable pub has_name : Bytes → List Label → Bool
has_name name [] = false
has_name name (l ∷ ls) = beq l.name name || has_name name ls

-- `iter().find(|label| label.name == name)`
unfoldable pub find_named : Bytes → List Label → Option Label
find_named name [] = none
find_named name (l ∷ ls) = if beq l.name name then some l else find_named name ls

-- `map_or("", |label| label.value)`
abbrev pub value_or_empty : Option Label → Bytes
value_or_empty none = []
value_or_empty (some l) = l.value

-- An assignment through `iter_mut().find(..)`: the first label of that name.
unfoldable pub assign_named : Bytes → Bytes → List Label → List Label
assign_named name value [] = []
assign_named name value (l ∷ ls) =
    if beq l.name name then record l { value = value } ∷ ls else l ∷ assign_named name value ls

unfoldable pub get_label : List Label → Bytes → Bytes
get_label labels name = value_or_empty (find_named name labels)

unfoldable pub set_label : List Label → Bytes → Bytes → List Label
set_label labels name value =
    if has_name name labels
    then assign_named name value labels
    else labels ++ (record { name = name; value = value }) ∷ []

unfoldable pub add_if_absent : List Label → Bytes → Bytes → List Label
add_if_absent labels name value =
    if has_name name labels then labels else labels ++ (record { name = name; value = value }) ∷ []

-- The names of a label set are distinct.
abbrev pub IsDistinct : List Label → Type 0
IsDistinct [] = Unit {0}
IsDistinct (l ∷ ls) = (has_name l.name ls ≡ false) × IsDistinct ls
