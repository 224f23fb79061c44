-- ===== src/Parser/Labels.antt =====
-- `parse_labels` of src/parser.rs.
pub mod Distinct
pub mod Total
use prometheus_scrape_rs.Base.{
  ℕ, zero, suc, Bool, true, false, not, List, [], ◌∷◌, ◌++◌, Option, none, some, Bytes, ◌==◌, beq,
  if◌then◌else◌, length,
}
use prometheus_scrape_rs.Model.{Label, metric_name_label}
use prometheus_scrape_rs.Parser.{
  Message, bad_label_start, name_label_in_braces, expected_equals, expected_quote, expected_comma,
  unterminated_labels, crash, Result, ok, err, ◌>>=◌, Seen, is_space, is_name_start,
  is_name_continue, span, skip_spaces, parse_label_value, check_label_name, record_label_name,
}

-- `i >= end || bytes[i] != byte`, then `i += 1`.
unfoldable pub expect : ℕ → Message → Bytes → Result Bytes
expect byte m [] = err m
expect byte m (c ∷ s) = if c == byte then ok s else err m

-- What one round of the loop leaves: the labels, the index, and the rest behind the value.
pub record Round : Type 0 where
  pub labels : List Label
  pub seen : Seen
  pub rest : Bytes

-- The equals sign, the opening quote and the value.
unfoldable pub label_value_of : Bytes → Bytes → Result (Bytes × Bytes)
unfolding expect span parse_label_value
label_value_of name s = do
  after_equals ← expect b'=' (expected_equals name) (skip_spaces s)
  after_quote ← expect b'"' (expected_quote name) (skip_spaces after_equals)
  parse_label_value after_quote

-- The checks of a name, its value, and the label pushed.
unfoldable pub parse_label_named : Bytes → Bytes → List Label → Seen → Result Round
unfolding label_value_of check_label_name record_label_name beq
parse_label_named name s labels seen =
    if beq name metric_name_label then err name_label_in_braces else do
      _ ← check_label_name name labels seen
      (value, rest) ← label_value_of name s
      let pushed = labels ++ (record { name = name; value = value }) ∷ []
      ok (record { labels = pushed; seen = record_label_name name pushed seen; rest = rest })

-- A round at the first byte `c` of a name.
unfoldable pub parse_label : ℕ → Bytes → List Label → Seen → Result Round
unfolding parse_label_named span is_name_start is_name_continue
parse_label c s labels seen =
    let named = span (λ b. is_name_continue b false) s in
    if not (is_name_start c false)
    then err (bad_label_start c)
    else parse_label_named (c ∷ named.0) named.1 labels seen

-- How a round ends: at the closing brace, with what follows it, or behind a comma.
pub data Step : Type 0 where
  done : List Label → Bytes → Step
  next : Round → Step

unfoldable pub after_value : Round → Bytes → Result Step
after_value r [] = err unterminated_labels
after_value r (c ∷ s) =
    if c == b','
    then ok (next (record r { rest = s }))
    else if c == b'}'
    then ok (done r.labels s)
    else err (expected_comma c)

unfoldable pub labels_step : Bytes → List Label → Seen → Result Step
unfolding after_value parse_label span
labels_step [] labels seen = err unterminated_labels
labels_step (c ∷ s) labels seen =
    if c == b'}'
    then ok (done labels s)
    else do r ← parse_label c s labels seen; after_value r (skip_spaces r.rest)

-- The loop, behind the opening brace. It gives the labels and what follows the closing brace. Every
-- round takes a byte at least, so the length of the line is fuel enough.
unfoldable pub parse_labels : ℕ → Bytes → List Label → Seen → Result (List Label × Bytes)
unfolding labels_step
parse_labels zero s labels seen = err crash
parse_labels (suc fuel) s labels seen = do
  step ← labels_step (skip_spaces s) labels seen
  elim step [ done out rest ↦ ok (out, rest) | next r ↦ parse_labels fuel r.rest r.labels r.seen ]
