-- ===== src/Parser/Lines.antt =====
-- `parse_value`, `parse_timestamp`, `parse_line` and `parse` of src/parser.rs.
pub mod Results
pub mod Failures
pub mod Total
use prometheus_scrape_rs.Base.{
  ℕ, zero, suc, ◌+◌, ◌-◌, ◌*◌, ◌^◌, ◌/◌, ◌%◌, Bool, true, false, not, ◌&&◌, ◌||◌, List, [], ◌∷◌,
  ◌++◌, Option, none, some, Bytes, ltb, ◌==◌, if◌then◌else◌, length, take, any, is_ascii_digit,
}
use prometheus_scrape_rs.Base.Int.{ℤ, pos, negsuc}
use prometheus_scrape_rs.Model.{Label, Sample, TimeSeries, Float, metric_name_label}
use prometheus_scrape_rs.Hash.{hash_bytes}
use prometheus_scrape_rs.Parser.{
  FloatOps, Message, bad_metric_start, missing_value, invalid_value, invalid_timestamp,
  trailing_content, Result, ok, err, ◌>>=◌, is_space, is_name_start, is_name_continue, span,
  skip_spaces,
}
use prometheus_scrape_rs.Parser.Labels.{parse_labels}

-- The decimal value of a token of digits alone.
unfoldable pub digits_value : ℕ → Bytes → Option ℕ
digits_value acc [] = some acc
digits_value acc (c ∷ cs) =
    let rest = digits_value (acc * 10 + (c - b'0')) cs in if is_ascii_digit c then rest else none

unfoldable pub unsigned_value : Bytes → Option ℕ
unfolding digits_value
unsigned_value [] = none
unsigned_value (c ∷ cs) = digits_value 0 (c ∷ cs)

-- The digits as a number below the bound, with the sign put on.
unfoldable pub in_range : ℕ → (ℕ → ℤ) → Option ℕ → Option ℤ
in_range bound sign none = none
in_range bound sign (some n) = if ltb n bound then some (sign n) else none

abbrev negated : ℕ → ℤ
negated zero = pos 0
negated (suc n) = negsuc n

-- `str::parse::<i64>`: an optional sign, and digits whose value fits.
unfoldable pub parse_i64 : Bytes → Option ℤ
unfolding unsigned_value in_range
parse_i64 [] = none
parse_i64 (c ∷ cs) =
    if c == b'-'
    then in_range (2 ^ 63 + 1) negated (unsigned_value cs)
    else if c == b'+'
    then in_range (2 ^ 63) pos (unsigned_value cs)
    else in_range (2 ^ 63) pos (unsigned_value (c ∷ cs))

-- `f64::is_finite`: the exponent is not all ones.
abbrev is_finite : Float → Bool
is_finite value = ltb (value / 2 ^ 52 % 2 ^ 11) 2047

abbrev is_decimal_mark : ℕ → Bool
is_decimal_mark b = b == b'.' || b == b'e' || b == b'E'

-- The lines of a body, without their newlines; a newline at the end starts no further one.
unfoldable pub split_lines : Bytes → List Bytes
split_lines [] = []
split_lines (c ∷ cs) =
    let rest = split_lines cs in
    if c == b'\n'
    then [] ∷ rest
    else elim rest [ [] ↦ (c ∷ []) ∷ [] | line ∷ lines ↦ (c ∷ line) ∷ lines ]

-- One trailing carriage return taken off.
unfoldable pub strip_return : Bytes → Bytes
strip_return [] = []
strip_return (c ∷ []) = if c == b'\r' then [] else c ∷ []
strip_return (c ∷ d ∷ s) = c ∷ strip_return (d ∷ s)

pub record ParseError : Type 0 where
  pub line : ℕ
  pub message : Message

pub data Parsed : Type 0 where
  series : List TimeSeries → Parsed
  failed : ParseError → Parsed

-- `if let Some(series) = parse_line(..)? { out.push(series) }`, in front of what the later lines give.
unfoldable pub add_line : ℕ → Result (Option TimeSeries) → Parsed → Parsed
add_line line_no (err m) rest = failed (record { line = line_no; message = m })
add_line line_no (ok none) rest = rest
add_line line_no (ok (some s)) (series out) = series (s ∷ out)
add_line line_no (ok (some s)) (failed e) = failed e

abbrev or_message {ℓ} : {A : Type ℓ} → Message → Option A → Result A
or_message m none = err m
or_message m (some a) = ok a

-- `while i < end && !is_space(bytes[i]) { i += 1 }`
abbrev pub token : Bytes → Bytes × Bytes
token s = span (λ b. not (is_space b)) s

-- The optional label set, at the first byte that is no space: the labels, and what is left behind
-- the closing brace. Without one, that is what stands directly behind the name, so that the identity
-- ends there.
unfoldable pub label_set_at : Bytes → List Label → Bytes → Result (List Label × Bytes)
unfolding parse_labels
label_set_at after_name labels [] = ok (labels, after_name)
label_set_at after_name labels (c ∷ rest) =
    if c == b'{' then parse_labels (suc (length rest)) rest labels none else ok (labels, after_name)

unfoldable pub parse_label_set : Bytes → Bytes → Result (List Label × Bytes)
unfolding label_set_at span
parse_label_set name s =
    label_set_at s ((record { name = metric_name_label; value = name }) ∷ []) (skip_spaces s)

-- `bytes[start..end]`, by what is left at the start and at the end.
unfoldable pub slice : Bytes → Bytes → Bytes
slice start end = take (length start - length end) start

-- What may stand at the end: nothing, or an exemplar.
unfoldable pub check_tail : Bytes → Result (Unit {0})
check_tail [] = ok tt
check_tail (c ∷ s) = if c == b'#' then ok tt else err trailing_content

module _ (ops : FloatOps) where
  open ops use {parse_f64, times_thousand, round, within_i64, to_i64}

  -- The token as it is, or without one leading plus.
  unfoldable pub parse_value : Bytes → Option Float
  parse_value [] = none
  parse_value (c ∷ cs) = elim (parse_f64 (c ∷ cs)) [
    | some v ↦ some v
    | none ↦ if c == b'+' then parse_f64 cs else none
  ]

  unfoldable pub milliseconds : Float → Option ℤ
  milliseconds secs =
      let ms = round (times_thousand secs) in
      if not (is_finite secs) then none else if within_i64 ms then some (to_i64 ms) else none

  unfoldable pub parse_timestamp : Bytes → Option ℤ
  unfolding milliseconds parse_i64 any
  parse_timestamp [] = none
  parse_timestamp (c ∷ cs) =
      if any is_decimal_mark (c ∷ cs)
      then elim (parse_f64 (c ∷ cs)) [ some secs ↦ milliseconds secs | none ↦ none ]
      else parse_i64 (c ∷ cs)

  -- `if i < end && bytes[i] != b'#' { .. }`: the timestamp that holds, and what is left.
  unfoldable pub parse_time : ℤ → Bool → Bytes → Result (ℤ × Bytes)
  unfolding parse_timestamp span
  parse_time default_timestamp honor [] = ok (default_timestamp, [])
  parse_time default_timestamp honor (c ∷ s) =
      if c == b'#' then ok (default_timestamp, c ∷ s) else do
        parsed ← or_message invalid_timestamp (parse_timestamp (token (c ∷ s)).0)
        ok (if honor then parsed else default_timestamp, skip_spaces (token (c ∷ s)).1)

  -- The value and the timestamp behind the name and the labels.
  unfoldable pub parse_sample : ℤ → Bool → Bytes → Result Sample
  unfolding parse_value parse_time check_tail span
  parse_sample default_timestamp honor [] = err missing_value
  parse_sample default_timestamp honor (c ∷ s) = do
    value ← or_message invalid_value (parse_value (token (c ∷ s)).0)
    (timestamp, tail) ← parse_time default_timestamp honor (skip_spaces (token (c ∷ s)).1)
    _ ← check_tail tail
    ok (record { value = value; timestamp = if honor then timestamp else default_timestamp })

  -- The line from the first byte that is no space.
  unfoldable pub parse_content : ℤ → Bool → Bytes → Result (Option TimeSeries)
  unfolding is_name_start is_name_continue span parse_label_set parse_sample slice hash_bytes
  parse_content default_timestamp honor [] = ok none
  parse_content default_timestamp honor (c ∷ s) =
      let name = span (λ b. is_name_continue b true) s in
      if c == b'#'
      then ok none
      else if not (is_name_start c true)
      then err (bad_metric_start c)
      else do
        (labels, rest) ← parse_label_set (c ∷ name.0) name.1
        sample ← parse_sample default_timestamp honor (skip_spaces rest)
        ok (
            some (record {
              labels = labels;
              sample = sample;
              identity_hash = hash_bytes (slice (c ∷ s) rest);
              histogram = none;
            }))

  unfoldable pub parse_line : ℤ → Bool → Bytes → Result (Option TimeSeries)
  unfolding parse_content span
  parse_line default_timestamp honor line = parse_content default_timestamp honor (skip_spaces line)

  unfoldable pub parse_lines : ℤ → Bool → ℕ → List Bytes → Parsed
  unfolding parse_line strip_return add_line
  parse_lines default_timestamp honor line_no [] = series []
  parse_lines default_timestamp honor line_no (line ∷ lines) =
      add_line line_no (parse_line default_timestamp honor (strip_return line))
        (parse_lines default_timestamp honor (suc line_no) lines)

  unfoldable pub parse : Bytes → ℤ → Bool → Parsed
  unfolding parse_lines split_lines
  parse body default_timestamp honor = parse_lines default_timestamp honor 1 (split_lines body)
