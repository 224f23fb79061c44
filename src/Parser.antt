-- ===== src/Parser.antt =====
-- src/parser.rs: the text exposition format. A position in a line is what is left of it. The body is
-- a `&str` and every cut stands beside an ASCII byte or at an end, so that cutting cannot fail.
pub mod Scan
pub mod Labels
pub mod Lines
use prometheus_scrape_rs.Base.{
  ℕ, zero, suc, ◌+◌, ◌-◌, ◌*◌, ◌^◌, ◌/◌, ◌%◌, bit_and, Bool, true, false, not, ◌&&◌, ◌||◌, List, [],
  ◌∷◌, ◌++◌, Option, none, some, map, Bytes, ltb, leb, ◌==◌, beq, if◌then◌else◌, length, take, text,
  is_empty, all, any, is_ascii_alphabetic, is_ascii_digit,
}
use prometheus_scrape_rs.Base.Int.{ℤ, pos, negsuc}
use prometheus_scrape_rs.Model.{Label, TimeSeries, Float, metric_name_label}
use prometheus_scrape_rs.Hash.{hash_bytes}
use prometheus_scrape_rs.Labels.{has_name}

-- `f64` arithmetic and `str::parse::<f64>`, on bit patterns.
pub record FloatOps : Type 0 where
  pub parse_f64 : Bytes → Option Float
  pub times_thousand : Float → Float
  pub round : Float → Float
  pub within_i64 : Float → Bool
  pub to_i64 : Float → ℤ

-- `MAX_LABELS_PER_SERIES`, `DUPLICATE_SCAN_LINEAR_LIMIT`
abbrev pub max_labels_per_series : ℕ
max_labels_per_series = 128

abbrev pub duplicate_scan_linear_limit : ℕ
duplicate_scan_linear_limit = 32

-- The messages of `ParseError`. A `crash` is none: it stands for fuel that runs out and for an index
-- out of bounds, and no line gives it.
pub data Message : Type 0 where
  bad_metric_start : ℕ → Message
  missing_value invalid_value invalid_timestamp trailing_content : Message
  duplicate_label : Bytes → Message
  too_many_labels unterminated_labels name_label_in_braces : Message
  bad_label_start : ℕ → Message
  expected_equals expected_quote : Bytes → Message
  expected_comma : ℕ → Message
  unterminated_value trailing_backslash : Message
  invalid_escape : ℕ → Message
  crash : Message

pub data Result {ℓ} (A : Type ℓ) : Type ℓ where
  ok : A → Result A
  err : Message → Result A

infixl 5 ◌>>=◌
abbrev pub ◌>>=◌ {ℓ κ} : {A : Type ℓ} {B : Type κ} → Result A → (A → Result B) → Result B
ok a >>= f = f a
err m >>= f = err m

abbrev pub is_space : ℕ → Bool
is_space b = b == b' ' || b == b'\t'

-- `NAME_CLASS`: bit 0 for a first byte, bit 1 for a later one, bit 2 for the colon.
unfoldable pub name_class : ℕ → ℕ
name_class b =
    if is_ascii_alphabetic b || b == b'_'
    then 3
    else if is_ascii_digit b
    then 2
    else if b == b':'
    then 4
    else 0

unfoldable pub is_name_start : ℕ → Bool → Bool
unfolding name_class
is_name_start b allow_colon =
    not (bit_and (name_class b) 1 == 0) || (allow_colon && not (bit_and (name_class b) 4 == 0))

unfoldable pub is_name_continue : ℕ → Bool → Bool
unfolding name_class
is_name_continue b allow_colon =
    not (bit_and (name_class b) 2 == 0) || (allow_colon && not (bit_and (name_class b) 4 == 0))

unfoldable pub is_valid_name : Bytes → Bool → Bool
unfolding is_name_start is_name_continue all
is_valid_name [] allow_colon = false
is_valid_name (b ∷ bs) allow_colon =
    is_name_start b allow_colon && all (λ c. is_name_continue c allow_colon) bs

-- `while i < end && test(bytes[i]) { i += 1 }`: what is passed over, and what is left.
unfoldable pub span : (ℕ → Bool) → Bytes → Bytes × Bytes
span p [] = ([], [])
span p (c ∷ cs) = let rest = span p cs in if p c then (c ∷ rest.0, rest.1) else ([], c ∷ cs)

abbrev pub skip_spaces : Bytes → Bytes
skip_spaces s = (span is_space s).1

-- The scan of `parse_label_value` for the closing quote: the raw content and what follows the quote.
unfoldable pub scan_value : Bytes → Result (Bytes × Bytes)
scan_value [] = err unterminated_value
scan_value (c ∷ []) =
    if c == b'"'
    then ok ([], [])
    else if c == b'\\'
    then err trailing_backslash
    else err unterminated_value
scan_value (c ∷ d ∷ s) = elim (c == b'"') [
  | true ↦ ok ([], d ∷ s)
  | false ↦ elim (c == b'\\') [
    | true ↦ do (raw, rest) ← scan_value s; ok (c ∷ d ∷ raw, rest)
    | false ↦ do (raw, rest) ← scan_value (d ∷ s); ok (c ∷ raw, rest)
  ]
]

unfoldable pub escaped_byte : ℕ → Result ℕ
escaped_byte c =
    if c == b'\\'
    then ok b'\\'
    else if c == b'"'
    then ok b'"'
    else if c == b'n'
    then ok b'\n'
    else err (invalid_escape c)

-- The slow path: escapes decoded, all else copied.
unfoldable pub decode_escapes : Bytes → Result Bytes
unfolding escaped_byte
decode_escapes [] = ok []
decode_escapes (c ∷ []) = if c == b'\\' then err crash else ok (c ∷ [])
decode_escapes (c ∷ d ∷ s) = elim (c == b'\\') [
  | true ↦ do b ← escaped_byte d; decoded ← decode_escapes s; ok (b ∷ decoded)
  | false ↦ do decoded ← decode_escapes (d ∷ s); ok (c ∷ decoded)
]

-- `parse_label_value`, behind the opening quote.
unfoldable pub parse_label_value : Bytes → Result (Bytes × Bytes)
unfolding scan_value decode_escapes any
parse_label_value s = do
  (raw, rest) ← scan_value s
  value ← if any (λ c. c == b'\\') raw then decode_escapes raw else ok raw
  ok (value, rest)

-- The duplicate index: a `HashSet` as the list of its members.
abbrev pub Seen : Type 0
Seen = Option (List Bytes)

-- `match seen { Some(seen) => seen.contains(name), None => labels.iter().any(..) }`
unfoldable pub is_duplicate : Bytes → List Label → Seen → Bool
unfolding has_name any
is_duplicate name labels (some names) = any (λ n. beq n name) names
is_duplicate name labels none = has_name name labels

unfoldable pub check_label_name : Bytes → List Label → Seen → Result (Unit {0})
unfolding is_duplicate
check_label_name name labels seen =
    if is_duplicate name labels seen
    then err (duplicate_label name)
    else if leb max_labels_per_series (length labels)
    then err too_many_labels
    else ok tt

unfoldable pub record_label_name : Bytes → List Label → Seen → Seen
record_label_name name labels (some names) = some (name ∷ names)
record_label_name name labels none =
    if ltb duplicate_scan_linear_limit (length labels)
    then some (map (λ l. l.name) labels)
    else none
