-- ===== src/Wire/Read.antt =====
-- A reader of the protobuf wire format, by the format's own rules, and the proof that it reads
-- every printed message back.
use mathlib.Core.Option
use native.Mathlib.Nat.{pow-suc, add-zero}
use prometheus_scrape_rs.Base.{
  ℕ, zero, suc, ◌+◌, ◌*◌, ◌/◌, ◌%◌, ◌^◌, ◌≤◌, ◌<◌, List, [], ◌∷◌, ◌++◌, Bytes, length, take, drop,
  All, Option, none, some, arith, ◌≡◌, refl, ◌∙◌, append_assoc, if◌then◌else◌, ◌==◌, ltb, false,
  length-append, take-append_self, drop-append_self,
}
use prometheus_scrape_rs.Base.Int.{IsU64}
use prometheus_scrape_rs.Wire.{put_varint, le_bytes}
use prometheus_scrape_rs.Wire.Varint.{get_varint, get_varint-put_varint, put_varint-nonempty}
use prometheus_scrape_rs.Wire.Message.{Field, varint, fixed64, bytes, print_field, print}

infixl 5 ◌>>=◌
abbrev pub ◌>>=◌ {ℓ κ} : {A : Type ℓ} {B : Type κ} → Option A → (A → Option B) → Option B
none >>= f = none
some a >>= f = f a

-- `n` bytes, the lowest first.
unfoldable pub read_le : ℕ → Bytes → Option (ℕ × Bytes)
read_le zero b = some (0, b)
read_le (suc n) [] = none
read_le (suc n) (c ∷ b) = do (high, rest) ← read_le n b; some (c + 256 * high, rest)

unfoldable pub read_sized : Bytes → Option (Bytes × Bytes)
read_sized b = do
  (size, rest) ← get_varint b
  if ltb (length rest) size then none else some (take size rest, drop size rest)

-- The payload by its wire type.
unfoldable pub read_payload : ℕ → ℕ → Bytes → Option (Field × Bytes)
unfolding read_sized
read_payload n wire b =
    if wire == 0
    then Option.map (λ (v, rest). (varint n v, rest)) (get_varint b)
    else if wire == 1
    then Option.map (λ (v, rest). (fixed64 n v, rest)) (read_le 8 b)
    else if wire == 2
    then Option.map (λ (p, rest). (bytes n p, rest)) (read_sized b)
    else none

unfoldable pub read_field : Bytes → Option (Field × Bytes)
read_field b = do (key, rest) ← get_varint b; read_payload (key / 8) (key % 8) rest

-- Each field takes a byte at least, so the length of the message is fuel enough.
unfoldable pub read_fields : ℕ → Bytes → Option (List Field)
read_fields fuel [] = some []
read_fields zero (c ∷ b) = none
read_fields (suc fuel) (c ∷ b) = do
  (f, rest) ← read_field (c ∷ b)
  fs ← read_fields fuel rest
  some (f ∷ fs)

unfoldable pub read_message : Bytes → Option (List Field)
read_message b = read_fields (length b) b

-- A fixed field holds eight bytes.
abbrev pub IsField : Field → Type 0
IsField (varint n v) = Unit {0}
IsField (fixed64 n v) = IsU64 v
IsField (bytes n b) = Unit {0}

pub read_le-le_bytes :
    (n v : ℕ) (rest : Bytes) → v < 256 ^ n → read_le n (le_bytes n v ++ rest) ≡ some (v, rest)
unfolding read_le le_bytes
read_le-le_bytes zero v rest h = ground arith
read_le-le_bytes (suc n) v rest h =
    rw (read_le-le_bytes n (v / 256) rest (omega (arith, pow-suc 256 n))) (ground arith)

-- A payload of each wire type reads back.
module _ (n : ℕ) (rest : Bytes) where
  payload-varint : (v : ℕ) → read_payload n 0 (put_varint v [] ++ rest) ≡ some (varint n v, rest)
  unfolding read_payload
  payload-varint v = rw (get_varint-put_varint v rest)

  payload-fixed64 :
      (v : ℕ) → IsU64 v → read_payload n 1 (le_bytes 8 v ++ rest) ≡ some (fixed64 n v, rest)
  unfolding read_payload
  payload-fixed64 v u = rw (read_le-le_bytes 8 v rest u)

  payload-bytes :
      (b : Bytes)
      → read_payload n 2 (put_varint (length b) [] ++ (b ++ rest)) ≡ some (bytes n b, rest)
  unfolding read_payload
  payload-bytes b =
      let fits : ltb (length (b ++ rest)) (length b) ≡ false =
        ground (arith, length-append b rest) in
      rw (get_varint-put_varint (length b) (b ++ rest), fits, take-append_self, drop-append_self)

-- The key gives the number and the wire type back.
read_key :
    (n wire : ℕ) (payload : Bytes)
    → wire < 8
    → read_field (put_varint (n * 8 + wire) [] ++ payload) ≡ read_payload n wire payload
unfolding read_field
read_key n wire payload h =
    let number : (n * 8 + wire) / 8 ≡ n = omega arith in
    let kind : (n * 8 + wire) % 8 ≡ wire = omega arith in
    rw (get_varint-put_varint (n * 8 + wire) payload, number, kind)

read_field-print :
    (f : Field) (rest : Bytes) → IsField f → read_field (print_field f ++ rest) ≡ some (f, rest)
unfolding print_field
read_field-print (varint n v) rest u =
    rw (append_assoc, ← add-zero (n * 8)) (read_key n 0 _ (omega arith) ∙ payload-varint n rest v)
read_field-print (fixed64 n v) rest u =
    rw append_assoc (read_key n 1 _ (omega arith) ∙ payload-fixed64 n rest v u)
read_field-print (bytes n b) rest u =
    rw (append_assoc, append_assoc) (read_key n 2 _ (omega arith) ∙ payload-bytes n rest b)

-- A field is never empty: reading it needs fuel, and leaves less.
print_field-nonempty : (f : Field) → 0 < length (print_field f)
unfolding print_field
print_field-nonempty (varint n v) =
    omega (arith, length-append (put_varint (n * 8) []) (put_varint v []), put_varint-nonempty v)
print_field-nonempty (fixed64 n v) = omega (
  arith,
  length-append (put_varint (n * 8 + 1) []) (le_bytes 8 v),
  put_varint-nonempty (n * 8 + 1),
)
print_field-nonempty (bytes n b) = omega (
  arith,
  length-append (put_varint (n * 8 + 2) []) (put_varint (length b) [] ++ b),
  put_varint-nonempty (n * 8 + 2),
)

read_fields_step :
    (fuel : ℕ) (b rest : Bytes) (f : Field) (fs : List Field)
    → 0 < length b
    → read_field b ≡ some (f, rest)
    → read_fields fuel rest ≡ some fs
    → read_fields (suc fuel) b ≡ some (f ∷ fs)
unfolding read_fields
read_fields_step fuel [] rest f fs h p q = absurd (omega arith)
read_fields_step fuel (c ∷ b) rest f fs h p q = rw (p, q)

read_fields-print :
    (fuel : ℕ) (fs : List Field)
    → All IsField fs
    → length (print fs) ≤ fuel
    → read_fields fuel (print fs) ≡ some fs
unfolding print
read_fields-print fuel [] u h = unfold read_fields in refl
read_fields-print zero (f ∷ fs) u h =
    absurd (omega (arith, print_field-nonempty f, length-append (print_field f) (print fs)))
read_fields-print (suc fuel) (f ∷ fs) (u, us) h =
    let sizes : length (print_field f ++ print fs) ≡ length (print_field f) + length (print fs) =
      length-append (print_field f) (print fs) in
    let some_byte : 0 < length (print_field f) = print_field-nonempty f in
    read_fields_step fuel _ (print fs) f fs (omega arith) (read_field-print f (print fs) u)
      (read_fields-print fuel fs us (omega arith))

-- Reading a printed message gives its fields.
pub read_message-print : (fs : List Field) → All IsField fs → read_message (print fs) ≡ some fs
unfolding read_message
read_message-print fs u = read_fields-print (length (print fs)) fs u (omega arith)
