-- ===== src/Wire/Packed.antt =====
-- A reader of the repeated fields of a histogram message: packed numbers and spans.
use mathlib.Core.Option
use prometheus_scrape_rs.Base.{
  ℕ, zero, suc, ◌≤◌, ◌<◌, List, [], ◌∷◌, Bytes, length, length-append, All, Option, none, some,
  arith, ◌≡◌, refl, ap, ◌∙◌, if◌then◌else◌, ◌==◌,
}
use prometheus_scrape_rs.Base.Int.{ℤ, pos, IsI64, IsU64}
use prometheus_scrape_rs.Model.{Float, BucketSpan, IsSpan}
use prometheus_scrape_rs.Wire.{put_varint, le_bytes, zigzag}
use prometheus_scrape_rs.Wire.Varint.{get_varint, get_varint-put_varint, put_varint-nonempty}
use prometheus_scrape_rs.Wire.Zigzag.{
  from_zigzag, from_zigzag-zigzag, IsI32-IsI64, length-le_bytes, eqb_ℤ-eq,
}
use prometheus_scrape_rs.Wire.Message.{
  Field, varint, fixed64, bytes, print, delta_bytes, double_bytes, span_message, sint_field,
  uint_field,
}
use prometheus_scrape_rs.Wire.Fields.{span_message-IsField}
use prometheus_scrape_rs.Wire.Read.{
  read_le, read_le-le_bytes, read_message, read_message-print, ◌>>=◌,
}

-- Each number takes a byte at least, so the length of the payload is fuel enough.
unfoldable pub read_deltas : ℕ → Bytes → Option (List ℤ)
read_deltas fuel [] = some []
read_deltas zero (c ∷ b) = none
read_deltas (suc fuel) (c ∷ b) = do
  (v, rest) ← get_varint (c ∷ b)
  ds ← read_deltas fuel rest
  some (from_zigzag v ∷ ds)

unfoldable pub read_doubles : ℕ → Bytes → Option (List Float)
read_doubles fuel [] = some []
read_doubles zero (c ∷ b) = none
read_doubles (suc fuel) (c ∷ b) = do
  (v, rest) ← read_le 8 (c ∷ b)
  vs ← read_doubles fuel rest
  some (v ∷ vs)

read_deltas_step :
    (fuel v : ℕ) (b rest : Bytes) (ds : List ℤ)
    → 0 < length b
    → get_varint b ≡ some (v, rest)
    → read_deltas fuel rest ≡ some ds
    → read_deltas (suc fuel) b ≡ some (from_zigzag v ∷ ds)
unfolding read_deltas
read_deltas_step fuel v [] rest ds h p q = absurd (omega arith)
read_deltas_step fuel v (c ∷ b) rest ds h p q = rw (p, q)

read_deltas-bytes :
    (fuel : ℕ) (ds : List ℤ)
    → All IsI64 ds
    → length (delta_bytes ds) ≤ fuel
    → read_deltas fuel (delta_bytes ds) ≡ some ds
unfolding delta_bytes
read_deltas-bytes fuel [] r h = unfold read_deltas in refl
read_deltas-bytes zero (d ∷ ds) r h = absurd (
    omega (
      arith,
      put_varint-nonempty (zigzag d),
      length-append (put_varint (zigzag d) []) (delta_bytes ds),
    ))
read_deltas-bytes (suc fuel) (d ∷ ds) (r, rs) h =
    let sizes = length-append (put_varint (zigzag d) []) (delta_bytes ds) in
    let some_byte = put_varint-nonempty (zigzag d) in
    read_deltas_step fuel (zigzag d) _ (delta_bytes ds) ds (omega (arith, sizes, some_byte))
      (get_varint-put_varint (zigzag d) (delta_bytes ds))
      (read_deltas-bytes fuel ds rs (omega (arith, sizes, some_byte)))
    ∙ ap (λ v. some (v ∷ ds)) (from_zigzag-zigzag d r)

read_doubles_step :
    (fuel v : ℕ) (b rest : Bytes) (vs : List Float)
    → 0 < length b
    → read_le 8 b ≡ some (v, rest)
    → read_doubles fuel rest ≡ some vs
    → read_doubles (suc fuel) b ≡ some (v ∷ vs)
unfolding read_doubles
read_doubles_step fuel v [] rest vs h p q = absurd (omega arith)
read_doubles_step fuel v (c ∷ b) rest vs h p q = rw (p, q)

read_doubles-bytes :
    (fuel : ℕ) (vs : List Float)
    → All IsU64 vs
    → length (double_bytes vs) ≤ fuel
    → read_doubles fuel (double_bytes vs) ≡ some vs
unfolding double_bytes
read_doubles-bytes fuel [] r h = unfold read_doubles in refl
read_doubles-bytes zero (v ∷ vs) r h =
    absurd (omega (arith, length-le_bytes 8 v, length-append (le_bytes 8 v) (double_bytes vs)))
read_doubles-bytes (suc fuel) (v ∷ vs) (r, rs) h =
    let sizes = length-append (le_bytes 8 v) (double_bytes vs) in
    let eight = length-le_bytes 8 v in
    read_doubles_step fuel v _ (double_bytes vs) vs (omega (arith, sizes, eight))
      (read_le-le_bytes 8 v (double_bytes vs) r)
      (read_doubles-bytes fuel vs rs (omega (arith, sizes, eight)))

unfoldable pub read_packed_deltas : Bytes → Option (List ℤ)
read_packed_deltas b = read_deltas (length b) b

unfoldable pub read_packed_doubles : Bytes → Option (List Float)
read_packed_doubles b = read_doubles (length b) b

pub read_packed_deltas-bytes :
    (ds : List ℤ) → All IsI64 ds → read_packed_deltas (delta_bytes ds) ≡ some ds
unfolding read_packed_deltas
read_packed_deltas-bytes ds r = read_deltas-bytes (length (delta_bytes ds)) ds r (omega arith)

pub read_packed_doubles-bytes :
    (vs : List Float) → All IsU64 vs → read_packed_doubles (double_bytes vs) ≡ some vs
unfolding read_packed_doubles
read_packed_doubles-bytes vs r = read_doubles-bytes (length (double_bytes vs)) vs r (omega arith)

unfoldable pub read_span_from : BucketSpan → List Field → BucketSpan
read_span_from s [] = s
read_span_from s (varint n v ∷ fs) =
    read_span_from
      (if n == 1
        then record s { offset = from_zigzag v }
        else if n == 2
        then record s { length = v }
        else s)
      fs
read_span_from s (fixed64 n v ∷ fs) = read_span_from s fs
read_span_from s (bytes n b ∷ fs) = read_span_from s fs

unfoldable pub read_span : Bytes → Option BucketSpan
read_span b = Option.map (read_span_from (record { offset = pos 0; length = 0 })) (read_message b)

read_span-message :
    (s : BucketSpan)
    → IsSpan s
    → read_span_from (record { offset = pos 0; length = 0 }) (span_message s) ≡ s
unfolding read_span_from span_message sint_field uint_field
read_span-message s r = ground (
  arith,
  eqb_ℤ-eq s.offset (pos 0),
  from_zigzag-zigzag s.offset (IsI32-IsI64 s.offset r.offset_range),
)

pub read_span-print : (s : BucketSpan) → IsSpan s → read_span (print (span_message s)) ≡ some s
unfolding read_span
read_span-print s r =
    rw (read_message-print (span_message s) (span_message-IsField s))
      (ap some (read_span-message s r))
