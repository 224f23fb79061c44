-- ===== src/Wire/Varint.antt =====
-- `put_varint` and `varint_len`: one step of the loop, the size, and reading back.
use mathlib.Core.WellFounded.{Acc}
use native.Mathlib.Nat.{pow-suc, one-le-pow}
use mathlib.Core.Option
use prometheus_scrape_rs.Base.{
  ℕ, zero, suc, ◌+◌, ◌-◌, ◌*◌, ◌/◌, ◌%◌, ◌^◌, ◌≤◌, ◌<◌, bit_and, bit_or, bit_xor, [], ◌∷◌, ◌++◌,
  Option, none, some, Bytes, ltb, ◌==◌, if◌then◌else◌, length, arith, ◌≡◌, refl, sym, ap, ◌∙◌,
  append_assoc, lt_wf, dec_lt, Bool, true, ◌&&◌,
}
use prometheus_scrape_rs.Base.Bits.{bit_and_mask, bit_or-one}
use prometheus_scrape_rs.Base.Int.{IsU64}
use prometheus_scrape_rs.Wire.{
  leading_zeros_from, leading_zeros, varint_len, put_varint_loop, put_varint,
}

-- Every number below `n` passes the test.
all_below : ℕ → (ℕ → Bool) → Bool
all_below zero p = true
all_below (suc n) p = p n && all_below n p

all_below→holds : (n : ℕ) (p : ℕ → Bool) (x : ℕ) → all_below n p ≡ true → x < n → p x ≡ true
unfolding all_below
all_below→holds zero p x h lt = absurd (omega arith)
all_below→holds (suc n) p x h lt = ground (arith, all_below→holds n p x)

set_top_table : all_below 128 (λ b. bit_or b 0x80 == b + 128) ≡ true
unfolding all_below
set_top_table = refl

set_top : (b : ℕ) → b < 128 → bit_or b 0x80 ≡ b + 128
set_top b h = ground (arith, all_below→holds 128 (λ b. bit_or b 0x80 == b + 128) b set_top_table h)

low_seven : (value : ℕ) → bit_and value 0x7f % 256 ≡ value % 128
low_seven value = omega (arith, bit_and_mask 7 value)

-- What one round pushes.
round_byte : (value : ℕ) → bit_or (bit_and value 0x7f % 256) 0x80 ≡ value % 128 + 128
round_byte value = rw low_seven (set_top _ (omega arith))

-- The bytes of a number, for a loop that starts with any proof of termination.
module _ where
  loop_last :
      (value : ℕ) (w : Acc ◌<◌ value) (buf : Bytes)
      → value < 128
      → put_varint_loop value w buf ≡ buf ++ value ∷ []
  unfolding put_varint_loop
  loop_last value (Acc.intro _ smaller) buf h = ground arith

  loop_same :
      (n value : ℕ) (w v : Acc ◌<◌ value) (buf : Bytes)
      → value < n
      → put_varint_loop value w buf ≡ put_varint_loop value v buf
  unfolding put_varint_loop
  loop_same zero value w v buf h = absurd (omega arith)
  loop_same (suc n) value (Acc.intro _ s) (Acc.intro _ t) buf h = grind (
    arith,
    λ (p : value / 128 < value) (q : value / 128 < value).
        loop_same n (value / 128) (s (value / 128) p) (t (value / 128) q)
          (buf ++ bit_or (bit_and value 0x7f % 256) 0x80 ∷ []) (omega arith),
  )

loop_round :
    (value : ℕ) (w : Acc ◌<◌ value) (v : Acc ◌<◌ (value / 128)) (buf : Bytes)
    → 128 ≤ value
    → put_varint_loop value w buf
      ≡ put_varint_loop (value / 128) v (buf ++ (value % 128 + 128) ∷ [])
unfolding put_varint_loop
loop_round value (Acc.intro _ smaller) v buf h = grind (
  arith,
  round_byte value,
  λ (p : value / 128 < value).
      loop_same (suc (value / 128)) (value / 128) (smaller (value / 128) p) v
        (buf ++ (value % 128 + 128) ∷ []) (omega arith),
)

-- A number below 128 is its own last byte; any other gives its low seven bits, marked, and goes on.
pub put_varint_last :
    (value : ℕ) (buf : Bytes) → value < 128 → put_varint value buf ≡ buf ++ value ∷ []
unfolding put_varint
put_varint_last value buf h = loop_last value (lt_wf.apply value) buf h

pub put_varint_round :
    (value : ℕ) (buf : Bytes)
    → 128 ≤ value
    → put_varint value buf ≡ put_varint (value / 128) (buf ++ (value % 128 + 128) ∷ [])
unfolding put_varint
put_varint_round value buf h =
    loop_round value (lt_wf.apply value) (lt_wf.apply (value / 128)) buf h

put_varint-append_below :
    (n value : ℕ) (buf : Bytes) → value < n → put_varint value buf ≡ buf ++ put_varint value []
put_varint-append_below zero value buf h = absurd (omega arith)
put_varint-append_below (suc n) value buf h = elim (dec_lt value 128) [
  | yes p ↦
      put_varint_last value buf p ∙ ap (λ (t : Bytes). buf ++ t) (sym (put_varint_last value [] p))
  | no p ↦
      put_varint_round value buf (omega arith)
      ∙ put_varint-append_below n (value / 128) _ (omega arith)
      ∙ append_assoc buf ((value % 128 + 128) ∷ []) _
      ∙ ap (λ (t : Bytes). buf ++ t)
          (sym (
            put_varint_round value [] (omega arith)
            ∙ put_varint-append_below n (value / 128) ((value % 128 + 128) ∷ []) (omega arith)))
]

-- The loop appends.
pub put_varint-append :
    (value : ℕ) (buf : Bytes) → put_varint value buf ≡ buf ++ put_varint value []
put_varint-append value buf = put_varint-append_below (suc value) value buf (omega arith)

-- The encoding of a number of two bytes or more, from its front.
pub put_varint-cons :
    (value : ℕ)
    → 128 ≤ value
    → put_varint value [] ≡ (value % 128 + 128) ∷ put_varint (value / 128) []
put_varint-cons value h =
    put_varint_round value [] h ∙ put_varint-append (value / 128) ((value % 128 + 128) ∷ [])

pow_seven : (k : ℕ) → 2 ^ suc (suc (suc (suc (suc (suc (suc k)))))) ≡ 128 * 2 ^ k
pow_seven k = simp (pow-suc 2) (omega arith)

-- A number of `k` + 1 significant bits takes `k` / 7 + 1 bytes.
length-put_varint_bits :
    (k value : ℕ) → 2 ^ k ≤ value → value < 2 ^ suc k → length (put_varint value []) ≡ k / 7 + 1
length-put_varint_bits (suc (suc (suc (suc (suc (suc (suc k))))))) value lo hi = omega (
  arith,
  ap length (put_varint-cons value big),
  length-put_varint_bits k (value / 128) (omega (arith, pow_seven k))
      (omega (arith, pow_seven (suc k))),
)
  where
    big : 128 ≤ value
    big = omega (arith, pow_seven k, one-le-pow k 2)
length-put_varint_bits k value lo hi = ap length (put_varint_last value [] (omega arith))

-- `leading_zeros` finds the highest bit.
leading_zeros_from_bits :
    (width value : ℕ)
    → 1 ≤ value
    → value < 2 ^ width
    → (k : ℕ) × (k < width)
      × (leading_zeros_from width value + k + 1 ≡ width)
      × (2 ^ k ≤ value)
      × (value < 2 ^ suc k)
unfolding leading_zeros_from
leading_zeros_from_bits zero value lo hi = absurd (omega arith)
leading_zeros_from_bits (suc width) value lo hi = elim (dec_lt value (2 ^ width)) [
  | yes p ↦
      let (k, below, sum, at_least, under) = leading_zeros_from_bits width value lo p in
      (k, omega arith, ground (arith, sum), at_least, under)
  | no p ↦ (width, omega arith, ground arith, omega arith, hi)
]

xor_table : all_below 64 (λ k. bit_xor (63 - k) 63 == k) ≡ true
unfolding all_below
xor_table = refl

xor_below : (k : ℕ) → k < 64 → bit_xor (63 - k) 63 ≡ k
xor_below k h = ground (arith, all_below→holds 64 (λ k. bit_xor (63 - k) 63 == k) k xor_table h)

varint_len_bits :
    (k value : ℕ)
    → k < 64
    → leading_zeros (bit_or value 1) + k + 1 ≡ 64
    → varint_len value ≡ k / 7 + 1
unfolding varint_len
varint_len_bits k value h e =
    let zeros : leading_zeros (bit_or value 1) ≡ 63 - k = omega arith in
    rw (zeros, xor_below k h) (omega arith)

odd-bits : (k value : ℕ) → 2 ^ suc k ≤ value / 2 * 2 + 1 → 2 ^ suc k ≤ value
odd-bits k value h = omega (arith, pow-suc 2 k)

bits-even : (k value : ℕ) → value / 2 * 2 + 1 < 2 ^ suc k → value < 2 ^ suc k
bits-even k value h = omega (arith, pow-suc 2 k)

-- The size without a loop is the number of bytes that the loop writes, for every `u64`.
pub varint_len-put_varint :
    (value : ℕ) → IsU64 value → varint_len value ≡ length (put_varint value [])
unfolding leading_zeros
varint_len-put_varint value h =
    let odd : bit_or value 1 ≡ value / 2 * 2 + 1 = bit_or-one value in
    let (k, below, sum, at_least, under) =
      leading_zeros_from_bits 64 (bit_or value 1) (omega arith) (omega arith) in
    varint_len_bits k value below sum ∙ by_bits k (rw odd at at_least) (rw odd at under)
  where
    by_bits :
        (k : ℕ)
        → 2 ^ k ≤ value / 2 * 2 + 1
        → value / 2 * 2 + 1 < 2 ^ suc k
        → k / 7 + 1 ≡ length (put_varint value [])
    by_bits zero lo hi = sym (ap length (put_varint_last value [] (omega arith)))
    by_bits (suc k) lo hi =
        sym
          (length-put_varint_bits (suc k) value (odd-bits k value lo) (bits-even (suc k) value hi))

-- Reading: low groups of seven bits first, and a byte below 128 is the last.
unfoldable pub get_varint : Bytes → Option (ℕ × Bytes)
get_varint [] = none
get_varint (b ∷ bs) =
    if ltb b 128
    then some (b, bs)
    else Option.map (λ (v, rest). (b - 128 + 128 * v, rest)) (get_varint bs)

get_varint-put_varint_below :
    (n value : ℕ) (rest : Bytes)
    → value < n
    → get_varint (put_varint value [] ++ rest) ≡ some (value, rest)
unfolding get_varint
get_varint-put_varint_below zero value rest h = absurd (omega arith)
get_varint-put_varint_below (suc n) value rest h = elim (dec_lt value 128) [
  | yes p ↦ rw (put_varint_last value [] p) (ground arith)
  | no p ↦
      rw (put_varint-cons value (omega arith))
        (ground (arith, get_varint-put_varint_below n (value / 128) rest (omega arith)))
]

-- What the loop writes reads back as the number, whatever follows it.
pub get_varint-put_varint :
    (value : ℕ) (rest : Bytes) → get_varint (put_varint value [] ++ rest) ≡ some (value, rest)
get_varint-put_varint value rest = get_varint-put_varint_below (suc value) value rest (omega arith)

pub put_varint-nonempty : (value : ℕ) → 0 < length (put_varint value [])
put_varint-nonempty value = elim (dec_lt value 128) [
  | yes p ↦ omega (arith, ap length (put_varint_last value [] p))
  | no p ↦ omega (arith, ap length (put_varint-cons value (omega arith)))
]
