-- ===== src/Wire/Zigzag.antt =====
-- `int64_bits` and `zigzag`: the numbers that stand for signed integers on the wire.
use prometheus_scrape_rs.Base.{
  ℕ, suc, ◌+◌, ◌-◌, ◌*◌, ◌/◌, ◌%◌, ◌^◌, ◌<◌, zero, if◌then◌else◌, ltb, arith, ◌≡◌, refl, ◌==◌,
  length, true,
}
use prometheus_scrape_rs.Base.Bits.{bit_xor-zero, bit_xor_ones}
use prometheus_scrape_rs.Base.Int.{ℤ, pos, negsuc, eqb_ℤ, IsI64, IsI32, IsU64}
use prometheus_scrape_rs.Wire.{int64_bits, zigzag, le_bytes}

-- The integer of a two's complement pattern, and that of a zigzag number.
unfoldable pub from_int64_bits : ℕ → ℤ
from_int64_bits bits = if ltb bits (2 ^ 63) then pos bits else negsuc (2 ^ 64 - 1 - bits)

unfoldable pub from_zigzag : ℕ → ℤ
from_zigzag n = if n % 2 == 0 then pos (n / 2) else negsuc (n / 2)

pub eqb_ℤ-eq : (a b : ℤ) → eqb_ℤ a b ≡ true → a ≡ b
eqb_ℤ-eq a b h = ground arith

-- The two branches of the exclusive or.
pub zigzag-pos : (n : ℕ) → n < 2 ^ 63 → zigzag (pos n) ≡ 2 * n
unfolding zigzag
zigzag-pos n h = rw bit_xor-zero (omega arith)

pub zigzag-negsuc : (n : ℕ) → n < 2 ^ 63 → zigzag (negsuc n) ≡ 2 * n + 1
unfolding zigzag
zigzag-negsuc n h = omega (arith, bit_xor_ones 64 ((2 ^ 64 - 1 - n) * 2 % 2 ^ 64) (omega arith))

-- Decoding the zigzag form of an `i64` gives it back.
pub from_zigzag-zigzag : (v : ℤ) → IsI64 v → from_zigzag (zigzag v) ≡ v
unfolding from_zigzag
from_zigzag-zigzag (pos n) h = rw (zigzag-pos n (omega arith)) (ground arith)
from_zigzag-zigzag (negsuc n) h = rw (zigzag-negsuc n (omega arith)) (ground arith)

pub zigzag-IsU64 : (v : ℤ) → IsI64 v → IsU64 (zigzag v)
zigzag-IsU64 (pos n) h = omega (arith, zigzag-pos n (omega arith))
zigzag-IsU64 (negsuc n) h = omega (arith, zigzag-negsuc n (omega arith))

pub from_int64_bits-int64_bits : (v : ℤ) → IsI64 v → from_int64_bits (int64_bits v) ≡ v
unfolding from_int64_bits int64_bits
from_int64_bits-int64_bits (pos n) h = ground arith
from_int64_bits-int64_bits (negsuc n) h = ground arith

pub int64_bits-IsU64 : (v : ℤ) → IsI64 v → IsU64 (int64_bits v)
unfolding int64_bits
int64_bits-IsU64 (pos n) h = omega arith
int64_bits-IsU64 (negsuc n) h = omega arith

pub IsI32-IsI64 : (v : ℤ) → IsI32 v → IsI64 v
IsI32-IsI64 v h = omega arith

-- `to_le_bytes`.
pub length-le_bytes : (n value : ℕ) → length (le_bytes n value) ≡ n
unfolding le_bytes
length-le_bytes zero value = refl
length-le_bytes (suc n) value = omega (arith, length-le_bytes n (value / 256))
