-- ===== src/Base/Bits.antt =====
-- The bit operations as arithmetic: a low mask is a remainder, `| 1` sets the lowest digit, and
-- an exclusive or with all ones is a complement, at every width.
use Prim.Native.Nat.{
  ℕ, zero, suc, ◌+◌, ◌-◌, ◌*◌, ◌/◌, ◌%◌, ◌^◌, ◌≤◌, ◌<◌, min, max, differ, digits, bit_and, bit_or,
  bit_xor, bit_and-bitwise, bit_or-bitwise, bit_xor-bitwise,
}
use mathlib.Core.Path.{◌≡◌, refl, ap}
use native.Mathlib.Nat.{pow-suc, one-le-pow, le_refl}
use native.Mathlib.Omega.{arith}

-- The recursion on digits does not depend on its fuel, once that covers the first number.
module _ (rest : ℕ → ℕ) (digit : ℕ → ℕ → ℕ) where
  digits-enough : (n m a b : ℕ) → a ≤ n → a ≤ m → digits rest digit n a b ≡ digits rest digit m a b
  digits-enough zero zero a b p q = refl
  digits-enough zero (suc m) zero b p q = refl
  digits-enough zero (suc m) (suc a) b p q = absurd (omega arith)
  digits-enough (suc n) zero zero b p q = refl
  digits-enough (suc n) zero (suc a) b p q = absurd (omega arith)
  digits-enough (suc n) (suc m) zero b p q = refl
  digits-enough (suc n) (suc m) (suc a) b p q =
      ap (λ (t : ℕ). t * 2 + digit (suc a % 2) (b % 2))
        (digits-enough n m (suc a / 2) (b / 2) (omega arith) (omega arith))

  digits-lowest :
      (a b : ℕ)
      → digits rest digit (suc a) (suc a) b
        ≡ digits rest digit (suc a / 2) (suc a / 2) (b / 2) * 2 + digit (suc a % 2) (b % 2)
  digits-lowest a b =
      ap (λ (t : ℕ). t * 2 + digit (suc a % 2) (b % 2))
        (digits-enough a (suc a / 2) (suc a / 2) (b / 2) (omega arith) (le_refl _))

bit_and-lowest : (a b : ℕ) → bit_and a b ≡ bit_and (a / 2) (b / 2) * 2 + min (a % 2) (b % 2)
bit_and-lowest zero b = simp bit_and-bitwise (omega arith)
bit_and-lowest (suc a) b = simp bit_and-bitwise (digits-lowest (λ _. 0) min a b)

bit_or-lowest : (a b : ℕ) → bit_or a b ≡ bit_or (a / 2) (b / 2) * 2 + max (a % 2) (b % 2)
bit_or-lowest zero b = simp bit_or-bitwise (omega arith)
bit_or-lowest (suc a) b = simp bit_or-bitwise (digits-lowest (λ y. y) max a b)

zero-differ : (a : ℕ) → differ a 0 ≡ a
zero-differ zero = refl
zero-differ (suc a) = refl

differ-one : (a : ℕ) → a < 2 → differ a 1 ≡ 1 - a
differ-one zero h = refl
differ-one (suc zero) h = refl
differ-one (suc (suc a)) h = absurd (omega arith)

bit_xor-lowest : (a b : ℕ) → bit_xor a b ≡ bit_xor (a / 2) (b / 2) * 2 + differ (a % 2) (b % 2)
bit_xor-lowest zero b = simp bit_xor-bitwise (omega arith)
bit_xor-lowest (suc a) b = simp bit_xor-bitwise (digits-lowest (λ y. y) differ a b)

-- Each law holds for a first number below `n`, for every `n`.
bit_and_none : (n a : ℕ) → a < n → bit_and a 0 ≡ 0
bit_and_none zero a h = absurd (omega arith)
bit_and_none (suc n) zero h = refl
bit_and_none (suc n) (suc a) h =
    omega (arith, bit_and-lowest (suc a) 0, bit_and_none n (suc a / 2) (omega arith))

bit_or_none : (n a : ℕ) → a < n → bit_or a 0 ≡ a
bit_or_none zero a h = absurd (omega arith)
bit_or_none (suc n) zero h = refl
bit_or_none (suc n) (suc a) h =
    omega (arith, bit_or-lowest (suc a) 0, bit_or_none n (suc a / 2) (omega arith))

bit_xor_none : (n a : ℕ) → a < n → bit_xor a 0 ≡ a
bit_xor_none zero a h = absurd (omega arith)
bit_xor_none (suc n) zero h = refl
bit_xor_none (suc n) (suc a) h = omega (
  arith,
  bit_xor-lowest (suc a) 0,
  zero-differ (suc a % 2),
  bit_xor_none n (suc a / 2) (omega arith),
)

pub bit_xor-zero : (a : ℕ) → bit_xor a 0 ≡ a
bit_xor-zero a = bit_xor_none (suc a) a (omega arith)

mod-double : (m a : ℕ) → 0 < m → a % (2 * m) ≡ a / 2 % m * 2 + a % 2
mod-double m a h = grind (arith)

pub bit_and_mask : (k a : ℕ) → bit_and a (2 ^ k - 1) ≡ a % 2 ^ k
bit_and_mask zero a = omega (arith, bit_and_none (suc a) a)
bit_and_mask (suc k) a = ground (
  arith,
  bit_and-lowest a (2 ^ suc k - 1),
  pow-suc 2 k,
  one-le-pow k 2,
  bit_and_mask k (a / 2),
  mod-double (2 ^ k) a,
)

pub bit_or-one : (a : ℕ) → bit_or a 1 ≡ a / 2 * 2 + 1
bit_or-one a = omega (arith, bit_or-lowest a 1, bit_or_none (suc a) (a / 2))

pub bit_xor_ones : (k a : ℕ) → a < 2 ^ k → bit_xor a (2 ^ k - 1) ≡ 2 ^ k - 1 - a
bit_xor_ones zero a h = omega (arith, bit_xor_none (suc a) a)
bit_xor_ones (suc k) a h = ground (
  arith,
  bit_xor-lowest a (2 ^ suc k - 1),
  pow-suc 2 k,
  one-le-pow k 2,
  bit_xor_ones k (a / 2),
  differ-one (a % 2),
)
