-- ===== src/Hash.antt =====
-- src/hash.rs: the FxHash-style hasher. Its state is one `u64`.
use prometheus_scrape_rs.Base.{ℕ, ◌+◌, ◌*◌, ◌/◌, ◌%◌, ◌^◌, bit_xor, [], ◌∷◌, Bytes, length}

-- `FxHasher::SEED`
abbrev seed : ℕ
seed = 0x51_7c_c1_b7_27_22_0a_95

-- `rotate_left(5)`
abbrev rotate_left_five : ℕ → ℕ
rotate_left_five hash = hash * 2 ^ 5 % 2 ^ 64 + hash / 2 ^ 59

-- `FxHasher::add`
unfoldable pub add : ℕ → ℕ → ℕ
add hash word = bit_xor (rotate_left_five hash) word * seed % 2 ^ 64

-- `u64::from_le_bytes`; a tail of fewer than eight bytes is padded with zeros.
unfoldable pub from_le_bytes : Bytes → ℕ
from_le_bytes [] = 0
from_le_bytes (c ∷ cs) = c + 256 * from_le_bytes cs

-- The chunks of eight, then the tail, if there is one.
unfoldable pub write_chunks : ℕ → Bytes → ℕ
unfolding add from_le_bytes
write_chunks hash (a ∷ b ∷ c ∷ d ∷ e ∷ f ∷ g ∷ h ∷ rest) =
    write_chunks (add hash (from_le_bytes (a ∷ b ∷ c ∷ d ∷ e ∷ f ∷ g ∷ h ∷ []))) rest
write_chunks hash [] = hash
write_chunks hash rest = add hash (from_le_bytes rest)

-- `Hasher::write`
unfoldable pub write : ℕ → Bytes → ℕ
unfolding write_chunks add
write hash bytes = add (write_chunks hash bytes) (length bytes)

-- The hash of one byte string from the default state.
unfoldable pub hash_bytes : Bytes → ℕ
unfolding write
hash_bytes bytes = write 0 bytes
