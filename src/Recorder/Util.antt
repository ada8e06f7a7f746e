-- ===== src/Recorder/Util.antt =====
-- components/recorder/src/rsdk_util.c: the table-driven CRC-32 and rounding up.
use nt.Prelude.{
  ℕ, zero, suc, ◌+◌, ◌-◌, ◌*◌, ◌/◌, ◌%◌, ◌≤◌, ◌<◌, ◌≡◌, refl, ap, arith, List, [], ◌∷◌, bit_xor,
  ◌==◌, if◌then◌else◌, u32,
}

-- `k` rounds of the inner loop of the table's initialisation.
crc_bits : ℕ → ℕ → ℕ
crc_bits zero c = c
crc_bits (suc k) c = crc_bits k (if c % 2 == 1 then bit_xor 0xEDB88320 (c / 2) else c / 2)

-- `tab[i]`.
crc_tab : ℕ → ℕ
crc_tab i = crc_bits 8 i

crc_loop : ℕ → List ℕ → ℕ
crc_loop c [] = c
crc_loop c (b ∷ bs) = crc_loop (bit_xor (crc_tab (bit_xor c b % 256)) (c / 256)) bs

unfoldable pub crc32 : List ℕ → ℕ
unfolding crc_loop crc_tab crc_bits
crc32 bs = u32 (bit_xor (crc_loop 0xFFFFFFFF bs) 0xFFFFFFFF)

pub crc32-lt : (bs : List ℕ) → crc32 bs < 4294967296
unfolding crc32
crc32-lt bs = omega arith

-- The check value of CRC-32 over "123456789".
crc32_check : crc32 (49 ∷ 50 ∷ 51 ∷ 52 ∷ 53 ∷ 54 ∷ 55 ∷ 56 ∷ 57 ∷ []) ≡ 0xCBF43926
unfolding crc32
crc32_check = refl

abbrev pub align_up : ℕ → ℕ → ℕ
align_up v a = (v + a - 1) / a * a

-- The same in uint64_t, for an alignment that is not 0.
abbrev pub align_up64 : ℕ → ℕ → ℕ
align_up64 v a = (v + a - 1) % 18446744073709551616 / a * a

pub align_up64_exact :
    (v a : ℕ) → 0 < a → v + a ≤ 18446744073709551616 → align_up64 v a ≡ align_up v a
align_up64_exact v a pos h =
    let same : (v + a - 1) % 18446744073709551616 ≡ v + a - 1 = omega arith in
    ap (λ x. x / a * a) same

-- Rounding up gives the least multiple of the alignment that is not below the value.
pub align_up_bounds :
    (v a : ℕ) → 0 < a → (v ≤ align_up v a) × (align_up v a < v + a) × (align_up v a % a ≡ 0)
align_up_bounds v a h = grind arith

pub align_up-ge : (v a : ℕ) → 0 < v → 0 < a → a ≤ align_up v a
align_up-ge v a hv h = omega (arith, one_le ((v + a - 1) / a) (grind arith))
  where
    one_le : (q : ℕ) → 0 < q → a ≤ q * a
    one_le q hq = grind arith
