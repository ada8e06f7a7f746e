-- ===== src/Prelude/Bits.antt =====
-- Bytes under exclusive or.
use nt.Prelude.Bytes.{le, from_le}
use nt.Prelude.{
  All, ℕ, zero, suc, ◌+◌, ◌<◌, ◌≤◌, ◌≡◌, refl, arith, List, [], ◌∷◌, ◌++◌, Bool, true, ◌&&◌, ◌==◌,
  ==_iff, ltb, ltb→lt, ◌*◌, ◌/◌, ◌%◌, ap, ap₂, ◌∙◌, length, take, ltb→lt, ℕ_discrete, bit_xor,
  get_or,
}

-- A test that holds for `n` numbers from `i` on.
holds_from : (ℕ → Bool) → ℕ → ℕ → Bool
holds_from f i zero = true
holds_from f i (suc n) = f i && holds_from f (i + 1) n

holds_at : (f : ℕ → Bool) (n i k : ℕ) → holds_from f i n ≡ true → i ≤ k → k < i + n → f k ≡ true
unfolding holds_from
holds_at f zero i k e lo hi = absurd (omega arith)
holds_at f (suc n) i k e lo hi = elim (ℕ_discrete i k) [
  | yes h ↦ ground (arith, e, h)
  | no h ↦ holds_at f n (i + 1) k (ground (arith, e)) (omega arith) (omega arith)
]

-- The bytes are few enough to try all pairs.
xor_pairs : holds_from (λ x. holds_from (λ k. bit_xor (bit_xor x k) k == x) 0 256) 0 256 ≡ true
unfolding holds_from
xor_pairs = refl

pub bit_xor_cancel : (x k : ℕ) → x < 256 → k < 256 → bit_xor (bit_xor x k) k ≡ x
bit_xor_cancel x k hx hk =
    let row =
      holds_at (λ y. holds_from (λ j. bit_xor (bit_xor y j) j == y) 0 256) 256 0 x xor_pairs
        (omega arith) (omega arith) in
    (==_iff _ x).0
      (holds_at (λ j. bit_xor (bit_xor x j) j == x) 256 0 k row (omega arith) (omega arith))

xor_rows : holds_from (λ x. holds_from (λ k. ltb (bit_xor x k) 256) 0 256) 0 256 ≡ true
unfolding holds_from
xor_rows = refl

pub bit_xor_byte : (x k : ℕ) → x < 256 → k < 256 → bit_xor x k < 256
bit_xor_byte x k hx hk =
    let row =
      holds_at (λ y. holds_from (λ j. ltb (bit_xor y j) 256) 0 256) 256 0 x xor_rows (omega arith)
        (omega arith) in
    ltb→lt (bit_xor x k) 256
      (holds_at (λ j. ltb (bit_xor x j) 256) 256 0 k row (omega arith) (omega arith))

pub data IsBytes : List ℕ → Type 0 where
  no_bytes : IsBytes []
  byte : {b : ℕ} {bs : List ℕ} → b < 256 → IsBytes bs → IsBytes (b ∷ bs)

pub get_or-IsBytes : (bs : List ℕ) (i : ℕ) → IsBytes bs → get_or bs i 0 < 256
get_or-IsBytes [] i no_bytes = omega arith
get_or-IsBytes (b ∷ bs) zero (byte h a) = h
get_or-IsBytes (b ∷ bs) (suc i) (byte h a) = get_or-IsBytes bs i a

pub append-IsBytes : {xs ys : List ℕ} → IsBytes xs → IsBytes ys → IsBytes (xs ++ ys)
append-IsBytes no_bytes b = b
append-IsBytes (byte h a) b = byte h (append-IsBytes a b)

pub IsBytes-of_All : (bs : List ℕ) → All (λ b. b < 256) bs → IsBytes bs
IsBytes-of_All [] a = no_bytes
IsBytes-of_All (b ∷ bs) a = byte a.0 (IsBytes-of_All bs a.1)

pub le-from_le : (bs : List ℕ) → IsBytes bs → le (length bs) (from_le bs) ≡ bs
unfolding le from_le
le-from_le [] no_bytes = refl
le-from_le (b ∷ bs) (byte h a) =
    let low : (b + 256 * from_le bs) % 256 ≡ b = omega arith in
    let high : (b + 256 * from_le bs) / 256 ≡ from_le bs = omega arith in
    ap₂ ◌∷◌ low (ap (le (length bs)) high ∙ le-from_le bs a)

pub take-IsBytes : (n : ℕ) (bs : List ℕ) → IsBytes bs → IsBytes (take n bs)
take-IsBytes zero bs a = no_bytes
take-IsBytes (suc n) [] a = a
take-IsBytes (suc n) (b ∷ bs) (byte h a) = byte h (take-IsBytes n bs a)
