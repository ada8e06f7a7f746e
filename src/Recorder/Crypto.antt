-- ===== src/Recorder/Crypto.antt =====
-- `rsdk_crypto_xcrypt` of components/recorder/src/rsdk_crypto.c, the software path: AES in counter
-- mode, over the block function of the key. The keystream of a frame depends on its segment, its
-- number and the position.
use nt.Prelude.Bits.{bit_xor_cancel, bit_xor_byte, IsBytes, byte}
use nt.Prelude.{
  All, ℕ, ◌+◌, ◌/◌, ◌%◌, ◌<◌, ◌≡◌, refl, ap₂, arith, List, [], ◌∷◌, ◌==◌, if◌then◌else◌, bit_xor,
  u8, u64, length, get_or,
}

-- The counter block, big-endian.
abbrev pub counter : ℕ → ℕ → ℕ → List ℕ
counter seg seq blk =
    u8 (seg / 16777216)
    ∷ u8 (seg / 65536)
    ∷ u8 (seg / 256)
    ∷ u8 seg
    ∷ u8 (seq / 16777216)
    ∷ u8 (seq / 65536)
    ∷ u8 (seq / 256)
    ∷ u8 seq
    ∷ u8 (blk / 72057594037927936)
    ∷ u8 (blk / 281474976710656)
    ∷ u8 (blk / 1099511627776)
    ∷ u8 (blk / 4294967296)
    ∷ u8 (blk / 16777216)
    ∷ u8 (blk / 65536)
    ∷ u8 (blk / 256)
    ∷ u8 blk
    ∷ []

abbrev pub next_blk : ℕ → ℕ → ℕ
next_blk blk i = if i == 15 then u64 (blk + 1) else blk

abbrev pub next_byte : ℕ → ℕ
next_byte i = if i == 15 then 0 else i + 1

-- The bytes from byte `i` of block `blk` on.
unfoldable pub xcrypt_from : (List ℕ → List ℕ) → ℕ → ℕ → ℕ → ℕ → List ℕ → List ℕ
xcrypt_from aes seg seq blk i [] = []
xcrypt_from aes seg seq blk i (b ∷ bs) =
    bit_xor b (get_or (aes (counter seg seq blk)) i 0)
    ∷ xcrypt_from aes seg seq (next_blk blk i) (next_byte i) bs

unfoldable pub xcrypt : (List ℕ → List ℕ) → ℕ → ℕ → ℕ → List ℕ → List ℕ
xcrypt aes seg seq off bs = xcrypt_from aes seg seq (off / 16) (off % 16) bs

length-xcrypt_from :
    (aes : List ℕ → List ℕ) (seg seq blk i : ℕ) (bs : List ℕ)
    → length (xcrypt_from aes seg seq blk i bs) ≡ length bs
unfolding xcrypt_from
length-xcrypt_from aes seg seq blk i [] = refl
length-xcrypt_from aes seg seq blk i (b ∷ bs) =
    omega (arith, length-xcrypt_from aes seg seq (next_blk blk i) (next_byte i) bs)

xcrypt_from_twice :
    (aes : List ℕ → List ℕ) (seg seq blk i : ℕ) (bs : List ℕ)
    → ((block : List ℕ) (k : ℕ) → get_or (aes block) k 0 < 256)
    → All (λ b. b < 256) bs
    → xcrypt_from aes seg seq blk i (xcrypt_from aes seg seq blk i bs) ≡ bs
unfolding xcrypt_from
xcrypt_from_twice aes seg seq blk i [] h a = refl
xcrypt_from_twice aes seg seq blk i (b ∷ bs) h a =
    ap₂ ◌∷◌ (bit_xor_cancel b _ a.0 (h (counter seg seq blk) i))
      (xcrypt_from_twice aes seg seq (next_blk blk i) (next_byte i) bs h a.1)

pub length-xcrypt :
    (aes : List ℕ → List ℕ) (seg seq off : ℕ) (bs : List ℕ)
    → length (xcrypt aes seg seq off bs) ≡ length bs
unfolding xcrypt
length-xcrypt aes seg seq off bs = length-xcrypt_from aes seg seq (off / 16) (off % 16) bs

-- Encrypting twice with the same segment, frame number and offset gives the bytes back, for any
-- block function that returns bytes: decryption is encryption.
pub xcrypt_twice :
    (aes : List ℕ → List ℕ) (seg seq off : ℕ) (bs : List ℕ)
    → ((block : List ℕ) (k : ℕ) → get_or (aes block) k 0 < 256)
    → All (λ b. b < 256) bs
    → xcrypt aes seg seq off (xcrypt aes seg seq off bs) ≡ bs
unfolding xcrypt
xcrypt_twice aes seg seq off bs h a = xcrypt_from_twice aes seg seq (off / 16) (off % 16) bs h a

xcrypt_from-IsBytes :
    (aes : List ℕ → List ℕ) (seg seq blk i : ℕ) (bs : List ℕ)
    → ((block : List ℕ) (k : ℕ) → get_or (aes block) k 0 < 256)
    → IsBytes bs
    → IsBytes (xcrypt_from aes seg seq blk i bs)
unfolding xcrypt_from
xcrypt_from-IsBytes aes seg seq blk i [] h a = a
xcrypt_from-IsBytes aes seg seq blk i (b ∷ bs) h (byte low a) =
    byte (bit_xor_byte b _ low (h (counter seg seq blk) i))
      (xcrypt_from-IsBytes aes seg seq (next_blk blk i) (next_byte i) bs h a)

pub xcrypt-IsBytes :
    (aes : List ℕ → List ℕ) (seg seq off : ℕ) (bs : List ℕ)
    → ((block : List ℕ) (k : ℕ) → get_or (aes block) k 0 < 256)
    → IsBytes bs
    → IsBytes (xcrypt aes seg seq off bs)
unfolding xcrypt
xcrypt-IsBytes aes seg seq off bs h a = xcrypt_from-IsBytes aes seg seq (off / 16) (off % 16) bs h a
