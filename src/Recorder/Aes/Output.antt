-- ===== src/Recorder/Aes/Output.antt =====
-- What the block function gives are bytes, whatever it is given.
use nt.Prelude.{
  ap, ◌∙◌, length, ℕ, zero, suc, ◌+◌, ◌*◌, ◌/◌, ◌<◌, ◌≡◌, refl, arith, List, [], ◌∷◌, map, ◌==◌,
  if_both, u8, get_or,
}
use nt.Prelude.Bits.{
  IsBytes, no_bytes, byte, bit_xor_byte, get_or-IsBytes, append-IsBytes, IsBytes-of_All,
}
use nt.Recorder.Aes.{
  sbox, sub, word_bytes, xtime, xor_bytes, add_round_key, shifted_column, shift_rows, xor4,
  mixed_column, mix_columns, rounds, encrypt_block,
}

sbox-IsBytes : IsBytes sbox
unfolding sbox
sbox-IsBytes = IsBytes-of_All sbox (ground arith)

sub-byte : (x : ℕ) → sub x < 256
unfolding sub
sub-byte x = get_or-IsBytes sbox x sbox-IsBytes

map-sub : (s : List ℕ) → IsBytes (map sub s)
map-sub [] = no_bytes
map-sub (x ∷ s) = byte (sub-byte x) (map-sub s)

xor_bytes-IsBytes : (bs ks : List ℕ) → IsBytes bs → IsBytes ks → IsBytes (xor_bytes bs ks)
unfolding xor_bytes
xor_bytes-IsBytes [] ks a h = no_bytes
xor_bytes-IsBytes (b ∷ bs) [] a h = a
xor_bytes-IsBytes (b ∷ bs) (k ∷ ks) (byte x a) (byte y h) =
    byte (bit_xor_byte b k x y) (xor_bytes-IsBytes bs ks a h)

word_bytes-IsBytes : (w : ℕ) → IsBytes (word_bytes w)
word_bytes-IsBytes w =
    byte (omega arith) (byte (omega arith) (byte (omega arith) (byte (omega arith) no_bytes)))

add_round_key-IsBytes :
    (rk : List ℕ) (r : ℕ) (s : List ℕ) → IsBytes s → IsBytes (add_round_key rk r s)
unfolding add_round_key
add_round_key-IsBytes rk r s a = xor_bytes-IsBytes s _ a (
    append-IsBytes (word_bytes-IsBytes _) (
      append-IsBytes (word_bytes-IsBytes _)
        (append-IsBytes (word_bytes-IsBytes _) (word_bytes-IsBytes _))))

shifted_column-IsBytes : (s : List ℕ) (c : ℕ) → IsBytes s → IsBytes (shifted_column s c)
unfolding shifted_column
shifted_column-IsBytes s c a =
    let at = λ (i : ℕ). get_or-IsBytes s i a in
    byte (at _) (byte (at _) (byte (at _) (byte (at _) no_bytes)))

shift_rows-IsBytes : (s : List ℕ) → IsBytes s → IsBytes (shift_rows s)
unfolding shift_rows
shift_rows-IsBytes s a = append-IsBytes (shifted_column-IsBytes s 0 a) (
    append-IsBytes (shifted_column-IsBytes s 1 a)
      (append-IsBytes (shifted_column-IsBytes s 2 a) (shifted_column-IsBytes s 3 a)))

xtime-byte : (x : ℕ) → x < 256 → xtime x < 256
unfolding xtime
xtime-byte x h = bit_xor_byte (u8 (x * 2)) (x / 128 * 27) (omega arith) (omega arith)

xor4-byte : (a b c d : ℕ) → a < 256 → b < 256 → c < 256 → d < 256 → xor4 a b c d < 256
xor4-byte a b c d ha hb hc hd = bit_xor_byte _ d (bit_xor_byte _ c (bit_xor_byte a b ha hb) hc) hd

mixed_column-IsBytes :
    (a b c d : ℕ) → a < 256 → b < 256 → c < 256 → d < 256 → IsBytes (mixed_column a b c d)
unfolding mixed_column
mixed_column-IsBytes a b c d ha hb hc hd =
    let two = xtime-byte in
    let three = λ (x : ℕ) (h : x < 256). bit_xor_byte (xtime x) x (xtime-byte x h) h in
    byte (xor4-byte _ _ _ _ (two a ha) (three b hb) hc hd) (
      byte (xor4-byte _ _ _ _ ha (two b hb) (three c hc) hd) (
        byte (xor4-byte _ _ _ _ ha hb (two c hc) (three d hd))
          (byte (xor4-byte _ _ _ _ (three a ha) hb hc (two d hd)) no_bytes)))

mix_columns-IsBytes : (s : List ℕ) → IsBytes s → IsBytes (mix_columns s)
unfolding mix_columns
mix_columns-IsBytes [] h = h
mix_columns-IsBytes (a ∷ []) h = h
mix_columns-IsBytes (a ∷ b ∷ []) h = h
mix_columns-IsBytes (a ∷ b ∷ c ∷ []) h = h
mix_columns-IsBytes (a ∷ b ∷ c ∷ d ∷ s) (byte ha (byte hb (byte hc (byte hd h)))) =
    append-IsBytes (mixed_column-IsBytes a b c d ha hb hc hd) (mix_columns-IsBytes s h)

rounds-IsBytes : (rk : List ℕ) (r n : ℕ) (s : List ℕ) → IsBytes s → IsBytes (rounds rk r n s)
unfolding rounds
rounds-IsBytes rk r zero s a = a
rounds-IsBytes rk r (suc n) s a =
    let t = shift_rows-IsBytes (map sub s) (map-sub s) in
    rounds-IsBytes rk (r + 1) n _
      (add_round_key-IsBytes rk r _ (if_both IsBytes (r == 14) t (mix_columns-IsBytes _ t)))

length-xor_bytes : (bs ks : List ℕ) → length (xor_bytes bs ks) ≡ length bs
unfolding xor_bytes
length-xor_bytes [] ks = refl
length-xor_bytes (b ∷ bs) [] = refl
length-xor_bytes (b ∷ bs) (k ∷ ks) = ap suc (length-xor_bytes bs ks)

length-mix_columns : (s : List ℕ) → length (mix_columns s) ≡ length s
unfolding mix_columns mixed_column
length-mix_columns [] = refl
length-mix_columns (a ∷ []) = refl
length-mix_columns (a ∷ b ∷ []) = refl
length-mix_columns (a ∷ b ∷ c ∷ []) = refl
length-mix_columns (a ∷ b ∷ c ∷ d ∷ s) = omega (arith, length-mix_columns s)

length-shift_rows : (s : List ℕ) → length (shift_rows s) ≡ 16
unfolding shift_rows shifted_column
length-shift_rows s = refl

length-add_round_key : (rk : List ℕ) (r : ℕ) (s : List ℕ) → length (add_round_key rk r s) ≡ length s
unfolding add_round_key
length-add_round_key rk r s = length-xor_bytes s _

length-rounds : (rk : List ℕ) (r n : ℕ) (s : List ℕ) → length s ≡ 16 → length (rounds rk r n s) ≡ 16
unfolding rounds
length-rounds rk r zero s e = e
length-rounds rk r (suc n) s e =
    let t = shift_rows (map sub s) in
    length-rounds rk (r + 1) n _ (
      length-add_round_key rk r _
      ∙ if_both (λ (x : List ℕ). length x ≡ 16) (r == 14) (length-shift_rows (map sub s))
          (length-mix_columns t ∙ length-shift_rows (map sub s)))

pub length-encrypt_block :
    (rk block : List ℕ) → length block ≡ 16 → length (encrypt_block rk block) ≡ 16
unfolding encrypt_block
length-encrypt_block rk block e = length-rounds rk 1 14 _ (length-add_round_key rk 0 block ∙ e)

pub encrypt_block-IsBytes : (rk block : List ℕ) → IsBytes (encrypt_block rk block)
unfolding encrypt_block rounds
encrypt_block-IsBytes rk block =
    let s = add_round_key rk 0 block in
    let t = shift_rows-IsBytes (map sub s) (map-sub s) in
    rounds-IsBytes rk 2 13 (add_round_key rk 1 (mix_columns (shift_rows (map sub s))))
      (add_round_key-IsBytes rk 1 _ (mix_columns-IsBytes _ t))

pub encrypt_block-byte : (rk block : List ℕ) (k : ℕ) → get_or (encrypt_block rk block) k 0 < 256
encrypt_block-byte rk block k = get_or-IsBytes _ k (encrypt_block-IsBytes rk block)
