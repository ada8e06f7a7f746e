-- ===== src/Recorder/Aes.antt =====
-- components/recorder/src/rsdk_crypto.c: the AES-256 of the software path, on lists of bytes. A word of
-- the round keys is a number below 2 ^ 32, its first byte the highest.
pub mod Output
use nt.Prelude.{
  All, ℕ, zero, suc, ◌+◌, ◌-◌, ◌*◌, ◌/◌, ◌%◌, ◌<◌, ◌≡◌, refl, arith, List, [], ◌∷◌, ◌++◌, map, Bool,
  true, ◌==◌, if◌then◌else◌, bit_xor, u8, u32, get_or,
}

unfoldable pub sbox : List ℕ
sbox =
    99 ∷ 124 ∷ 119 ∷ 123 ∷ 242 ∷ 107 ∷ 111 ∷ 197 ∷ 48 ∷ 1 ∷ 103 ∷ 43 ∷ 254 ∷ 215 ∷ 171 ∷ 118 ∷ 202
    ∷ 130 ∷ 201 ∷ 125 ∷ 250 ∷ 89 ∷ 71 ∷ 240 ∷ 173 ∷ 212 ∷ 162 ∷ 175 ∷ 156 ∷ 164 ∷ 114 ∷ 192 ∷ 183
    ∷ 253 ∷ 147 ∷ 38 ∷ 54 ∷ 63 ∷ 247 ∷ 204 ∷ 52 ∷ 165 ∷ 229 ∷ 241 ∷ 113 ∷ 216 ∷ 49 ∷ 21 ∷ 4 ∷ 199
    ∷ 35 ∷ 195 ∷ 24 ∷ 150 ∷ 5 ∷ 154 ∷ 7 ∷ 18 ∷ 128 ∷ 226 ∷ 235 ∷ 39 ∷ 178 ∷ 117 ∷ 9 ∷ 131 ∷ 44 ∷ 26
    ∷ 27 ∷ 110 ∷ 90 ∷ 160 ∷ 82 ∷ 59 ∷ 214 ∷ 179 ∷ 41 ∷ 227 ∷ 47 ∷ 132 ∷ 83 ∷ 209 ∷ 0 ∷ 237 ∷ 32
    ∷ 252 ∷ 177 ∷ 91 ∷ 106 ∷ 203 ∷ 190 ∷ 57 ∷ 74 ∷ 76 ∷ 88 ∷ 207 ∷ 208 ∷ 239 ∷ 170 ∷ 251 ∷ 67 ∷ 77
    ∷ 51 ∷ 133 ∷ 69 ∷ 249 ∷ 2 ∷ 127 ∷ 80 ∷ 60 ∷ 159 ∷ 168 ∷ 81 ∷ 163 ∷ 64 ∷ 143 ∷ 146 ∷ 157 ∷ 56
    ∷ 245 ∷ 188 ∷ 182 ∷ 218 ∷ 33 ∷ 16 ∷ 255 ∷ 243 ∷ 210 ∷ 205 ∷ 12 ∷ 19 ∷ 236 ∷ 95 ∷ 151 ∷ 68 ∷ 23
    ∷ 196 ∷ 167 ∷ 126 ∷ 61 ∷ 100 ∷ 93 ∷ 25 ∷ 115 ∷ 96 ∷ 129 ∷ 79 ∷ 220 ∷ 34 ∷ 42 ∷ 144 ∷ 136 ∷ 70
    ∷ 238 ∷ 184 ∷ 20 ∷ 222 ∷ 94 ∷ 11 ∷ 219 ∷ 224 ∷ 50 ∷ 58 ∷ 10 ∷ 73 ∷ 6 ∷ 36 ∷ 92 ∷ 194 ∷ 211 ∷ 172
    ∷ 98 ∷ 145 ∷ 149 ∷ 228 ∷ 121 ∷ 231 ∷ 200 ∷ 55 ∷ 109 ∷ 141 ∷ 213 ∷ 78 ∷ 169 ∷ 108 ∷ 86 ∷ 244
    ∷ 234 ∷ 101 ∷ 122 ∷ 174 ∷ 8 ∷ 186 ∷ 120 ∷ 37 ∷ 46 ∷ 28 ∷ 166 ∷ 180 ∷ 198 ∷ 232 ∷ 221 ∷ 116 ∷ 31
    ∷ 75 ∷ 189 ∷ 139 ∷ 138 ∷ 112 ∷ 62 ∷ 181 ∷ 102 ∷ 72 ∷ 3 ∷ 246 ∷ 14 ∷ 97 ∷ 53 ∷ 87 ∷ 185 ∷ 134
    ∷ 193 ∷ 29 ∷ 158 ∷ 225 ∷ 248 ∷ 152 ∷ 17 ∷ 105 ∷ 217 ∷ 142 ∷ 148 ∷ 155 ∷ 30 ∷ 135 ∷ 233 ∷ 206
    ∷ 85 ∷ 40 ∷ 223 ∷ 140 ∷ 161 ∷ 137 ∷ 13 ∷ 191 ∷ 230 ∷ 66 ∷ 104 ∷ 65 ∷ 153 ∷ 45 ∷ 15 ∷ 176 ∷ 84
    ∷ 187 ∷ 22 ∷ []

unfoldable pub rcon : List ℕ
rcon = 0 ∷ 1 ∷ 2 ∷ 4 ∷ 8 ∷ 16 ∷ 32 ∷ 64 ∷ 128 ∷ 27 ∷ 54 ∷ []

-- SBOX[x]
abbrev pub sub : ℕ → ℕ
unfolding sbox
sub x = get_or sbox x 0

-- The four bytes of a word and back.
abbrev pub word_bytes : ℕ → List ℕ
word_bytes w = u8 (w / 16777216) ∷ u8 (w / 65536) ∷ u8 (w / 256) ∷ u8 w ∷ []

abbrev pub word_of : ℕ → ℕ → ℕ → ℕ → ℕ
word_of a b c d = a * 16777216 + b * 65536 + c * 256 + d

unfoldable pub subword : ℕ → ℕ
unfolding sub
subword w =
    word_of (sub (u8 (w / 16777216))) (sub (u8 (w / 65536))) (sub (u8 (w / 256))) (sub (u8 w))

-- (t << 8) | (t >> 24)
abbrev pub rotword : ℕ → ℕ
rotword t = u32 (t * 256) + t / 16777216

-- The first eight words, those of the key.
unfoldable pub key_words : List ℕ → ℕ → ℕ → List ℕ
key_words key i zero = []
key_words key i (suc n) =
    word_of (get_or key (4 * i) 0) (get_or key (4 * i + 1) 0) (get_or key (4 * i + 2) 0)
      (get_or key (4 * i + 3) 0)
    ∷ key_words key (i + 1) n

-- What word `i` is combined with, from the word before it.
unfoldable pub key_step : ℕ → ℕ → ℕ
unfolding subword rcon
key_step i t =
    if i % 8 == 0
    then bit_xor (subword (rotword t)) (get_or rcon (i / 8) 0 * 16777216)
    else if i % 8 == 4
    then subword t
    else t

-- The words from `i` on, `n` of them, behind those that are there.
unfoldable pub key_expand : List ℕ → ℕ → ℕ → List ℕ
unfolding key_step
key_expand rk i zero = rk
key_expand rk i (suc n) =
    key_expand (rk ++ (bit_xor (get_or rk (i - 8) 0) (key_step i (get_or rk (i - 1) 0)) ∷ []))
      (i + 1) n

unfoldable pub aes256_key : List ℕ → List ℕ
unfolding key_words key_expand
aes256_key key = key_expand (key_words key 0 8) 8 52

unfoldable pub xtime : ℕ → ℕ
xtime x = bit_xor (u8 (x * 2)) (x / 128 * 27)

-- The bytes of one list changed by those of the other.
unfoldable pub xor_bytes : List ℕ → List ℕ → List ℕ
xor_bytes [] ks = []
xor_bytes (b ∷ bs) [] = b ∷ bs
xor_bytes (b ∷ bs) (k ∷ ks) = bit_xor b k ∷ xor_bytes bs ks

unfoldable pub add_round_key : List ℕ → ℕ → List ℕ → List ℕ
unfolding xor_bytes
add_round_key rk round s = xor_bytes s (
    word_bytes (get_or rk (round * 4) 0)
    ++ word_bytes (get_or rk (round * 4 + 1) 0)
    ++ word_bytes (get_or rk (round * 4 + 2) 0)
    ++ word_bytes (get_or rk (round * 4 + 3) 0))

unfoldable pub shifted_column : List ℕ → ℕ → List ℕ
shifted_column s c =
    get_or s (4 * c) 0
    ∷ get_or s (4 * ((c + 1) % 4) + 1) 0
    ∷ get_or s (4 * ((c + 2) % 4) + 2) 0
    ∷ get_or s (4 * ((c + 3) % 4) + 3) 0
    ∷ []

unfoldable pub shift_rows : List ℕ → List ℕ
unfolding shifted_column
shift_rows s = shifted_column s 0 ++ shifted_column s 1 ++ shifted_column s 2 ++ shifted_column s 3

-- a ^ b ^ c ^ d
abbrev pub xor4 : ℕ → ℕ → ℕ → ℕ → ℕ
xor4 a b c d = bit_xor (bit_xor (bit_xor a b) c) d

unfoldable pub mixed_column : ℕ → ℕ → ℕ → ℕ → List ℕ
unfolding xtime
mixed_column a0 a1 a2 a3 =
    xor4 (xtime a0) (bit_xor (xtime a1) a1) a2 a3
    ∷ xor4 a0 (xtime a1) (bit_xor (xtime a2) a2) a3
    ∷ xor4 a0 a1 (xtime a2) (bit_xor (xtime a3) a3)
    ∷ xor4 (bit_xor (xtime a0) a0) a1 a2 (xtime a3)
    ∷ []

unfoldable pub mix_columns : List ℕ → List ℕ
unfolding mixed_column
mix_columns (a0 ∷ a1 ∷ a2 ∷ a3 ∷ s) = mixed_column a0 a1 a2 a3 ++ mix_columns s
mix_columns [] = []
mix_columns (a ∷ []) = a ∷ []
mix_columns (a ∷ b ∷ []) = a ∷ b ∷ []
mix_columns (a ∷ b ∷ c ∷ []) = a ∷ b ∷ c ∷ []

-- The rounds from `r` on, `n` of them; the 14th mixes no columns.
unfoldable pub rounds : List ℕ → ℕ → ℕ → List ℕ → List ℕ
unfolding shift_rows mix_columns add_round_key sub
rounds rk r zero s = s
rounds rk r (suc n) s =
    let t = shift_rows (map sub s) in
    rounds rk (r + 1) n (add_round_key rk r (if r == 14 then t else mix_columns t))

unfoldable pub encrypt_block : List ℕ → List ℕ → List ℕ
unfolding rounds add_round_key
encrypt_block rk block = rounds rk 1 14 (add_round_key rk 0 block)
