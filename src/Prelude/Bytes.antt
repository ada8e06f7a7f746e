-- ===== src/Prelude/Bytes.antt =====
-- Little-endian fields of packed structs, and byte stores that are read and written by ranges.
use nt.Prelude.{
  All, subst, ℕ, zero, suc, ◌+◌, ◌-◌, ◌*◌, ◌/◌, ◌%◌, ◌^◌, ◌≤◌, ◌<◌, ◌≡◌, refl, ap, ap₂, ◌∙◌, ◌⊎◌,
  List, [], ◌∷◌, ◌++◌, arith, ltb, leb, if◌then◌else◌, ◌&&◌, length, get_or, take, drop,
  length-append, take-append, drop-append,
}
use native.Mathlib.Nat.{pow-suc}

-- `n` bytes of `x`, the lowest first.
unfoldable pub le : ℕ → ℕ → List ℕ
le zero x = []
le (suc n) x = x % 256 ∷ le n (x / 256)

unfoldable pub from_le : List ℕ → ℕ
from_le [] = 0
from_le (b ∷ bs) = b + 256 * from_le bs

pub length-le : (n x : ℕ) → length (le n x) ≡ n
unfolding le
length-le zero x = refl
length-le (suc n) x = ap suc (length-le n (x / 256))

pub from_le-le : (n x : ℕ) → x < 256 ^ n → from_le (le n x) ≡ x
unfolding le from_le
from_le-le zero x h = omega arith
from_le-le (suc n) x h =
    omega (arith, from_le-le n (x / 256) (let e = pow-suc 256 n in omega (arith, e)))

-- A packed struct: the width of each field beside its value.
unfoldable pub encode : List ℕ → List ℕ → List ℕ
encode [] vs = []
encode (w ∷ ws) [] = le w 0 ++ encode ws []
encode (w ∷ ws) (v ∷ vs) = le w v ++ encode ws vs

unfoldable pub decode : List ℕ → List ℕ → List ℕ
decode [] bs = []
decode (w ∷ ws) bs = from_le (take w bs) ∷ decode ws (drop w bs)

-- Every value fits in its field, and there is one for each.
abbrev pub Fits : List ℕ → List ℕ → Type 0
Fits [] [] = Unit {0}
Fits [] (v ∷ vs) = ⊥
Fits (w ∷ ws) [] = ⊥
Fits (w ∷ ws) (v ∷ vs) = (v < 256 ^ w) × Fits ws vs

abbrev pub total : List ℕ → ℕ
total [] = 0
total (w ∷ ws) = w + total ws

pub length-encode : (ws vs : List ℕ) → length (encode ws vs) ≡ total ws
unfolding encode
length-encode [] vs = refl
length-encode (w ∷ ws) [] =
    omega (arith, length-append (le w 0) (encode ws []), length-le w 0, length-encode ws [])
length-encode (w ∷ ws) (v ∷ vs) =
    omega (arith, length-append (le w v) (encode ws vs), length-le w v, length-encode ws vs)

take-le : (w x : ℕ) (bs : List ℕ) → take w (le w x ++ bs) ≡ le w x
take-le w x bs =
    subst (λ n. take n (le w x ++ bs) ≡ le w x) (length-le w x) (take-append (le w x) bs)

drop-le : (w x : ℕ) (bs : List ℕ) → drop w (le w x ++ bs) ≡ bs
drop-le w x bs = subst (λ n. drop n (le w x ++ bs) ≡ bs) (length-le w x) (drop-append (le w x) bs)

-- A struct is read back from its bytes.
pub decode-encode : (ws vs : List ℕ) → Fits ws vs → decode ws (encode ws vs) ≡ vs
unfolding encode decode
decode-encode [] [] f = refl
decode-encode [] (v ∷ vs) f = absurd f
decode-encode (w ∷ ws) [] f = absurd f
decode-encode (w ∷ ws) (v ∷ vs) f =
    rw (take-le, drop-le, from_le-le w v f.0, decode-encode ws vs f.1)

-- A raw device: the byte at each offset. What was never written reads as 0.
abbrev pub Disk : Type 0
Disk = ℕ → ℕ

abbrev pub blank : Disk
blank q = 0

unfoldable pub pread : Disk → ℕ → ℕ → List ℕ
pread d off zero = []
pread d off (suc n) = d off ∷ pread d (off + 1) n

unfoldable pub pwrite : Disk → ℕ → List ℕ → Disk
pwrite d off bs q = if leb off q && ltb q (off + length bs) then get_or bs (q - off) 0 else d q

-- Two stores with the same bytes in a range read alike there.
pub pread-agree :
    (d e : Disk) (off n : ℕ)
    → ((q : ℕ) → off ≤ q → q < off + n → d q ≡ e q)
    → pread d off n ≡ pread e off n
unfolding pread
pread-agree d e off zero h = refl
pread-agree d e off (suc n) h =
    ap₂ ◌∷◌ (h off (omega arith) (omega arith))
      (pread-agree d e (off + 1) n (λ q a b. h q (omega arith) (omega arith)))

pub pwrite_outside :
    (d : Disk) (off : ℕ) (bs : List ℕ) (q : ℕ)
    → (q < off) ⊎ (off + length bs ≤ q)
    → pwrite d off bs q ≡ d q
unfolding pwrite
pwrite_outside d off bs q h = ground arith

pub pread-pwrite_disjoint :
    (d : Disk) (off n at : ℕ) (bs : List ℕ)
    → (off + n ≤ at) ⊎ (at + length bs ≤ off)
    → pread (pwrite d at bs) off n ≡ pread d off n
pread-pwrite_disjoint d off n at bs h =
    pread-agree (pwrite d at bs) d off n (λ q a b. pwrite_outside d at bs q (omega arith))

get_or-pread :
    (bs : List ℕ) (d : Disk) (off : ℕ)
    → ((i : ℕ) → i < length bs → d (off + i) ≡ get_or bs i 0)
    → pread d off (length bs) ≡ bs
unfolding pread
get_or-pread [] d off h = refl
get_or-pread (b ∷ bs) d off h =
    ap₂ ◌∷◌ (ap d (omega arith) ∙ h 0 (omega arith))
      (get_or-pread bs d (off + 1) (λ i lt. ap d (omega arith) ∙ h (suc i) (omega arith)))

pub pread-pwrite_same :
    (d : Disk) (off : ℕ) (bs : List ℕ) → pread (pwrite d off bs) off (length bs) ≡ bs
unfolding pwrite
pread-pwrite_same d off bs = get_or-pread bs _ off (λ i lt. hit i lt)
  where
    hit : (i : ℕ) → i < length bs → pwrite d off bs (off + i) ≡ get_or bs i 0
    hit i lt = let e : off + i - off ≡ i = omega arith in ground (arith, ap (λ k. get_or bs k 0) e)

-- What is decoded from bytes fits the fields.
from_le-lt : (bs : List ℕ) → All (λ b. b < 256) bs → from_le bs < 256 ^ length bs
unfolding from_le
from_le-lt [] h = omega arith
from_le-lt (b ∷ bs) h = let e = pow-suc 256 (length bs) in omega (arith, e, from_le-lt bs h.1, h.0)

from_le-take-lt : (n : ℕ) (bs : List ℕ) → All (λ b. b < 256) bs → from_le (take n bs) < 256 ^ n
unfolding from_le
from_le-take-lt zero bs h = omega arith
from_le-take-lt (suc n) [] h = let e = pow-suc 256 n in omega (arith, e, from_le-take-lt n [] tt)
from_le-take-lt (suc n) (b ∷ bs) h =
    let e = pow-suc 256 n in omega (arith, e, from_le-take-lt n bs h.1, h.0)

All-drop : (n : ℕ) (bs : List ℕ) → All (λ b. b < 256) bs → All (λ b. b < 256) (drop n bs)
All-drop zero bs h = h
All-drop (suc n) [] h = tt
All-drop (suc n) (b ∷ bs) h = All-drop n bs h.1

pub decode-Fits : (ws bs : List ℕ) → All (λ b. b < 256) bs → Fits ws (decode ws bs)
unfolding decode
decode-Fits [] bs h = tt
decode-Fits (w ∷ ws) bs h = (from_le-take-lt w bs h, decode-Fits ws (drop w bs) (All-drop w bs h))

pub pread-All : (d : Disk) (off n : ℕ) → ((q : ℕ) → d q < 256) → All (λ b. b < 256) (pread d off n)
unfolding pread
pread-All d off zero h = tt
pread-All d off (suc n) h = (h off, pread-All d (off + 1) n h)
