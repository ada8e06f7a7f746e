-- ===== src/Cloud/TsMux/Packet.antt =====
-- components/cloud_uploader/src/ts_mux.c: what a receiver finds in one packet.
use nt.Prelude.{
  ℕ, zero, suc, ◌+◌, ◌-◌, ◌/◌, ◌%◌, ◌≤◌, ◌<◌, ◌≡◌, refl, sym, subst, ap, ◌∙◌, inl, inr, arith, List,
  [], ◌∷◌, ◌++◌, Bool, true, false, Bool-cases, ltb, ◌==◌, if◌then◌else◌, length, take, drop,
  replicate, get_or, min, length-append, length-replicate, length-take, drop-append, ◌⊎◌,
}
use nt.Cloud.TsMux.{
  Packet, fill, ts_header, control, pcr_field, stuffing, left_of, is_stuffed, room, filled,
  pes_packet,
}

-- What is behind the adaptation field, where the header says that there is one.
abbrev pub payload : Packet → List ℕ
payload (a ∷ b ∷ c ∷ ctl ∷ body) =
    if ctl / 32 % 2 == 1 then drop (1 + get_or body 0 0) body else body
payload [] = []
payload (a ∷ []) = []
payload (a ∷ b ∷ []) = []
payload (a ∷ b ∷ c ∷ []) = []

abbrev pub counter : Packet → ℕ
counter p = get_or p 3 0 % 16

pub record IsTs (cc : ℕ) (p : Packet) : Type 0 where
  pub size : length p ≡ 188
  pub sync : get_or p 0 0 ≡ 71
  pub numbered : counter p ≡ cc % 16

pub ++_assoc : (a b c : List ℕ) → (a ++ b) ++ c ≡ a ++ (b ++ c)
++_assoc [] b c = refl
++_assoc (x ∷ a) b c = ap (λ y. x ∷ y) (++_assoc a b c)

pub length-filled : (n : ℕ) (a b : List ℕ) → length (filled n a b) ≡ min n (left_of a b)
length-filled n a b = omega (
  arith,
  length-append (take n a) (take (n - length (take n a)) b),
  length-take n a,
  length-take (n - length (take n a)) b,
)

length-stuffing : (n : ℕ) → length (stuffing n) ≡ n
length-stuffing zero = refl
length-stuffing (suc zero) = refl
length-stuffing (suc (suc n)) = omega (arith, length-replicate {A = ℕ} n 255)

-- The bytes behind the data of the first packet of a short key frame.
abbrev pub pad : Bool → ℕ → List ℕ
pad adapt remain = if adapt then replicate (176 - remain) 255 else []

abbrev tail_of : ℕ → List ℕ
tail_of n = replicate (184 - n) 255

-- A packet from its header on.
fill-header :
    (pid control cc : ℕ) (start : Bool) (x : List ℕ)
    → fill (ts_header pid start control cc ++ x)
      ≡ ts_header pid start control cc ++ (x ++ tail_of (length x))
fill-header pid control cc start x =
    ap (λ n. ts_header pid start control cc ++ (x ++ replicate n 255)) (omega arith)

header-IsTs :
    (pid control cc : ℕ) (start : Bool) (x : List ℕ)
    → (control ≡ 16) ⊎ (control ≡ 48)
    → length x ≡ 184
    → IsTs cc (ts_header pid start control cc ++ x)
header-IsTs pid control cc start x (inl c) l = record {
  size = omega arith;
  sync = refl;
  numbered = omega arith;
}
header-IsTs pid control cc start x (inr c) l = record {
  size = omega arith;
  sync = refl;
  numbered = omega arith;
}

length-tail : (x : List ℕ) → length x ≤ 184 → length (x ++ tail_of (length x)) ≡ 184
length-tail x le =
    omega
      (arith, length-append x (tail_of (length x)), length-replicate {A = ℕ} (184 - length x) 255)

payload-clear :
    (pid cc : ℕ) (start : Bool) (x : List ℕ) → payload (ts_header pid start 16 cc ++ x) ≡ x
payload-clear pid cc start x =
    let clear : ((16 + cc % 16) / 32 % 2 == 1) ≡ false = ground arith in rw (clear) refl

payload-field :
    (pid cc : ℕ) (start : Bool) (x : List ℕ)
    → payload (ts_header pid start 48 cc ++ x) ≡ drop (1 + get_or x 0 0) x
payload-field pid cc start x =
    let set : ((48 + cc % 16) / 32 % 2 == 1) ≡ true = ground arith in rw (set) refl

drop-stuffing :
    (n : ℕ) (x : List ℕ) → 0 < n → drop (1 + get_or (stuffing n ++ x) 0 0) (stuffing n ++ x) ≡ x
drop-stuffing zero x pos = absurd (omega arith)
drop-stuffing (suc zero) x pos = refl
drop-stuffing (suc (suc n)) x pos =
    let whole = suc n ∷ 0 ∷ (replicate n 255 ++ x) in
    let count : 1 + suc n ≡ suc (suc (length (replicate {A = ℕ} n 255))) =
      omega (arith, length-replicate {A = ℕ} n 255) in
    ap (λ k. drop k whole) count ∙ drop-append (replicate n 255) x

-- A packet of the loop: it is one of the stream, with the counter, and carries as many of the bytes
-- as there is room for, and behind them the padding.
unfoldable pub Carries : ℕ → List ℕ → Packet → Type 0
Carries cc x p = IsTs cc p × (payload p ≡ x)

carried :
    (pid control cc : ℕ) (start : Bool) (x y : List ℕ)
    → (control ≡ 16) ⊎ (control ≡ 48)
    → length x ≤ 184
    → payload (ts_header pid start control cc ++ (x ++ tail_of (length x))) ≡ y
    → Carries cc y (fill (ts_header pid start control cc ++ x))
unfolding Carries
carried pid control cc start x y c le same =
    subst (λ p. IsTs cc p × (payload p ≡ y)) (sym (fill-header pid control cc start x))
      (header-IsTs pid control cc start (x ++ tail_of (length x)) c (length-tail x le), same)

pub pes_packet-Carries :
    (pid : ℕ) (first adapt : Bool) (cc pts : ℕ) (a b : List ℕ)
    → 0 < left_of a b
    → Carries cc
        (filled (room adapt (left_of a b)) a b ++ pad adapt (left_of a b))
        (pes_packet pid first adapt cc pts a b)
unfolding pes_packet Carries
pes_packet-Carries pid first true cc pts a b pos =
    let never : is_stuffed true (left_of a b) ≡ false = ground arith in
    let f = filled 176 a b in
    let l = length-filled 176 a b in
    let rest : 184 - length (pcr_field pts ++ f) ≡ 176 - left_of a b = omega arith in
    rw (never) (
      carried pid 48 cc first (pcr_field pts ++ f) (f ++ pad true (left_of a b)) (inr refl)
        (omega arith)
        (payload-field pid cc first ((pcr_field pts ++ f) ++ tail_of (length (pcr_field pts ++ f)))
          ∙ ap (λ n. f ++ replicate n 255) rest))
pes_packet-Carries pid first false cc pts a b pos = elim (Bool-cases (ltb (left_of a b) 184)) [
  | inl e ↦
      let r = left_of a b in
      let stuffed : is_stuffed false r ≡ true = ground (arith, e) in
      let less : r < 184 = ground (arith, e) in
      let f = filled r a b in
      let s = stuffing (184 - r) in
      let l = length-filled r a b in
      let whole : length (s ++ f) ≡ 184 =
        omega (arith, length-append s f, length-stuffing (184 - r)) in
      let none_left : 184 - length (s ++ f) ≡ 0 = omega arith in
      rw (stuffed) (
        carried pid 48 cc first (s ++ f) (f ++ []) (inr refl) (omega arith) (
          payload-field pid cc first ((s ++ f) ++ tail_of (length (s ++ f)))
          ∙ ap (λ x. drop (1 + get_or x 0 0) x) (++_assoc s f (tail_of (length (s ++ f))))
          ∙ drop-stuffing (184 - r) (f ++ tail_of (length (s ++ f))) (omega arith)
          ∙ ap (λ n. f ++ replicate n 255) none_left))
  | inr e ↦
      let r = left_of a b in
      let full : is_stuffed false r ≡ false = ground (arith, e) in
      let more : 184 ≤ r = ground (arith, e) in
      let f = filled 184 a b in
      let l = length-filled 184 a b in
      let none_left : 184 - length f ≡ 0 = omega arith in
      rw (full) (
        carried pid 16 cc first f (f ++ []) (inl refl) (omega arith) (
          payload-clear pid cc first (f ++ tail_of (length f))
          ∙ ap (λ n. f ++ replicate n 255) none_left))
]
