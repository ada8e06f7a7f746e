-- ===== src/Streaming/Nal/Ends.antt =====
-- components/streaming/src/stream_nal.c: what a unit is taken for, and that the loop over them ends.
use nt.Prelude.{
  ◌⊎◌, subst, ℕ, zero, suc, ◌≤◌, ◌<◌, ◌≡◌, refl, ap, ◌∙◌, inl, inr, arith, List, [], ◌∷◌, Bool,
  true, false, Option, none, some, Option-cases, Bool-cases, ltb, leb, ◌==◌, ◌&&◌, ◌||◌,
  if◌then◌else◌, length,
}
use nt.Streaming.Nal.{
  NalClass, next_nal, nal_header, header_264, header_265, found_param, found_idr, found_slice,
  type_264, type_265, nal_finish, nal_loop, nal_none, nal_start, nal_classify,
}

abbrev left_over : Option (List ℕ) → ℕ
left_over none = 0
left_over (some d) = suc (length d)

next_nal-length : (d : List ℕ) → left_over (next_nal d) ≤ length d
unfolding next_nal
next_nal-length [] = omega arith
next_nal-length (a ∷ []) = omega arith
next_nal-length (a ∷ b ∷ []) = omega arith
next_nal-length (a ∷ b ∷ c ∷ []) = omega arith
next_nal-length (a ∷ b ∷ c ∷ x ∷ d) =
    let rest = next_nal-length (b ∷ c ∷ x ∷ d) in ground (arith, rest)

-- The marks agree: a key frame is one with a parameter set or an I frame.
pub record IsSound (c : NalClass) : Type 0 where
  pub key : c.is_key ≡ (c.is_param || c.frame_type == 0)
  pub kind : c.frame_type ≤ 1

-- What a unit holds: a parameter set, a part of a picture of its own, a part of one that needs others.
pub data NalKind : Type 0 where
  param idr slice other : NalKind

unfoldable pub kind_264 : ℕ → NalKind
kind_264 t =
    if t == 7 || t == 8 then param else if t == 5 then idr else if t == 1 then slice else other

unfoldable pub kind_265 : ℕ → NalKind
kind_265 t =
    if leb 32 t && leb t 34
    then param
    else if leb 16 t && leb t 23
    then idr
    else if leb t 15
    then slice
    else other

unfoldable pub kind_of : ℕ → ℕ → NalKind
kind_of codec nh = if codec == 0 then kind_264 (type_264 nh) else kind_265 (type_265 nh)

abbrev pub by_kind : NalClass → NalKind → Bool × NalClass
by_kind out param = found_param out
by_kind out idr = found_idr out
by_kind out slice = found_slice out
by_kind out other = (false, out)

if_apply {ℓ κ} :
    {A : Type ℓ} {B : Type κ} (f : A → B) (b : Bool) {x y : A} {p q : B}
    → p ≡ f x
    → q ≡ f y
    → (if b then p else q) ≡ f (if b then x else y)
if_apply f true h k = h
if_apply f false h k = k

header_264-kind : (out : NalClass) (t : ℕ) → header_264 out t ≡ by_kind out (kind_264 t)
unfolding header_264 kind_264
header_264-kind out t =
    if_apply (by_kind out) (t == 7 || t == 8) refl
      (if_apply (by_kind out) (t == 5) refl (if_apply (by_kind out) (t == 1) refl refl))

header_265-kind : (out : NalClass) (t : ℕ) → header_265 out t ≡ by_kind out (kind_265 t)
unfolding header_265 kind_265
header_265-kind out t =
    let late : (leb t 9 || (leb 10 t && leb t 15)) ≡ leb t 15 = ground arith in
    if_apply (by_kind out) (leb 32 t && leb t 34) refl (
      if_apply (by_kind out) (leb 16 t && leb t 23) refl
        (rw (late) (if_apply (by_kind out) (leb t 15) refl refl)))

nal_header-kind :
    (codec : ℕ) (out : NalClass) (nh : ℕ) → nal_header codec out nh ≡ by_kind out (kind_of codec nh)
unfolding nal_header kind_of
nal_header-kind codec out nh =
    if_apply (by_kind out) (codec == 0) (header_264-kind out (type_264 nh))
      (header_265-kind out (type_265 nh))

-- The header bytes of the units of some data: its first byte, and each byte behind a start code.
pub data Header : List ℕ → ℕ → Type 0 where
  header_first : (nh : ℕ) (d : List ℕ) → Header (nh ∷ d) nh
  header_later :
      (x nh : ℕ) (d d' : List ℕ) → next_nal d ≡ some d' → Header d' nh → Header (x ∷ d) nh

-- A unit of this kind is among the data.
pub record Seen (codec : ℕ) (k : NalKind) (d : List ℕ) : Type 0 where
  pub byte : ℕ
  pub header : Header d byte
  pub kind : kind_of codec byte ≡ k

-- What is marked was seen.
pub record IsSeen (codec : ℕ) (d : List ℕ) (c : NalClass) : Type 0 where
  pub params : (c.is_param ≡ false) ⊎ Seen codec param d
  pub keys : (c.is_key ≡ false) ⊎ (Seen codec param d ⊎ Seen codec idr d)

-- The class while the loop goes on.
abbrev pub going : Bool → NalClass
going seen = record { is_key = seen; is_param = seen; frame_type = 1 }

by_kind-IsSound : (seen : Bool) (k : NalKind) → IsSound (by_kind (going seen) k).1
by_kind-IsSound seen param = record { key = refl; kind = omega arith }
by_kind-IsSound seen idr = record { key = ground arith; kind = omega arith }
by_kind-IsSound seen slice = record { key = ground arith; kind = omega arith }
by_kind-IsSound seen other = record { key = ground arith; kind = omega arith }

by_kind-going :
    (seen : Bool) (k : NalKind)
    → (by_kind (going seen) k).0 ≡ false
    → (b : Bool) × ((by_kind (going seen) k).1 ≡ going b)
by_kind-going seen param h = (true, refl)
by_kind-going seen other h = (seen, refl)
by_kind-going seen idr h = absurd (ground (arith, h))
by_kind-going seen slice h = absurd (ground (arith, h))

finish-IsSound : (seen : Bool) → IsSound (nal_finish (going seen))
finish-IsSound true = record { key = refl; kind = omega arith }
finish-IsSound false = record { key = refl; kind = omega arith }

as_key :
    (codec : ℕ) (d : List ℕ) (b : Bool)
    → (b ≡ false) ⊎ Seen codec param d
    → (b ≡ false) ⊎ (Seen codec param d ⊎ Seen codec idr d)
as_key codec d b (inl e) = inl e
as_key codec d b (inr s) = inr (inl s)

by_kind-IsSeen :
    (codec : ℕ) (d : List ℕ) (seen : Bool) (k : NalKind)
    → (seen ≡ false) ⊎ Seen codec param d
    → Seen codec k d
    → IsSeen codec d (by_kind (going seen) k).1
by_kind-IsSeen codec d seen param b s = record { params = inr s; keys = inr (inl s) }
by_kind-IsSeen codec d seen idr b s = record { params = b; keys = inr (inr s) }
by_kind-IsSeen codec d seen slice b s = record { params = b; keys = as_key codec d seen b }
by_kind-IsSeen codec d seen other b s = record { params = b; keys = as_key codec d seen b }

finish-IsSeen :
    (codec : ℕ) (d : List ℕ) (seen : Bool)
    → (seen ≡ false) ⊎ Seen codec param d
    → IsSeen codec d (nal_finish (going seen))
finish-IsSeen codec d seen b = record { params = b; keys = as_key codec d seen b }

Ends : ℕ → ℕ → NalClass → List ℕ → List ℕ → Type 0
Ends n codec out d whole =
    (c : NalClass) × (nal_loop n codec out d ≡ some c) × IsSound c × IsSeen codec whole c

-- The loop behind a header, given what the header says and where the next unit is.
abbrev pub loop_on : ℕ → ℕ → Option (List ℕ) → Bool × NalClass → Option NalClass
loop_on n codec next (stop, out) =
    if stop
    then some out
    else elim next [ none ↦ some (nal_finish out) | some d ↦ nal_loop n codec out d ]

pub nal_loop-on :
    (n codec nh : ℕ) (out : NalClass) (d : List ℕ)
    → nal_loop (suc n) codec out (nh ∷ d)
      ≡ loop_on n codec (next_nal d) (by_kind out (kind_of codec nh))
unfolding nal_loop
nal_loop-on n codec nh out d = ap (loop_on n codec (next_nal d)) (nal_header-kind codec out nh)

nal_loop-enough :
    (n codec : ℕ) (seen : Bool) (d whole : List ℕ)
    → length d < n
    → ((nh : ℕ) → Header d nh → Header whole nh)
    → (seen ≡ false) ⊎ Seen codec param whole
    → Ends n codec (going seen) d whole
unfolding nal_loop Ends
nal_loop-enough zero codec seen d whole lt inside before = absurd (omega arith)
nal_loop-enough (suc n) codec seen [] whole lt inside before =
    (nal_finish (going seen), refl, finish-IsSound seen, finish-IsSeen codec whole seen before)
nal_loop-enough (suc n) codec seen (nh ∷ d) whole lt inside before =
    let k = kind_of codec nh in
    let on = nal_loop-on n codec nh (going seen) d in
    let here : Seen codec k whole = record {
      byte = nh;
      header = inside nh (header_first nh d);
      kind = refl;
    } in
    let marked = by_kind-IsSeen codec whole seen k before here in
    elim (Bool-cases (by_kind (going seen) k).0) [
      | inl e ↦ ((by_kind (going seen) k).1, on ∙ rw (e) refl, by_kind-IsSound seen k, marked)
      | inr e ↦
          let (b, f) = by_kind-going seen k e in
          let after : (b ≡ false) ⊎ Seen codec param whole =
            (subst (IsSeen codec whole) f marked).params in
          elim (Option-cases (next_nal d)) [
            | inl g ↦ (
              nal_finish (going b),
              on ∙ rw (e, g) (ap (λ o. some (nal_finish o)) f),
              finish-IsSound b,
              finish-IsSeen codec whole b after,
            )
            | inr (d', g) ↦
                let less : length d' < n = omega (arith, next_nal-length d, ap left_over g) in
                let (c, same, sound, shown) =
                  nal_loop-enough n codec b d' whole less
                    (λ x h. inside x (header_later nh x d d' g h)) after in
                (c, on ∙ rw (e, g) (ap (λ o. nal_loop n codec o d') f ∙ same), sound, shown)
          ]
    ]

nal_start-length : (d : List ℕ) → length (nal_start d) < suc (length d)
nal_start-length d = elim (Option-cases (next_nal d)) [
  | inl e ↦ rw (length, e) (omega arith)
  | inr (d', e) ↦ rw (length, e) (omega (arith, next_nal-length d, ap left_over e))
]

-- Every data is classified, whatever its bytes and its codec: the loop ends; the frame is an I or a P,
-- and it is marked as key exactly where it is marked as an I or as holding a parameter set. Where it is
-- marked as holding a parameter set there is a unit of that kind, and where it is marked as key there
-- is a unit of that kind or of a picture of its own, among the units from the first start code on.
pub nal_classify-ends :
    (d : List ℕ) (codec : ℕ)
    → (c : NalClass) × (nal_classify d codec ≡ some c) × IsSound c × IsSeen codec (nal_start d) c
unfolding nal_classify Ends
nal_classify-ends d codec = elim (Bool-cases (ltb (length d) 5)) [
  | inl e ↦ (
    nal_none,
    rw (e) refl,
    record { key = refl; kind = omega arith },
    record { params = inl refl; keys = inl refl },
  )
  | inr e ↦
      let (c, same, sound, shown) =
        nal_loop-enough (suc (length d)) codec false (nal_start d) (nal_start d)
          (nal_start-length d) (λ nh h. h) (inl refl) in
      (c, rw (e) same, sound, shown)
]
