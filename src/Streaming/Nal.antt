-- ===== src/Streaming/Nal.antt =====
-- components/streaming/src/stream_nal.c: what kind of frame an Annex-B access unit is.
-- A position in the data is the list of the bytes from there on.
pub mod Ends
pub mod Units
use nt.Prelude.{
  ℕ, zero, suc, ◌+◌, ◌/◌, ◌%◌, List, [], ◌∷◌, Bool, true, false, Option, none, some, ltb, leb, ◌==◌,
  ◌&&◌, ◌||◌, if◌then◌else◌, length,
}

-- Frame types are 0 for I and 1 for P.
pub record NalClass : Type 0 where
  pub is_key : Bool
  pub is_param : Bool
  pub frame_type : ℕ

-- The first byte behind the next start code, of three bytes or four.
unfoldable pub next_nal : List ℕ → Option (List ℕ)
next_nal [] = none
next_nal (a ∷ []) = none
next_nal (a ∷ b ∷ []) = none
next_nal (a ∷ b ∷ c ∷ []) = none
next_nal (a ∷ b ∷ c ∷ e ∷ d) =
    if a == 0 && (b == 0 && c == 1)
    then some (e ∷ d)
    else if a == 0 && (b == 0 && (c == 0 && e == 1))
    then some d
    else next_nal (b ∷ c ∷ e ∷ d)

abbrev pub found_param : NalClass → Bool × NalClass
found_param out = (false, record out { is_param = true; is_key = true })

abbrev pub found_idr : NalClass → Bool × NalClass
found_idr out = (true, record out { frame_type = 0; is_key = true })

abbrev pub found_slice : NalClass → Bool × NalClass
found_slice out = (true, record out { frame_type = 1 })

-- `nal_type` of H.264 and of H.265.
abbrev pub type_264 : ℕ → ℕ
type_264 nh = nh % 32

abbrev pub type_265 : ℕ → ℕ
type_265 nh = nh / 2 % 64

unfoldable pub header_264 : NalClass → ℕ → Bool × NalClass
header_264 out t =
    if t == 7 || t == 8
    then found_param out
    else if t == 5
    then found_idr out
    else if t == 1
    then found_slice out
    else (false, out)

unfoldable pub header_265 : NalClass → ℕ → Bool × NalClass
header_265 out t =
    if leb 32 t && leb t 34
    then found_param out
    else if leb 16 t && leb t 23
    then found_idr out
    else if leb t 9 || (leb 10 t && leb t 15)
    then found_slice out
    else (false, out)

-- One header byte: whether it settles the frame, and the class so far. Codec 0 is H.264.
unfoldable pub nal_header : ℕ → NalClass → ℕ → Bool × NalClass
unfolding header_264 header_265
nal_header codec out nh =
    if codec == 0 then header_264 out (type_264 nh) else header_265 out (type_265 nh)

-- What follows the loop.
abbrev pub nal_finish : NalClass → NalClass
nal_finish out = record out { frame_type = if out.is_param then 0 else out.frame_type }

-- The loop over the units, from the first byte of one; `none` when the fuel is used up.
unfoldable pub nal_loop : ℕ → ℕ → NalClass → List ℕ → Option NalClass
nal_loop zero codec out d = none
nal_loop (suc n) codec out [] = some (nal_finish out)
nal_loop (suc n) codec out (nh ∷ d) =
    let (stop, out') = nal_header codec out nh in
    if stop
    then some out'
    else elim (next_nal d) [ none ↦ some (nal_finish out') | some d' ↦ nal_loop n codec out' d' ]

abbrev pub nal_none : NalClass
nal_none = record { is_key = false; is_param = false; frame_type = 1 }

abbrev pub nal_start : List ℕ → List ℕ
nal_start d = elim (next_nal d) [ none ↦ d | some d' ↦ d' ]

-- Fuel is one more than the number of bytes.
unfoldable pub nal_classify : List ℕ → ℕ → Option NalClass
unfolding nal_loop next_nal
nal_classify d codec =
    if ltb (length d) 5
    then some nal_none
    else nal_loop (suc (length d)) codec nal_none (nal_start d)
