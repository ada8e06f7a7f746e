-- ===== src/Streaming/Nal/Units.antt =====
-- components/streaming/src/stream_nal.c: the loop finds the units that were put together.
use nt.Prelude.{
  ℕ, zero, suc, ◌+◌, ◌≤◌, ◌<◌, ◌≡◌, refl, ap, ◌∙◌, arith, List, [], ◌∷◌, ◌++◌, Bool, true, false,
  not, Option, none, some, ltb, leb, ◌==◌, ◌&&◌, ◌||◌, if◌then◌else◌, length, length-append, map,
  All,
}
use nt.Streaming.Nal.{NalClass, next_nal, nal_header, nal_finish, nal_loop, nal_none, nal_classify}
use nt.Streaming.Nal.Ends.{NalKind, kind_of, by_kind, going, nal_loop-on, param, idr, slice, other}

-- A unit is its first byte and the rest, which holds no start code and does not end in a zero.
unfoldable pub clean : List ℕ → Bool
clean [] = true
clean (a ∷ []) = not (a == 0)
clean (a ∷ b ∷ []) = not (b == 0)
clean (a ∷ b ∷ c ∷ d) = not (a == 0 && (b == 0 && leb c 1)) && clean (b ∷ c ∷ d)

abbrev pub NalUnit : Type 0
NalUnit = ℕ × List ℕ

-- The units behind start codes of four bytes.
unfoldable pub annexb : List NalUnit → List ℕ
annexb [] = []
annexb ((h, body) ∷ us) = 0 ∷ 0 ∷ 0 ∷ 1 ∷ h ∷ body ++ annexb us

next_nal-clean : (d : List ℕ) → clean d ≡ true → next_nal d ≡ none
unfolding next_nal clean
next_nal-clean [] h = refl
next_nal-clean (a ∷ []) h = refl
next_nal-clean (a ∷ b ∷ []) h = refl
next_nal-clean (a ∷ b ∷ c ∷ []) h = refl
next_nal-clean (a ∷ b ∷ c ∷ x ∷ d) h =
    let rest = next_nal-clean (b ∷ c ∷ x ∷ d) in ground (arith, h, rest)

next_nal-code : (d e : List ℕ) → clean d ≡ true → next_nal (d ++ (0 ∷ 0 ∷ 0 ∷ 1 ∷ e)) ≡ some e
unfolding next_nal clean
next_nal-code [] e h = refl
next_nal-code (a ∷ []) e h = ground (arith, h)
next_nal-code (a ∷ b ∷ []) e h = ground (arith, h)
next_nal-code (a ∷ b ∷ c ∷ []) e h = ground (arith, h)
next_nal-code (a ∷ b ∷ c ∷ x ∷ d) e h =
    let rest = next_nal-code (b ∷ c ∷ x ∷ d) e in ground (arith, h, rest)

-- Whether the first picture is one of its own, and whether a parameter set comes before it.
unfoldable pub picture : List NalKind → Option Bool
picture [] = none
picture (idr ∷ ks) = some true
picture (slice ∷ ks) = some false
picture (param ∷ ks) = picture ks
picture (other ∷ ks) = picture ks

unfoldable pub params : List NalKind → Bool
params [] = false
params (param ∷ ks) = true
params (other ∷ ks) = params ks
params (idr ∷ ks) = false
params (slice ∷ ks) = false

-- The class that the units give.
unfoldable pub verdict : List NalKind → NalClass
unfolding picture params
verdict ks = elim (picture ks) [
  | none ↦ record {
    is_key = params ks;
    is_param = params ks;
    frame_type = if params ks then 0 else 1;
  }
  | some own ↦ record {
    is_key = params ks || own;
    is_param = params ks;
    frame_type = if own then 0 else 1;
  }
]

-- The loop over the kinds.
unfoldable tally : NalClass → List NalKind → NalClass
tally out [] = nal_finish out
tally out (k ∷ ks) =
    let (stop, out') = by_kind out k in let rest = tally out' ks in if stop then out' else rest

tally-seen :
    (ks : List NalKind)
    → tally (going true) ks ≡ elim (picture ks) as (λ o. NalClass) [
      | none ↦ record { is_key = true; is_param = true; frame_type = 0 }
      | some own ↦ record { is_key = true; is_param = true; frame_type = if own then 0 else 1 }
    ]
unfolding tally picture
tally-seen [] = refl
tally-seen (param ∷ ks) = tally-seen ks
tally-seen (other ∷ ks) = tally-seen ks
tally-seen (idr ∷ ks) = refl
tally-seen (slice ∷ ks) = refl

tally-verdict : (ks : List NalKind) → tally nal_none ks ≡ verdict ks
unfolding tally verdict picture params
tally-verdict [] = refl
tally-verdict (param ∷ ks) = tally-seen ks
tally-verdict (other ∷ ks) = tally-verdict ks
tally-verdict (idr ∷ ks) = refl
tally-verdict (slice ∷ ks) = refl

++_nil : (d : List ℕ) → d ++ [] ≡ d
++_nil [] = refl
++_nil (a ∷ d) = ap (λ x. a ∷ x) (++_nil d)

-- Where the loop goes on.
abbrev after : List NalUnit → Option (List ℕ)
after [] = none
after ((h, body) ∷ us) = some (h ∷ body ++ annexb us)

next_nal-annexb :
    (body : List ℕ) (us : List NalUnit)
    → clean body ≡ true
    → next_nal (body ++ annexb us) ≡ after us
unfolding annexb
next_nal-annexb body [] c = ap next_nal (++_nil body) ∙ next_nal-clean body c
next_nal-annexb body ((h, b) ∷ us) c = next_nal-code body (h ∷ b ++ annexb us) c

if_some : (b : Bool) (x y : NalClass) → (if b then some x else some y) ≡ some (if b then x else y)
if_some true x y = refl
if_some false x y = refl

nal_loop-tally :
    (n codec h : ℕ) (body : List ℕ) (us : List NalUnit) (out : NalClass)
    → length us < n
    → clean body ≡ true
    → All (λ u. clean u.1 ≡ true) us
    → nal_loop n codec out (h ∷ body ++ annexb us)
      ≡ some (tally out (map (λ u. kind_of codec u.0) ((h, body) ∷ us)))
unfolding nal_loop tally
nal_loop-tally zero codec h body us out lt c cs = absurd (omega arith)
nal_loop-tally (suc n) codec h body [] out lt c cs =
    nal_loop-on n codec h out (body ++ annexb [])
    ∙ rw (next_nal-annexb body [] c) (if_some (by_kind out (kind_of codec h)).0 _ _)
nal_loop-tally (suc n) codec h body ((h', body') ∷ us) out lt c cs =
    let rest =
      nal_loop-tally n codec h' body' us (by_kind out (kind_of codec h)).1 (omega arith) cs.0
        cs.1 in
    nal_loop-on n codec h out (body ++ annexb ((h', body') ∷ us))
    ∙ rw (next_nal-annexb body ((h', body') ∷ us) c, rest)
        (if_some (by_kind out (kind_of codec h)).0 _ _)

length-annexb : (u : NalUnit) (us : List NalUnit) → 5 + length us ≤ length (annexb (u ∷ us))
unfolding annexb
length-annexb (h, body) [] = omega arith
length-annexb (h, body) (u ∷ us) =
    let rest = length-annexb u us in omega (arith, rest, length-append body (annexb (u ∷ us)))

-- Annex-B data of five bytes or more, put together from units that hold no start code: the class is
-- that of the first picture among them and of the parameter sets before it. With no picture it
-- is an I frame where there is a parameter set, and a P frame otherwise.
pub nal_classify-annexb :
    (codec : ℕ) (u : NalUnit) (us : List NalUnit)
    → All (λ v. clean v.1 ≡ true) (u ∷ us)
    → nal_classify (annexb (u ∷ us)) codec ≡ some (verdict (map (λ v. kind_of codec v.0) (u ∷ us)))
unfolding nal_classify annexb nal_header
nal_classify-annexb codec (h, body) us cs =
    let long = length-annexb (h, body) us in
    let enough : ltb (length (annexb ((h, body) ∷ us))) 5 ≡ false = ground (arith, long) in
    rw (enough) (
      nal_loop-tally (suc (length (annexb ((h, body) ∷ us)))) codec h body us nal_none
        (omega (arith, long)) cs.0 cs.1
      ∙ ap some (tally-verdict (map (λ v. kind_of codec v.0) ((h, body) ∷ us))))
