-- ===== src/Cloud/TsMux/Units.antt =====
-- components/cloud_uploader/src/ts_mux.c: what a receiver puts together again.
use nt.Prelude.{
  ℕ, zero, suc, ◌+◌, ◌-◌, ◌*◌, ◌/◌, ◌%◌, ◌≤◌, ◌<◌, ◌≡◌, ◌⊎◌, refl, sym, subst, ap, ap₂, ◌∙◌, inl,
  inr, arith, List, [], ◌∷◌, ◌++◌, Bool, true, false, Option, some, Bool-cases, ltb, ◌==◌, ◌&&◌,
  length, take, drop, replicate, get_or, length-take,
}
use nt.Cloud.TsMux.{
  Packet, TsMux, left_of, room, filled, next_cc, pes_packet, pes_loop, pes_header, emit_pes,
  ensure_psi, write_video, pid_video,
}
use nt.Cloud.TsMux.Packet.{payload, IsTs, pad, ++_assoc, Carries, pes_packet-Carries}

-- Packets whose counters go on from `cc` and end before `cc'`.
unfoldable pub Counted : ℕ → List Packet → ℕ → Type 0
Counted cc [] cc' = cc ≡ cc'
Counted cc (p ∷ ps) cc' = IsTs cc p × Counted (next_cc cc) ps cc'

unfoldable pub joined : List Packet → List ℕ
joined [] = []
joined (p ∷ ps) = payload p ++ joined ps

take-drop : (n : ℕ) (x : List ℕ) → take n x ++ drop n x ≡ x
take-drop zero x = refl
take-drop (suc n) [] = refl
take-drop (suc n) (y ∷ x) = ap (λ z. y ∷ z) (take-drop n x)

length-drop : (n : ℕ) (x : List ℕ) → length (drop n x) ≡ length x - n
length-drop zero x = omega arith
length-drop (suc n) [] = omega arith
length-drop (suc n) (y ∷ x) = omega (arith, length-drop n x)

abbrev rest_of : ℕ → List ℕ → List ℕ → List ℕ
rest_of n a b = drop (n - length (take n a)) b

filled-rest : (n : ℕ) (a b : List ℕ) → filled n a b ++ (drop n a ++ rest_of n a b) ≡ a ++ b
filled-rest zero a b = refl
filled-rest (suc n) [] b =
    let all : suc n - 0 ≡ suc n = omega arith in
    ap (λ k. take k b ++ drop k b) all ∙ take-drop (suc n) b
filled-rest (suc n) (x ∷ a) b =
    let less : suc n - suc (length (take n a)) ≡ n - length (take n a) = omega arith in
    ap (λ k. x ∷ ((take n a ++ take k b) ++ (drop n a ++ drop k b))) less
    ∙ ap (λ y. x ∷ y) (filled-rest n a b)

left_of-rest : (n : ℕ) (a b : List ℕ) → left_of (drop n a) (rest_of n a b) ≡ left_of a b - n
left_of-rest n a b =
    omega (arith, length-drop n a, length-drop (n - length (take n a)) b, length-take n a)

-- What a run of the loop gives: packets that carry `x`.
Gives : Option (List Packet × ℕ) → ℕ → List ℕ → Type 0
Gives o cc x =
    (ps : List Packet) × (cc' : ℕ) × (o ≡ some (ps, cc')) × Counted cc ps cc' × (joined ps ≡ x)

room-positive : (adapt : Bool) (l : ℕ) → 0 < l → 0 < room adapt l
room-positive true l pos = ground (arith, pos)
room-positive false l pos = ground (arith, pos)

++_nil : (x : List ℕ) → x ++ [] ≡ x
++_nil [] = refl
++_nil (y ∷ x) = ap (λ z. y ∷ z) (++_nil x)

no_bytes : (a b : List ℕ) → left_of a b ≡ 0 → a ++ b ≡ []
no_bytes [] [] h = refl
no_bytes [] (y ∷ b) h = absurd (omega arith)
no_bytes (x ∷ a) b h = absurd (omega arith)

Gives-none : (cc : ℕ) (a b : List ℕ) → left_of a b ≡ 0 → Gives (some ([], cc)) cc (a ++ b)
unfolding Gives Counted joined
Gives-none cc a b h = ([], cc, refl, refl, sym (no_bytes a b h))

module _ (pid : ℕ) (rai : Bool) (pts : ℕ) where
  pes_loop-step :
      (n : ℕ) (first : Bool) (cc : ℕ) (a b x : List ℕ)
      → 0 < left_of a b
      → Gives
          (pes_loop n pid false rai
            (next_cc cc)
            pts
            (drop (room (first && rai) (left_of a b)) a)
            (rest_of (room (first && rai) (left_of a b)) a b))
          (next_cc cc)
          x
      → Gives (pes_loop (suc n) pid first rai cc pts a b) cc (
          (filled (room (first && rai) (left_of a b)) a b ++ pad (first && rai) (left_of a b)) ++ x)
  unfolding Gives pes_loop Counted joined Carries
  pes_loop-step n first cc a b x pos (ps, cc', same, run, carry) =
      let (ts, load) = pes_packet-Carries pid first (first && rai) cc pts a b pos in
      let more : (left_of a b == 0) ≡ false = ground (arith, pos) in
      (
        pes_packet pid first (first && rai) cc pts a b ∷ ps,
        cc',
        rw (pes_loop, more, same) refl,
        (ts, run),
        ap₂ (λ y z. y ++ z) load carry,
      )

  pes_loop-next :
      (n cc : ℕ) (a b : List ℕ)
      → left_of a b ≤ n
      → Gives (pes_loop n pid false rai cc pts a b) cc (a ++ b)
  unfolding pes_loop
  pes_loop-next zero cc a b le =
      let none_left : left_of a b ≡ 0 = omega arith in
      let test : (left_of a b == 0) ≡ true = ground (arith, none_left) in
      rw (test) (Gives-none cc a b none_left)
  pes_loop-next (suc n) cc a b le = elim (Bool-cases (left_of a b == 0)) [
    | inl e ↦ rw (pes_loop, e) (Gives-none cc a b (ground (arith, e)))
    | inr e ↦
        let r = room false (left_of a b) in
        let pos : 0 < left_of a b = ground (arith, e) in
        let less : left_of (drop r a) (rest_of r a b) ≤ n =
          omega (arith, left_of-rest r a b, room-positive false (left_of a b) pos) in
        let step =
          pes_loop-step n false cc a b (drop r a ++ rest_of r a b) pos
            (pes_loop-next n (next_cc cc) (drop r a) (rest_of r a b) less) in
        let whole : (filled r a b ++ []) ++ (drop r a ++ rest_of r a b) ≡ a ++ b =
          ap (λ f. f ++ (drop r a ++ rest_of r a b)) (++_nil (filled r a b)) ∙ filled-rest r a b in
        subst (Gives (pes_loop (suc n) pid false rai cc pts a b) cc) whole step
  ]

  swapped : (f p x : List ℕ) → (p ≡ []) ⊎ (x ≡ []) → (f ++ p) ++ x ≡ (f ++ x) ++ p
  swapped f p x (inl e) = rw (e, ++_nil f, ++_nil (f ++ x)) refl
  swapped f p x (inr e) = rw (e, ++_nil f, ++_nil (f ++ p)) refl

  pad-rest :
      (a b : List ℕ)
      → (pad rai (left_of a b) ≡ [])
        ⊎ (drop (room rai (left_of a b)) a ++ rest_of (room rai (left_of a b)) a b ≡ [])
  pad-rest a b = elim (Bool-cases rai) [
    | inr e ↦ inl (rw (e) refl)
    | inl e ↦ elim (Bool-cases (ltb (left_of a b) 176)) [
      | inl lt ↦
          let r : room rai (left_of a b) ≡ 176 = rw (e) (ground arith) in
          let none_left : left_of (drop (room rai (left_of a b)) a)
                (rest_of (room rai (left_of a b)) a b)
              ≡ 0 =
            ground (arith, r, lt, left_of-rest (room rai (left_of a b)) a b) in
          inr (
            no_bytes (drop (room rai (left_of a b)) a) (rest_of (room rai (left_of a b)) a b)
              none_left)
      | inr ge ↦
          let zero_left : 176 - left_of a b ≡ 0 = ground (arith, ge) in
          inl (rw (e) (ap (λ n. replicate n 255) zero_left))
    ]
  ]

  pes_loop-first :
      (n cc : ℕ) (a b : List ℕ)
      → 0 < left_of a b
      → left_of a b ≤ n
      → Gives (pes_loop n pid true rai cc pts a b) cc ((a ++ b) ++ pad rai (left_of a b))
  pes_loop-first zero cc a b pos le = absurd (omega arith)
  pes_loop-first (suc n) cc a b pos le =
      let r = room rai (left_of a b) in
      let rest = drop r a ++ rest_of r a b in
      let less : left_of (drop r a) (rest_of r a b) ≤ n =
        omega (arith, left_of-rest r a b, room-positive rai (left_of a b) pos) in
      let step =
        pes_loop-step n true cc a b rest pos
          (pes_loop-next n (next_cc cc) (drop r a) (rest_of r a b) less) in
      let whole : (filled r a b ++ pad rai (left_of a b)) ++ rest
          ≡ (a ++ b) ++ pad rai (left_of a b) =
        swapped (filled r a b) (pad rai (left_of a b)) rest (pad-rest a b)
        ∙ ap (λ x. x ++ pad rai (left_of a b)) (filled-rest r a b) in
      subst (Gives (pes_loop (suc n) pid true rai cc pts a b) cc) whole step

-- The time stamp that a receiver reads from the header.
abbrev pts_of : List ℕ → ℕ
pts_of bs =
    get_or bs 9 0 / 2 % 8 * 1073741824
    + get_or bs 10 0 * 4194304
    + get_or bs 11 0 / 2 * 32768
    + get_or bs 12 0 * 128
    + get_or bs 13 0 / 2

pts_of-pes_header :
    (video : Bool) (n pts : ℕ) (rest : List ℕ)
    → pts_of (pes_header video n pts ++ rest) ≡ pts % 8589934592
unfolding pes_header
pts_of-pes_header video n pts rest = omega arith

-- What an access unit becomes: packets with counters from `cc` to `cc'` that carry header, data and padding.
pub record IsMuxed (video : Bool) (es : List ℕ) (pts : ℕ) (rai : Bool) (cc : ℕ) (ps : List Packet)
    (cc' : ℕ) : Type 0 where
  pub counted : Counted cc ps cc'
  pub carried :
      joined ps ≡ (pes_header video (length es) pts ++ es) ++ pad (rai && video) (14 + length es)
  pub stamped : pts_of (joined ps) ≡ pts % 8589934592

emit_pes-IsMuxed :
    (pid : ℕ) (video : Bool) (cc : ℕ) (es : List ℕ) (pts : ℕ) (rai : Bool)
    → (ps : List Packet) × (cc' : ℕ) × (emit_pes pid video cc es pts rai ≡ some (ps, cc'))
      × IsMuxed video es pts rai cc ps cc'
unfolding emit_pes Gives pes_header
emit_pes-IsMuxed pid video cc es pts rai =
    let pes = pes_header video (length es) pts in
    let padding = pad (rai && video) (left_of pes es) in
    let (ps, cc', same, run, carry) =
      pes_loop-first pid (rai && video) pts (left_of pes es) cc pes es (omega arith)
        (omega arith) in
    (
      ps,
      cc',
      same,
      record {
        counted = run;
        carried = carry;
        stamped =
            ap pts_of (carry ∙ ++_assoc pes es padding)
            ∙ pts_of-pes_header video (length es) pts (es ++ padding);
      },
    )

ensure_psi-counters : (m : TsMux) → ((ensure_psi m).cc_v ≡ m.cc_v) × ((ensure_psi m).cc_a ≡ m.cc_a)
unfolding ensure_psi
ensure_psi-counters m = elim (Bool-cases m.wrote_psi) [
  | inl e ↦ rw (e) (refl, refl)
  | inr e ↦ rw (e) (refl, refl)
]

not_zero : (n : ℕ) → 0 < n → (n == 0) ≡ false
not_zero n pos = ground (arith, pos)

-- A video access unit that is not empty is accepted. Behind the tables, where they are still to be
-- written, it becomes packets of 188 bytes whose counters go on from those before, and what a
-- receiver puts together from them is the header, with the time stamp modulo 2^33, and the unit's
-- bytes; only behind a key frame of less than 162 bytes there are bytes 0xFF up to the packet's end.
pub write_video-IsMuxed :
    (m : TsMux) (es : List ℕ) (pts : ℕ) (is_key : Bool)
    → 0 < length es
    → (ps : List Packet) × (m' : TsMux) × (write_video m es pts is_key ≡ some (true, m'))
      × (m'.buf ≡ (ensure_psi m).buf ++ ps)
      × IsMuxed true es pts is_key m.cc_v ps m'.cc_v
unfolding write_video
write_video-IsMuxed m es pts is_key pos =
    let m1 = ensure_psi m in
    let (ps, cc', same, muxed) = emit_pes-IsMuxed pid_video true m1.cc_v es pts is_key in
    let more = not_zero (length es) pos in
    (
      ps,
      record m1 { buf = m1.buf ++ ps; cc_v = cc' },
      rw (write_video, more, same) refl,
      refl,
      subst (λ cc. IsMuxed true es pts is_key cc ps cc') (ensure_psi-counters m).0 muxed,
    )
