-- ===== src/Recorder/Group/Played.antt =====
-- A group player gives the frames of its segments, one segment after the other.
use nt.Prelude.{
  ◌<◌, Bool-cases, ℕ, zero, suc, ◌+◌, ◌≡◌, refl, sym, ◌∙◌, inl, inr, List, [], ◌∷◌, ◌++◌, true,
  false, none, some, map, length, get_elem?, arith, subst,
}
use nt.Recorder.Types.{Err, ok, Slot, FrameHdr}
use nt.Recorder.Device.{Dev}
use nt.Recorder.Player.{Player, play_open, next_frame}
use nt.Recorder.Player.RoundTrip.{play_all}
use nt.Recorder.Group.{Group, group_dev}
use nt.Recorder.Group.Play.{GroupPlayer, place, open_cur, group_play_open, is_fine, group_play_next}

-- What one player gives until it refuses.
pub data Plays : Player → List (FrameHdr × List ℕ) → Type 0 where
  refuses : (p : Player) → is_fine (next_frame p).0 ≡ false → Plays p []
  gives :
      (p : Player) (xs : List (FrameHdr × List ℕ))
      → is_fine (next_frame p).0 ≡ true
      → Plays (next_frame p).3 xs
      → Plays p (((next_frame p).1, (next_frame p).2) ∷ xs)

-- The branch of `play_all` that a status takes.
abbrev kept : Err → List (FrameHdr × List ℕ) → List (FrameHdr × List ℕ)
kept e xs = elim e [ ok ↦ xs | _ ↦ [] ]

kept-fine : (e : Err) (xs : List (FrameHdr × List ℕ)) → is_fine e ≡ true → kept e xs ≡ xs
kept-fine e xs h = ground (arith, h)

kept-bad : (e : Err) (xs : List (FrameHdr × List ℕ)) → is_fine e ≡ false → kept e xs ≡ []
kept-bad e xs h = ground (arith, h)

-- What `play_all` gives with fuel to spare is what the player gives.
pub play_all-Plays :
    (fuel : ℕ) (p : Player) → length (play_all fuel p) < fuel → Plays p (play_all fuel p)
unfolding play_all
play_all-Plays zero p lt = absurd (omega arith)
play_all-Plays (suc fuel) p lt =
    let more = ((next_frame p).1, (next_frame p).2) ∷ play_all fuel (next_frame p).3 in
    elim (Bool-cases (is_fine (next_frame p).0)) [
      | inl fine ↦
          let same = kept-fine (next_frame p).0 more fine in
          let left = subst (λ xs. length xs < suc fuel) same lt in
          subst (Plays p) (sym same) (
            gives p (play_all fuel (next_frame p).3) fine
              (play_all-Plays fuel (next_frame p).3 (omega (arith, left))))
      | inr bad ↦ subst (Plays p) (sym (kept-bad (next_frame p).0 more bad)) (refuses p bad)
    ]

-- What a group player gives until it says that nothing is left, with fuel enough for each call.
pub data PlaysOn (fuel : ℕ) : GroupPlayer → List (FrameHdr × List ℕ × ℕ) → Type 0 where
  ends :
      (p p' : GroupPlayer) (n : ℕ) → group_play_next fuel n p ≡ some (none, p') → PlaysOn fuel p []
  goes_on :
      (p p' : GroupPlayer) (n : ℕ) (x : FrameHdr × List ℕ × ℕ) (xs : List (FrameHdr × List ℕ × ℕ))
      → group_play_next fuel n p ≡ some (some x, p')
      → PlaysOn fuel p' xs
      → PlaysOn fuel p (x ∷ xs)

-- A call that goes on with another segment does what the call there does.
PlaysOn-shift :
    (fuel : ℕ) (p q : GroupPlayer) (xs : List (FrameHdr × List ℕ × ℕ))
    → ((n : ℕ) → group_play_next fuel (suc n) p ≡ group_play_next fuel n q)
    → PlaysOn fuel q xs
    → PlaysOn fuel p xs
PlaysOn-shift fuel p q xs same (ends r r' n e) = ends p r' (suc n) (same n ∙ e)
PlaysOn-shift fuel p q xs same (goes_on r r' n x ys e k) = goes_on p r' (suc n) x ys (same n ∙ e) k

-- The segments with their disks, and what the player of each gives.
pub data AllPlay (g : Group) : List Slot → List (FrameHdr × List ℕ × ℕ) → Type 0 where
  none_left : AllPlay g [] []
  segment :
      (s : Slot) (d : Dev) (xs : List (FrameHdr × List ℕ)) (segs : List Slot)
      (ys : List (FrameHdr × List ℕ × ℕ))
      → group_dev g s.start_disk ≡ some d
      → Plays (play_open d s) xs
      → AllPlay g segs ys
      → AllPlay g (s ∷ segs) (map (λ x. (x.0, x.1, s.start_disk)) xs ++ ys)

-- The place `i` of the list, with the segments from there on.
data At : ℕ → List Slot → List Slot → Type 0 where
  here : (segs : List Slot) → At 0 segs segs
  there : (i : ℕ) (s : Slot) (segs rest : List Slot) → At i segs rest → At (suc i) (s ∷ segs) rest

At-get :
    (i : ℕ) (segs : List Slot) (s : Slot) (rest : List Slot)
    → At i segs (s ∷ rest)
    → get_elem? segs i ≡ some s
At-get i segs s rest (here r) = refl
At-get i segs s rest (there j t ts r a) = At-get j ts s rest a

At-end : (i : ℕ) (segs : List Slot) → At i segs [] → get_elem? segs i ≡ none
At-end i segs (here r) = refl
At-end i segs (there j t ts r a) = At-end j ts a

At-next :
    (i : ℕ) (segs : List Slot) (s : Slot) (rest : List Slot)
    → At i segs (s ∷ rest)
    → At (suc i) segs rest
At-next i segs s rest (here r) = there 0 s rest rest (here rest)
At-next i segs s rest (there j t ts r a) = there (suc j) t ts rest (At-next j ts s rest a)

-- The player at a place, with the player of the segment there.
abbrev pub state_at : Group → List Slot → ℕ → ℕ → Player → GroupPlayer
state_at g segs pts i pl = record {
  g = g;
  segs = segs;
  cur = i;
  pl = some pl;
  pts = pts;
  seek_pending = false;
}

module _ (fuel : ℕ) (g : Group) (all : List Slot) (pts : ℕ) where
  next-gives :
      (i : ℕ) (pl : Player) (s : Slot)
      → is_fine (next_frame pl).0 ≡ true
      → get_elem? all i ≡ some s
      → group_play_next fuel (suc zero) (state_at g all pts i pl)
        ≡ some (
          some ((next_frame pl).1, (next_frame pl).2, s.start_disk),
          state_at g all pts i (next_frame pl).3,
        )
  unfolding group_play_next
  next-gives i pl s fine at = rw (group_play_next, fine, at) refl

  next-ends :
      (i n : ℕ) (pl : Player)
      → is_fine (next_frame pl).0 ≡ false
      → get_elem? all (i + 1) ≡ none
      → group_play_next fuel (suc n) (state_at g all pts i pl)
        ≡ some (none, record (state_at g all pts (i + 1) pl) { pl = none })
  unfolding group_play_next open_cur
  next-ends i n pl bad at = rw (group_play_next, bad, open_cur, at) refl

  next-goes_on :
      (i n : ℕ) (pl : Player) (s : Slot) (d : Dev)
      → is_fine (next_frame pl).0 ≡ false
      → get_elem? all (i + 1) ≡ some s
      → group_dev g s.start_disk ≡ some d
      → group_play_next fuel (suc n) (state_at g all pts i pl)
        ≡ group_play_next fuel n (state_at g all pts (i + 1) (play_open d s))
  unfolding group_play_next open_cur place
  next-goes_on i n pl s d bad at dev = rw (group_play_next, bad, open_cur, at, dev) refl

  -- The frames of one segment, and then what comes after it.
  segment-PlaysOn :
      (i : ℕ) (s : Slot) (ys : List (FrameHdr × List ℕ × ℕ))
      → ((pl : Player)
          → is_fine (next_frame pl).0 ≡ false
          → PlaysOn fuel (state_at g all pts i pl) ys)
      → get_elem? all i ≡ some s
      → (pl : Player) (xs : List (FrameHdr × List ℕ)) → Plays pl xs
      → PlaysOn fuel (state_at g all pts i pl) (map (λ x. (x.0, x.1, s.start_disk)) xs ++ ys)
  segment-PlaysOn i s ys after at pl xs (refuses p bad) = after pl bad
  segment-PlaysOn i s ys after at pl xs (gives p more fine k) =
      goes_on _ _ (suc zero) _ _ (next-gives i pl s fine at)
        (segment-PlaysOn i s ys after at (next_frame pl).3 more k)

  -- The segments behind the one that has come to its end.
  rest-PlaysOn :
      (rest : List Slot) (ys : List (FrameHdr × List ℕ × ℕ))
      → AllPlay g rest ys
      → (i : ℕ) (s : Slot) → At i all (s ∷ rest)
      → (pl : Player) → is_fine (next_frame pl).0 ≡ false
      → PlaysOn fuel (state_at g all pts i pl) ys
  rest-PlaysOn rest ys none_left i s a pl bad = ends _ _ (suc zero) (
      next-ends i zero pl bad (
        subst (λ j. get_elem? all j ≡ none) (omega arith)
          (At-end (suc i) all (At-next i all s [] a))))
  rest-PlaysOn rest ys (segment t d xs segs zs dev k more) i s a pl bad =
      let a' = subst (λ j. At j all (t ∷ segs)) (omega arith) (At-next i all s (t ∷ segs) a) in
      let at = At-get (i + 1) all t segs a' in
      PlaysOn-shift fuel _ _ _ (λ n. next-goes_on i n pl t d bad at dev)
        (segment-PlaysOn (i + 1) t zs (λ pl' b. rest-PlaysOn segs zs more (i + 1) t a' pl' b) at
          (play_open d t) xs k)

-- Segments whose disks are there, and what the player of each gives up to its end: a group player of
-- them opens at the first, gives their frames one segment after the other, each with its disk, and
-- then says that nothing is left; each of its calls comes to an end.
pub group_play-PlaysOn :
    (fuel : ℕ) (g : Group) (s : Slot) (d : Dev) (xs : List (FrameHdr × List ℕ)) (segs : List Slot)
    (ys : List (FrameHdr × List ℕ × ℕ))
    → group_dev g s.start_disk ≡ some d
    → Plays (play_open d s) xs
    → AllPlay g segs ys
    → (p : GroupPlayer) × (group_play_open fuel g (s ∷ segs) ≡ some (some p))
      × PlaysOn fuel p (map (λ x. (x.0, x.1, s.start_disk)) xs ++ ys)
unfolding group_play_open open_cur place
group_play-PlaysOn fuel g s d xs segs ys dev k more =
    let first = here (s ∷ segs) in
    (
      state_at g (s ∷ segs) 0 0 (play_open d s),
      rw (dev) refl,
      segment-PlaysOn fuel g (s ∷ segs) 0 0 s ys
          (λ pl b. rest-PlaysOn fuel g (s ∷ segs) 0 segs ys more 0 s first pl b) refl
          (play_open d s) xs k,
    )
