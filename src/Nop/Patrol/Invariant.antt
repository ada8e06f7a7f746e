-- ===== src/Nop/Patrol/Invariant.antt =====
-- What holds of the engine and its worker in each stage of a call, and how the worker keeps it.
use nt.Prelude.{
  ◌-◌, get_or, subst, ℕ, ◌+◌, ◌<◌, ◌≡◌, refl, sym, ap, ◌∙◌, ◌⊎◌, inl, inr, arith, List, Bool, true,
  false, Option, none, some, leb, if◌then◌else◌, length, if_both,
}
use nt.Nop.Patrol.{
  Spot, no_spot, tick_ms, Engine, Worker, gone, exited, crashed, looping, locking, moving, holding,
  take_spot, hold, work, hold_ms, Control, free, creating, noting, stopping, clearing, starting,
  accepts,
}

-- There are spots, as many as counted.
pub record HasSpots (e : Engine) : Type 0 where
  pub some_spots : List Spot
  pub there : e.spots ≡ some some_spots
  pub counted : e.spot_count ≡ length some_spots
  pub any : 0 < length some_spots

-- The worker is alive: its thread is there, and it has not read what is not there.
pub data IsAlive : Worker → Type 0 where
  at_end : IsAlive exited
  at_loop : (i : ℕ) → IsAlive (looping i)
  at_lock : (i : ℕ) → IsAlive (locking i)
  at_move : (s : Spot) (i : ℕ) → IsAlive (moving s i)
  at_hold : (left i : ℕ) → IsAlive (holding left i)

-- No thread, or one with its spots; the flag tells which.
unfoldable pub Paired : Engine → Worker → Type 0
Paired e w =
    ((e.thread_valid ≡ false) × (w ≡ gone)) ⊎ ((e.thread_valid ≡ true) × IsAlive w × HasSpots e)

-- What holds in each stage.
unfoldable pub Tidy : Control → Engine → Worker → Type 0
Tidy free e w = Paired e w
Tidy (stopping p) e w = (e.running ≡ false) × (accepts p ≡ true) × Paired e w
Tidy (clearing p) e w = (e.thread_valid ≡ false) × (w ≡ gone) × (accepts p ≡ true)
Tidy (starting channel spots) e w = (e.thread_valid ≡ false) × (w ≡ gone) × (0 < length spots)
Tidy creating e w = (e.thread_valid ≡ false) × (w ≡ gone) × HasSpots e
Tidy noting e w = (e.thread_valid ≡ false) × IsAlive w × HasSpots e

-- The worker under the lock, with its spots there, goes on to a move.
pub take_spot-moving :
    (e : Engine) (i : ℕ)
    → HasSpots e
    → (s : Spot) × (j : ℕ) × (take_spot e i
        ≡ (record e { step_count = e.step_count + 1 }, moving s j))
unfolding take_spot
take_spot-moving e i h =
    let k = if leb e.spot_count i then 0 else i in
    let n = length h.some_spots in
    let full : leb e.spot_count 0 ≡ false = ground (arith, h.counted, h.any) in
    let inside : leb n k ≡ false = ground (arith, h.counted, h.any) in
    let moved : List Spot → Engine × Worker = λ spots.
      (record e { step_count = e.step_count + 1 }, moving (get_or spots k no_spot) (k + 1)) in
    let crash : Engine × Worker = (e, crashed) in
    let picked = λ (spots : List Spot). if leb (length spots) k then crash else moved spots in
    let read : Option (List Spot) → Engine × Worker =
      λ o. elim o [ none ↦ crash | some spots ↦ picked spots ] in
    (
      get_or h.some_spots k no_spot,
      k + 1,
      ap (λ (b : Bool). if b then (e, exited) else read e.spots) full
          ∙ ap read h.there
          ∙ ap (λ (b : Bool). if b then crash else moved h.some_spots) inside,
    )

pub repack :
    (e f : Engine) → e.spots ≡ f.spots → e.spot_count ≡ f.spot_count → HasSpots e → HasSpots f
repack e f same many h = record {
  some_spots = h.some_spots;
  there = sym same ∙ h.there;
  counted = sym many ∙ h.counted;
  any = h.any;
}

-- What a step of the worker keeps.
unfoldable pub Kept : Engine → Engine × Worker → Type 0
Kept e r =
    IsAlive r.1 × HasSpots r.0 × (r.0.thread_valid ≡ e.thread_valid) × (r.0.running ≡ e.running)

take_spot-IsAlive : (e : Engine) (i : ℕ) → HasSpots e → Kept e (take_spot e i)
unfolding Kept
take_spot-IsAlive e i h =
    let (s, j, same) = take_spot-moving e i h in
    let e' = record e { step_count = e.step_count + 1 } in
    subst (Kept e) (sym same) (at_move s j, repack e e' refl refl h, refl, refl)

work-IsAlive : (e : Engine) (w : Worker) → IsAlive w → HasSpots e → Kept e (work e w)
unfolding Kept work hold
work-IsAlive e w at_end h = (at_end, h, refl, refl)
work-IsAlive e w (at_loop i) h = (if_both IsAlive e.running (at_lock i) at_end, h, refl, refl)
work-IsAlive e w (at_lock i) h = take_spot-IsAlive e i h
work-IsAlive e w (at_move s i) h = (
  at_hold (hold_ms s.dwell_seconds) i,
  record { some_spots = h.some_spots; there = h.there; counted = h.counted; any = h.any },
  refl,
  refl,
)
work-IsAlive e w (at_hold left i) h = (
  if_both IsAlive (leb left 0) (if_both IsAlive e.running (at_loop i) at_end)
      (if_both IsAlive e.running (at_hold (left - tick_ms) i) at_end),
  h,
  refl,
  refl,
)

work-Paired :
    (e : Engine) (w : Worker)
    → Paired e w
    → Paired (work e w).0 (work e w).1 × ((work e w).0.running ≡ e.running)
unfolding Paired Kept work
work-Paired e w (inl (off, none_there)) =
    subst (λ v. Paired (work e v).0 (work e v).1 × ((work e v).0.running ≡ e.running))
      (sym none_there) (inl (off, refl), refl)
work-Paired e w (inr (on, alive, spots)) =
    let (alive', spots', same, still) = work-IsAlive e w alive spots in
    (inr (same ∙ on, alive', spots'), still)

work-gone : (e : Engine) (w : Worker) → w ≡ gone → work e w ≡ (e, gone)
unfolding work
work-gone e w h = ap (work e) h

pub work-Tidy :
    (c : Control) (e : Engine) (w : Worker) → Tidy c e w → Tidy c (work e w).0 (work e w).1
unfolding Tidy Kept
work-Tidy free e w v = (work-Paired e w v).0
work-Tidy (stopping p) e w (still, ok, v) =
    let (v', same) = work-Paired e w v in (same ∙ still, ok, v')
work-Tidy (clearing p) e w v =
    subst (λ r. Tidy (clearing p) r.0 r.1) (sym (work-gone e w v.1)) (v.0, refl, v.2)
work-Tidy (starting channel spots) e w v =
    subst (λ r. Tidy (starting channel spots) r.0 r.1) (sym (work-gone e w v.1)) (v.0, refl, v.2)
work-Tidy creating e w v =
    subst (λ r. Tidy creating r.0 r.1) (sym (work-gone e w v.1)) (v.0, refl, v.2)
work-Tidy noting e w (off, alive, spots) =
    let (alive', spots', same, still) = work-IsAlive e w alive spots in (same ∙ off, alive', spots')
