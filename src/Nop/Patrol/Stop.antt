-- ===== src/Nop/Patrol/Stop.antt =====
-- A stop comes to its end.
use nt.Prelude.{
  subst, ℕ, zero, suc, ◌+◌, ◌≡◌, refl, ap, ◌∙◌, ◌⊎◌, inl, inr, arith, ◌∷◌, true, false,
}
use nt.Nop.Patrol.{
  Spot, Engine, Worker, gone, exited, moving, hold, work, hold_ms, Purpose, stopping,
}
use nt.Nop.Patrol.Threads.{Patrol, Reach}
use nt.Nop.Patrol.Invariant.{
  HasSpots, IsAlive, Paired, Tidy, take_spot-moving, at_end, at_loop, at_lock, at_move, at_hold,
}
use nt.Nop.Patrol.Safety.{Reach-Tidy}

-- The worker alone, for a number of steps.
unfoldable pub works : ℕ → Engine → Worker → Engine × Worker
unfolding work
works zero e w = (e, w)
works (suc n) e w = let (e', w') = work e w in works n e' w'

works-exited : (n : ℕ) (e : Engine) → (works n e exited).1 ≡ exited
unfolding works work
works-exited zero e = refl
works-exited (suc n) e = works-exited n e

hold-exited : (e : Engine) (left i : ℕ) → e.running ≡ false → hold e left i ≡ exited
unfolding hold
hold-exited e left i still = ground (arith, still)

works-moving :
    (e : Engine) (s : Spot) (i : ℕ) → e.running ≡ false → (works 2 e (moving s i)).1 ≡ exited
unfolding works work
works-moving e s i still =
    hold-exited (record e { moves = (e.channel, s.preset) ∷ e.moves }) (hold_ms s.dwell_seconds) i
      still

works-stop :
    (e : Engine) (w : Worker)
    → IsAlive w
    → HasSpots e
    → e.running ≡ false
    → (works 3 e w).1 ≡ exited
unfolding works work
works-stop e w at_end h still = refl
works-stop e w (at_loop i) h still = rw (still) refl
works-stop e w (at_lock i) h still =
    let (s, j, same) = take_spot-moving e i h in
    ap (λ r. (works 2 r.0 r.1).1) same
    ∙ works-moving (record e { step_count = e.step_count + 1 }) s j still
works-stop e w (at_move s i) h still =
    let e' = record e { moves = (e.channel, s.preset) ∷ e.moves } in
    ap (λ v. (work e' v).1) (hold-exited e' (hold_ms s.dwell_seconds) i still)
works-stop e w (at_hold left i) h still = rw (hold-exited e left i still) refl

-- While a call waits for the thread, three steps of the worker alone bring it to its end: so the join
-- returns after at most one move and one tick. Where the flag says that there is nothing to join,
-- there is no thread.
pub works-joins :
    (s : Patrol) (p : Purpose)
    → Reach s
    → s.control ≡ stopping p
    → ((s.engine.thread_valid ≡ true) × ((works 3 s.engine s.worker).1 ≡ exited))
      ⊎ ((s.engine.thread_valid ≡ false) × (s.worker ≡ gone))
unfolding Tidy Paired
works-joins s p k e = settle (subst (λ c. Tidy c s.engine s.worker) e (Reach-Tidy s k))
  where
    settle :
        Tidy (stopping p) s.engine s.worker
        → ((s.engine.thread_valid ≡ true) × ((works 3 s.engine s.worker).1 ≡ exited))
          ⊎ ((s.engine.thread_valid ≡ false) × (s.worker ≡ gone))
    settle (still, ok, inl v) = inr v
    settle (still, ok, inr (on, alive, h)) = inl (on, works-stop s.engine s.worker alive h still)
