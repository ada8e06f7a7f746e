-- ===== src/Nop/Patrol/Safety.antt =====
-- The calls keep the invariant too, so that it holds wherever the threads get.
use nt.Prelude.{◌≢◌, ltb→lt, ◌≡◌, refl, ◌⊎◌, inl, inr, arith, true, none, length}
use nt.Nop.Patrol.{
  Engine, Worker, gone, crashed, only_stop, then_start, Control, free, creating, noting, stopping,
  clearing, starting, stop_running,
}
use nt.Nop.Patrol.Threads.{
  Patrol, Step, Reach, called, joined, not_joined, cleared, started, created, not_created, noted,
  worked, begun, onward,
}
use nt.Nop.Patrol.Invariant.{
  HasSpots, IsAlive, Paired, Tidy, repack, work-Tidy, at_end, at_loop, at_lock, at_move, at_hold,
}

Step-Tidy :
    (s t : Patrol) → Step s t → Tidy s.control s.engine s.worker → Tidy t.control t.engine t.worker
unfolding Tidy Paired
Step-Tidy s t (called e w p ok) (inl (off, none_there)) = (refl, ok, inl (off, none_there))
Step-Tidy s t (called e w p ok) (inr (on, alive, h)) =
    (refl, ok, inr (on, alive, repack e (stop_running e) refl refl h))
Step-Tidy s t (joined e p on) v = (refl, refl, v.1)
Step-Tidy s t (not_joined e w p off) (still, ok, inl (o, none_there)) = (off, none_there, ok)
Step-Tidy s t (not_joined e w p off) (still, ok, inr (on, alive, h)) =
    absurd (ground (arith, on, off))
Step-Tidy s t (cleared e w only_stop) v = inl (v.0, v.1)
Step-Tidy s t (cleared e w (then_start channel spots)) v = (v.0, v.1, ltb→lt 0 (length spots) v.2)
Step-Tidy s t (started e w channel spots) v =
    (v.0, v.1, record { some_spots = spots; there = refl; counted = refl; any = v.2 })
Step-Tidy s t (created e w) v = (v.0, at_loop 0, v.2)
Step-Tidy s t (not_created e w) v = inl (v.0, v.1)
Step-Tidy s t (noted e w) v =
    inr (refl, v.1, repack e (record e { thread_valid = true }) refl refl v.2)
Step-Tidy s t (worked e c w) v = work-Tidy c e w v

pub Reach-Tidy : (s : Patrol) → Reach s → Tidy s.control s.engine s.worker
unfolding Tidy Paired
Reach-Tidy s begun = inl (refl, refl)
Reach-Tidy s (onward r t k st) = Step-Tidy r s st (Reach-Tidy r k)

-- A worker that is there has spots.
Safe : Engine → Worker → Type 0
Safe e w = (w ≡ gone) ⊎ (IsAlive w × HasSpots e)

Tidy-Safe : (c : Control) (e : Engine) (w : Worker) → Tidy c e w → Safe e w
unfolding Tidy Paired Safe
Tidy-Safe free e w (inl v) = inl v.1
Tidy-Safe free e w (inr v) = inr (v.1, v.2)
Tidy-Safe (stopping p) e w (still, ok, inl v) = inl v.1
Tidy-Safe (stopping p) e w (still, ok, inr v) = inr (v.1, v.2)
Tidy-Safe (clearing p) e w v = inl v.1
Tidy-Safe (starting channel spots) e w v = inl v.1
Tidy-Safe creating e w v = inl v.1
Tidy-Safe noting e w v = inr (v.1, v.2)

Safe-crashed : (e : Engine) (w : Worker) → Safe e w → w ≢ crashed
unfolding Safe
Safe-crashed e w (inl h) c = absurd (grind (arith, h, c))
Safe-crashed e w (inr (at_end, h)) c = absurd (grind (arith, c))
Safe-crashed e w (inr (at_loop i, h)) c = absurd (grind (arith, c))
Safe-crashed e w (inr (at_lock i, h)) c = absurd (grind (arith, c))
Safe-crashed e w (inr (at_move s i, h)) c = absurd (grind (arith, c))
Safe-crashed e w (inr (at_hold left i, h)) c = absurd (grind (arith, c))

Safe-spots : (e : Engine) (w : Worker) → Safe e w → (w ≡ gone) ⊎ (e.spots ≢ none)
unfolding Safe
Safe-spots e w (inl h) = inl h
Safe-spots e w (inr (alive, h)) = inr (λ c. absurd (grind (arith, c, h.there)))

-- Who answers for the thread: nobody where there is none, the flag, or the call that made it.
Tidy-owned :
    (c : Control) (e : Engine) (w : Worker)
    → Tidy c e w
    → (w ≡ gone) ⊎ ((e.thread_valid ≡ true) × (c ≢ creating)) ⊎ (c ≡ noting)
unfolding Tidy Paired
Tidy-owned free e w (inl v) = inl v.1
Tidy-owned free e w (inr v) = inr (inl (v.0, λ c. absurd (grind (arith, c))))
Tidy-owned (stopping p) e w (still, ok, inl v) = inl v.1
Tidy-owned (stopping p) e w (still, ok, inr v) = inr (inl (v.0, λ c. absurd (grind (arith, c))))
Tidy-owned (clearing p) e w v = inl v.1
Tidy-owned (starting channel spots) e w v = inl v.1
Tidy-owned creating e w v = inl v.1
Tidy-owned noting e w v = inr (inr refl)

-- In every state that the calls and the worker reach together, the worker has not read spots that
-- are not there, its spots are not freed while it lives, and a live worker is either noted as joinable,
-- with no second thread about to be made, or was made by the call that is about to note it.
pub Reach-safe :
    (s : Patrol)
    → Reach s
    → (s.worker ≢ crashed)
      × ((s.worker ≡ gone) ⊎ (s.engine.spots ≢ none))
      × ((s.worker ≡ gone)
          ⊎ ((s.engine.thread_valid ≡ true) × (s.control ≢ creating))
          ⊎ (s.control ≡ noting))
Reach-safe s k =
    let v = Reach-Tidy s k in
    let safe = Tidy-Safe s.control s.engine s.worker v in
    (
      Safe-crashed s.engine s.worker safe,
      Safe-spots s.engine s.worker safe,
      Tidy-owned s.control s.engine s.worker v,
    )
