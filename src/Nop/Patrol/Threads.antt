-- ===== src/Nop/Patrol/Threads.antt =====
-- The worker of a patrol beside the calls that start and stop it.
use nt.Prelude.{◌≡◌, List, true, false}
use nt.Prelude.Int.{ℤ}
use nt.Nop.Patrol.{
  Spot, Engine, patrol_create, Worker, gone, exited, looping, work, Purpose, Control, free,
  creating, noting, stopping, clearing, starting, clear_spots, after_stop, accepts, stop_running,
  set_spots, give_up,
}

pub record Patrol : Type 0 where
  pub engine : Engine
  pub control : Control
  pub worker : Worker

abbrev pub patrol0 : Patrol
patrol0 = record { engine = patrol_create; control = free; worker = gone }

-- What can happen next: a call takes its lock, a call goes on by a stage, the worker goes on.
pub data Step : Patrol → Patrol → Type 0 where
  called :
      (e : Engine) (w : Worker) (p : Purpose)
      → accepts p ≡ true
      → Step
          (record { engine = e; control = free; worker = w })
          (record { engine = stop_running e; control = stopping p; worker = w })
  joined :
      (e : Engine) (p : Purpose)
      → e.thread_valid ≡ true
      → Step
          (record { engine = e; control = stopping p; worker = exited })
          (record {
            engine = record e { thread_valid = false };
            control = clearing p;
            worker = gone;
          })
  not_joined :
      (e : Engine) (w : Worker) (p : Purpose)
      → e.thread_valid ≡ false
      → Step
          (record { engine = e; control = stopping p; worker = w })
          (record { engine = e; control = clearing p; worker = w })
  cleared :
      (e : Engine) (w : Worker) (p : Purpose)
      → Step
          (record { engine = e; control = clearing p; worker = w })
          (record { engine = clear_spots e; control = after_stop p; worker = w })
  started :
      (e : Engine) (w : Worker) (channel : ℤ) (spots : List Spot)
      → Step
          (record { engine = e; control = starting channel spots; worker = w })
          (record { engine = set_spots e channel spots; control = creating; worker = w })
  created :
      (e : Engine) (w : Worker)
      → Step
          (record { engine = e; control = creating; worker = w })
          (record { engine = e; control = noting; worker = looping 0 })
  not_created :
      (e : Engine) (w : Worker)
      → Step
          (record { engine = e; control = creating; worker = w })
          (record { engine = give_up e; control = free; worker = w })
  noted :
      (e : Engine) (w : Worker)
      → Step
          (record { engine = e; control = noting; worker = w })
          (record { engine = record e { thread_valid = true }; control = free; worker = w })
  worked :
      (e : Engine) (c : Control) (w : Worker)
      → Step
          (record { engine = e; control = c; worker = w })
          (record { engine = (work e w).0; control = c; worker = (work e w).1 })

pub data Reach : Patrol → Type 0 where
  begun : Reach patrol0
  onward : (s t : Patrol) → Reach s → Step s t → Reach t
