-- ===== src/Nop/Patrol.antt =====
-- components/nop/src/services/svc_ptz_patrol.c: the patrol of a camera, with its worker thread. The
-- lock `ctl` makes a start or a stop one call at a time, whose stages are those of `Control`; the worker
-- goes on between any two of them. A camera that is moved is the entry of a list, newest first.
pub mod Threads
pub mod Invariant
pub mod Safety
pub mod Stop
mod Tests
use nt.Prelude.{
  ℕ, zero, suc, ◌+◌, ◌-◌, ◌*◌, List, [], ◌∷◌, Bool, true, false, Option, none, some, ltb, leb, ◌==◌,
  if◌then◌else◌, length, get_or,
}
use nt.Prelude.Int.{ℤ, pos, negsuc}

abbrev pub step_floor_ms : ℕ
step_floor_ms = 20

abbrev pub tick_ms : ℕ
tick_ms = 20

pub record Spot : Type 0 where
  pub preset : ℤ
  pub dwell_seconds : ℤ
  pub speed : ℤ

abbrev pub no_spot : Spot
no_spot = record { preset = pos 0; dwell_seconds = pos 0; speed = pos 0 }

-- `spots` is none where the memory was freed.
pub record Engine : Type 0 where
  pub running : Bool
  pub thread_valid : Bool
  pub channel : ℤ
  pub spots : Option (List Spot)
  pub spot_count : ℕ
  pub step_count : ℕ
  pub moves : List (ℤ × ℤ)

abbrev pub patrol_create : Engine
patrol_create = record {
  running = false;
  thread_valid = false;
  channel = pos 0;
  spots = none;
  spot_count = 0;
  step_count = 0;
  moves = [];
}

-- Where the worker stands, with its index: no thread, before the test of `running`, before the lock,
-- before the move, in the hold with the time that is left, at the end; `crashed` where it read spots
-- that are not there.
pub data Worker : Type 0 where
  gone exited crashed : Worker
  looping locking : ℕ → Worker
  moving : Spot → ℕ → Worker
  holding : ℕ → ℕ → Worker

abbrev pub hold_ms : ℤ → ℕ
hold_ms (pos n) = if ltb (n * 1000) step_floor_ms then step_floor_ms else n * 1000
hold_ms (negsuc n) = step_floor_ms

-- The section of the worker under the lock.
unfoldable pub take_spot : Engine → ℕ → Engine × Worker
take_spot e index =
    if leb e.spot_count 0
    then (e, exited)
    else (let i = if leb e.spot_count index then 0 else index in
        elim e.spots [
          | none ↦ (e, crashed)
          | some spots ↦ if leb (length spots) i then (e, crashed) else (
            record e { step_count = e.step_count + 1 },
            moving (get_or spots i no_spot) (i + 1),
          )
        ])

-- A step of the hold: the test of a stop, then the sleep of a tick.
unfoldable pub hold : Engine → ℕ → ℕ → Worker
hold e left index =
    if leb left 0
    then (if e.running then looping index else exited)
    else if e.running
    then holding (left - tick_ms) index
    else exited

-- One step of the worker.
unfoldable pub work : Engine → Worker → Engine × Worker
unfolding take_spot hold
work e gone = (e, gone)
work e exited = (e, exited)
work e crashed = (e, crashed)
work e (looping index) = (e, if e.running then locking index else exited)
work e (locking index) = take_spot e index
work e (moving spot index) = (
  record e { moves = (e.channel, spot.preset) ∷ e.moves },
  holding (hold_ms spot.dwell_seconds) index,
)
work e (holding left index) = (e, hold e left index)

-- What follows a stop: nothing, or the rest of a start.
pub data Purpose : Type 0 where
  only_stop : Purpose
  then_start : ℤ → List Spot → Purpose

-- A start of no spots is refused before it takes the lock.
abbrev pub accepts : Purpose → Bool
accepts only_stop = true
accepts (then_start channel spots) = ltb 0 (length spots)

abbrev pub stop_running : Engine → Engine
stop_running e = record e { running = false }

-- The stage of the call that holds `ctl`: no call, waiting for the thread, before the spots are freed,
-- before the new ones are set, before the thread is made, and before it is noted as joinable.
pub data Control : Type 0 where
  free creating noting : Control
  stopping clearing : Purpose → Control
  starting : ℤ → List Spot → Control

-- patrol_stop_inner, from where the thread is over.
abbrev pub clear_spots : Engine → Engine
clear_spots e = record e { spots = none; spot_count = 0 }

abbrev pub after_stop : Purpose → Control
after_stop only_stop = free
after_stop (then_start channel spots) = starting channel spots

abbrev pub set_spots : Engine → ℤ → List Spot → Engine
set_spots e channel spots = record e {
  channel = channel;
  spots = some spots;
  spot_count = length spots;
  step_count = 0;
  running = true;
}

-- Where the thread could not be made.
abbrev pub give_up : Engine → Engine
give_up e = record e { running = false; spots = none; spot_count = 0 }
