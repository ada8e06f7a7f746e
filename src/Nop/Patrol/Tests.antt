-- ===== src/Nop/Patrol/Tests.antt =====
-- A patrol of two spots that is started, and stopped in its hold.
use nt.Prelude.{List, [], ◌∷◌, ◌≡◌, ◌≢◌, ◌⊎◌, refl, true, false, none}
use nt.Prelude.Int.{pos}
use nt.Nop.Patrol.{
  Spot, patrol_create, gone, exited, crashed, looping, Purpose, only_stop, then_start, free,
  creating, noting, stopping, clearing, starting, clear_spots, set_spots, stop_running, work,
}
use nt.Nop.Patrol.Threads.{
  Patrol, patrol0, called, not_joined, cleared, started, created, noted, worked, Reach, begun,
  onward,
}
use nt.Nop.Patrol.Safety.{Reach-safe}
use nt.Nop.Patrol.Stop.{works, works-joins}

abbrev spots0 : List Spot
spots0 =
    record { preset = pos 3; dwell_seconds = pos 1; speed = pos 0 }
    ∷ record { preset = pos 5; dwell_seconds = pos 0; speed = pos 0 }
    ∷ []

abbrev start0 : Purpose
start0 = then_start (pos 1) spots0

abbrev s1 : Patrol
s1 = record { engine = stop_running patrol_create; control = stopping start0; worker = gone }

abbrev s2 : Patrol
s2 = record { engine = stop_running patrol_create; control = clearing start0; worker = gone }

abbrev s3 : Patrol
s3 = record {
  engine = clear_spots (stop_running patrol_create);
  control = starting (pos 1) spots0;
  worker = gone;
}

abbrev s4 : Patrol
s4 = record { engine = set_spots s3.engine (pos 1) spots0; control = creating; worker = gone }

abbrev s5 : Patrol
s5 = record { engine = s4.engine; control = noting; worker = looping 0 }

abbrev s6 : Patrol
s6 = record {
  engine = record s4.engine { thread_valid = true };
  control = free;
  worker = looping 0;
}

abbrev s7 : Patrol
s7 = record {
  engine = (work s6.engine s6.worker).0;
  control = free;
  worker = (work s6.engine s6.worker).1;
}

abbrev s8 : Patrol
s8 = record { engine = stop_running s7.engine; control = stopping only_stop; worker = s7.worker }

s4-Reach : Reach s4
s4-Reach =
    onward s3 s4
      (onward s2 s3
        (onward s1 s2 (onward patrol0 s1 begun (called patrol_create gone start0 refl))
          (not_joined s1.engine gone start0 refl))
        (cleared s2.engine gone start0))
      (started s3.engine gone (pos 1) spots0)

s8-Reach : Reach s8
s8-Reach =
    onward s7 s8
      (onward s6 s7
        (onward s5 s6 (onward s4 s5 s4-Reach (created s4.engine gone)) (noted s5.engine s5.worker))
        (worked s6.engine free s6.worker))
      (called s7.engine s7.worker only_stop refl)

-- Two spots are taken in turns, the third time the first one again.
works_test : (works 61 s6.engine s6.worker).0.step_count ≡ 3
unfolding works work
works_test = refl

Reach-safe_example :
    (s8.worker ≢ crashed)
    × ((s8.worker ≡ gone) ⊎ (s8.engine.spots ≢ none))
    × ((s8.worker ≡ gone)
        ⊎ ((s8.engine.thread_valid ≡ true) × (s8.control ≢ creating))
        ⊎ (s8.control ≡ noting))
Reach-safe_example = Reach-safe s8 s8-Reach

works-joins_example :
    ((s8.engine.thread_valid ≡ true) × ((works 3 s8.engine s8.worker).1 ≡ exited))
    ⊎ ((s8.engine.thread_valid ≡ false) × (s8.worker ≡ gone))
works-joins_example = works-joins s8 only_stop s8-Reach refl
