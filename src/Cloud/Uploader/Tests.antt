-- ===== src/Cloud/Uploader/Tests.antt =====
-- Three frames of an event in slices of a second, with a server that takes every post.
use nt.Prelude.{ℕ, List, [], ◌∷◌, ◌≡◌, refl, true, false, some, map}
use nt.Prelude.Int.{pos}
use nt.Recorder.Types.{slot_of}
use nt.Cloud.Uploader.{World, AccessUnit, CloudEvent, process_event}
use nt.Cloud.Uploader.Settled.{Settled, process_event-Settled}
use nt.Cloud.TsMux.{write_video}

abbrev unit_at : ℕ → AccessUnit
unit_at pts = record { pts = pts; frame_type = 1; codec = 0; bytes = 1 ∷ 2 ∷ 3 ∷ [] }

abbrev world0 : List AccessUnit → World
world0 us = record {
  group_query = λ t0 t1 chn. slot_of [] ∷ [];
  group_play = λ segs. some us;
  get_url = λ starttime code tags. some (record { http_ok = true; err_code = pos 0 });
  post = λ posts p. true;
}

abbrev event0 : CloudEvent
event0 = record { event_id = 7; chn = 2; rectype = 3; starttime = 1005; last_err = pos 0 }

-- The third frame comes after the slice of a second is full; the last post is the end.
process_event_test :
    map
      (λ p. p.0.event_end)
      (process_event (world0 (unit_at 0 ∷ unit_at 90000 ∷ unit_at 120000 ∷ [])) 1000 event0).posts
    ≡ true ∷ false ∷ []
unfolding process_event write_video
process_event_test = refl

-- A last frame that fills its slice leaves no post that is marked as the end.
slices_test :
    map
      (λ p. p.0.event_end)
      (process_event (world0 (unit_at 0 ∷ unit_at 90000 ∷ [])) 1000 event0).posts
    ≡ false ∷ []
unfolding process_event write_video
slices_test = refl

process_event-Settled_example :
    Settled event0 (process_event (world0 (unit_at 0 ∷ unit_at 90000 ∷ [])) 1000 event0)
process_event-Settled_example =
    process_event-Settled (world0 (unit_at 0 ∷ unit_at 90000 ∷ [])) 1000 event0
