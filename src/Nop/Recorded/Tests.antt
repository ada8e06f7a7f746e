-- ===== src/Nop/Recorded/Tests.antt =====
-- An engine with room for two files, its frames and detections, and the theorems of the engine at them.
use nt.Prelude.{
  ℕ, Bool, true, false, none, some, List, [], ◌∷◌, ◌≤◌, ◌<◌, ◌≡◌, refl, take, drop, length, leb,
  if◌then◌else◌, map,
}
use nt.Prelude.Int.{pos}
use nt.Nop.Ring.{ring_put}
use nt.Nop.Record.{
  RecordConfig, Recorder, Frame, continuous, event, record_create, record_new, record_segments,
  record_destroy, resolved, elapsed_ms, seconds_ms, on_frame, path_of,
}
use nt.Nop.Recorded.Muxer.{Hook, hooked, idle, phase, phase_of, closed_files, removed_files}
use nt.Nop.Recorded.Runs.{RecordOp, op_frame, op_event, run, run-phase, run-files, files_kept}
use nt.Nop.Recorded.Window.{on_frame-windows}

abbrev config0 : RecordConfig
config0 = record {
  storage_dir = b'/' ∷ b'm' ∷ [];
  channel = pos 1;
  stream = pos 0;
  mode = continuous;
  segment_seconds = pos 2;
  max_segments = pos 2;
  pre_record_seconds = pos 1;
  post_record_seconds = pos 3;
  event_max_seconds = pos 10;
}

abbrev config1 : RecordConfig
config1 = record config0 { mode = event }

-- A muxer that gives the next free handle, up to 20.
abbrev hook0 : Hook
hook0 log channel stream path = if leb 100 (length log) then none else some (length log)

abbrev frame_at : ℕ → Bool → RecordOp
frame_at t key =
    op_frame (pos 1)
      (record { stream = pos 0; is_keyframe = key; timestamp_ms = t; bits = 1 ∷ 2 ∷ [] })

abbrev ops0 : List RecordOp
ops0 =
    frame_at 900 false
    ∷ frame_at 1000 true
    ∷ frame_at 2000 false
    ∷ op_event (pos 1) 3
    ∷ frame_at 3000 true
    ∷ frame_at 5000 true
    ∷ frame_at 7000 true
    ∷ []

abbrev ops1 : List RecordOp
ops1 =
    frame_at 900 false
    ∷ frame_at 1000 true
    ∷ frame_at 2000 false
    ∷ op_event (pos 1) 3
    ∷ frame_at 3000 false
    ∷ frame_at 5000 true
    ∷ []

-- Three segments of two seconds are closed, the first of them is deleted.
removed_files_test :
    removed_files (run (hooked hook0) ops0 (record_new config0)).log ≡ path_of config0 1000 ∷ []
unfolding removed_files run record_new path_of ring_put
removed_files_test = refl

-- The clip begins at the key frame before the event and is closed three seconds after it.
closed_files_test :
    closed_files (run (hooked hook0) ops1 (record_new config1)).log ≡ path_of config1 1000 ∷ []
unfolding closed_files run record_new path_of ring_put
closed_files_test = refl

-- "/m/ch1_s0_900.mp4"
path_of_test :
    path_of config0 900
    ≡ b'/' ∷ b'm' ∷ b'/' ∷ b'c' ∷ b'h' ∷ b'1' ∷ b'_' ∷ b's' ∷ b'0' ∷ b'_' ∷ b'9' ∷ b'0' ∷ b'0'
      ∷ b'.' ∷ b'm' ∷ b'p' ∷ b'4' ∷ []
unfolding path_of
path_of_test = refl

run-phase_example :
    (phase (run (hooked hook0) ops1 (record_new config1)).log
      ≡ some (phase_of (run (hooked hook0) ops1 (record_new config1))))
    × (phase (record_destroy (hooked hook0) (run (hooked hook0) ops1 (record_new config1)))
        ≡ some idle)
unfolding record_create
run-phase_example = run-phase hook0 config1 (record_new config1) ops1 refl

run-files_example :
    (map (λ s. s.path) (record_segments (run (hooked hook0) ops0 (record_new config0)) (pos 5))
      ≡ take 5 (
          take
            (files_kept config0)
            (closed_files (run (hooked hook0) ops0 (record_new config0)).log)))
    × (removed_files (run (hooked hook0) ops0 (record_new config0)).log
        ≡ drop
            (files_kept config0)
            (closed_files (run (hooked hook0) ops0 (record_new config0)).log))
unfolding record_create
run-files_example = run-files hook0 config0 (record_new config0) ops0 5 refl

abbrev frame0 : Frame
frame0 = record { stream = pos 0; is_keyframe = true; timestamp_ms = 1000; bits = [] }

abbrev pending0 : Recorder
pending0 = record (record_new config1) { trigger_pending = true }

on_frame-windows_example :
    (elapsed_ms 1000 (on_frame (hooked hook0) pending0 frame0).event_last_trigger_ms
      < seconds_ms (resolved config1).post_record_seconds)
    × (elapsed_ms 1000 (on_frame (hooked hook0) pending0 frame0).segment_start_ms
        < seconds_ms (resolved config1).event_max_seconds)
    × (seconds_ms (resolved config1).event_max_seconds ≤ 600000)
unfolding record_new on_frame path_of
on_frame-windows_example = on_frame-windows hook0 config1 pending0 frame0 refl refl refl
