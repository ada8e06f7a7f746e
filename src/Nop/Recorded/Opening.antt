-- ===== src/Nop/Recorded/Opening.antt =====
-- How a segment begins and ends, and the invariant of the engine there.
use nt.Prelude.{
  ℕ, ◌≡◌, sym, ap, ◌∙◌, arith, List, ◌∷◌, Bool, true, false, Option, none, some, leb, length,
  if◌then◌else◌, if_both,
}
use nt.Prelude.Text.{Str}
use nt.Nop.Ring.{Ring}
use nt.Nop.Router.{NopStatus, nop_ok, err_param, err_io}
use nt.Nop.Record.{
  Recorder, event, Segment, Frame, Call, opened, wrote, index_add, path_of, path_kept, path_size,
  open_segment, write_frame, closing, opened_as, open_answer,
}
use nt.Nop.Recorded.Muxer.{
  Hook, hooked, idle, writing, tell, phase, closed_files, removed_files, Filed, IsRecorded,
  closing-phase, closing-Filed,
}

-- What the opening of a segment can come to.
pub data Opening (r : Recorder) (start_ms : ℕ) : NopStatus × Recorder → Type 0 where
  too_long : (path : Str) → Opening r start_ms (err_param, record r { segment_path = path })
  refused : (path : Str) → Opening r start_ms (err_io, record r { segment_path = path })
  granted : (mux : ℕ) (path : Str) → Opening r start_ms (nop_ok, opened_as r start_ms mux path)

pub open_answer-Opening :
    (r : Recorder) (start_ms : ℕ) (path : Str) (answer : Option ℕ)
    → Opening r start_ms (open_answer r start_ms path answer)
open_answer-Opening r start_ms path none = refused path
open_answer-Opening r start_ms path (some mux) = granted mux path

pub open_segment-Opening :
    (h : Hook) (r : Recorder) (start_ms : ℕ)
    → Opening r start_ms (open_segment (hooked h) r start_ms)
unfolding open_segment
open_segment-Opening h r start_ms =
    let path = path_kept (path_of r.config start_ms) in
    if_both (Opening r start_ms) (leb path_size (length (path_of r.config start_ms)))
      (too_long path)
      (open_answer-Opening r start_ms path (h r.log r.config.channel r.config.stream path))

pub Filed-wrote :
    (kept m : ℕ) (f : Frame) (log : List Call) (ring : Ring Segment)
    → Filed kept log ring
    → Filed kept (wrote m f ∷ log) ring
unfolding closed_files removed_files
Filed-wrote kept m f log ring x = record {
  all = x.all;
  sized = x.sized;
  held = x.held;
  files_closed = x.files_closed;
  files_removed = x.files_removed;
}

pub Filed-opened :
    (kept m : ℕ) (p : Str) (log : List Call) (ring : Ring Segment)
    → Filed kept log ring
    → Filed kept (opened p m ∷ log) ring
unfolding closed_files removed_files
Filed-opened kept m p log ring x = record {
  all = x.all;
  sized = x.sized;
  held = x.held;
  files_closed = x.files_closed;
  files_removed = x.files_removed;
}

-- The first frame of a container.
pub first_frame :
    (r : Recorder) (mux : ℕ) (path : Str) (f : Frame)
    → f.is_keyframe ≡ true
    → phase r.log ≡ some idle
    → phase (wrote mux f ∷ opened path mux ∷ r.log) ≡ some (writing mux path)
unfolding phase tell
first_frame r mux path f k e = ground (arith, k, e)

module _ (h : Hook) (kept : ℕ) where
  -- The muxer while a segment is open, and while none is.
  pub phase_open :
      (r : Recorder)
      → IsRecorded kept r
      → r.segment_open ≡ true
      → phase r.log ≡ some (writing r.mux r.segment_path)
  phase_open r v o = v.phased ∙ ap (λ b. some (if b then writing r.mux r.segment_path else idle)) o

  pub phase_shut :
      (r : Recorder) → IsRecorded kept r → r.segment_open ≡ false → phase r.log ≡ some idle
  phase_shut r v o = v.phased ∙ ap (λ b. some (if b then writing r.mux r.segment_path else idle)) o

  pub write_frame-IsRecorded :
      (r : Recorder) (f : Frame)
      → IsRecorded kept r
      → r.segment_open ≡ true
      → IsRecorded kept (write_frame (hooked h) r f)
  unfolding write_frame phase tell
  write_frame-IsRecorded r f v o = record {
    phased = let e = phase_open r v o in ground (arith, e, o);
    filed = Filed-wrote kept r.mux f r.log r.segments v.filed;
    clip = v.clip;
  }

  -- Where nothing is open, another path changes nothing.
  pub repath :
      (r : Recorder) (path : Str)
      → IsRecorded kept r
      → r.segment_open ≡ false
      → IsRecorded kept (record r { segment_path = path })
  repath r path v shut = record {
    phased =
        phase_shut r v shut ∙ ap (λ b. some (if b then writing r.mux path else idle)) (sym shut);
    filed = v.filed;
    clip = v.clip;
  }

  -- A segment that was closed; in event mode the clip is over with it.
  pub closing-IsRecorded :
      (r : Recorder) (clip : Bool)
      → IsRecorded kept r
      → r.segment_open ≡ true
      → (r.config.mode ≡ event → clip ≡ false)
      → IsRecorded kept (record (closing (hooked h) r) { event_recording = clip })
  unfolding closing index_add
  closing-IsRecorded r clip v o over = record {
    phased = closing-phase h r (phase_open r v o);
    filed = closing-Filed h kept r (phase_open r v o) v.filed;
    clip = over;
  }
