-- ===== src/Nop/Recorded/Runs.antt =====
-- The runs of the engine: its sources' frames and detections in any order.
use nt.Prelude.{
  subst, ℕ, zero, suc, ◌<◌, ◌≡◌, refl, sym, ap, ◌∙◌, inl, inr, arith, List, [], ◌∷◌, map, none,
  some, ◌&&◌, not, take, drop, drop_short, Bool-cases, if_split, if_both,
}
use nt.Prelude.Int.{ℤ, pos, negsuc, eq_ℤ, pos_part}
use nt.Prelude.Text.{is_empty}
use nt.Nop.Ring.{ring_of-Holds, newest_from-Holds}
use nt.Nop.Record.{
  Recorder, RecordConfig, Segment, Frame, Video, no_segment, close_segment, pre_clear, media_sink,
  event_sink, event_mask_bit, record_create, record_new, record_destroy, record_segments, resolved,
  default_max_segments, positive_or,
}
use nt.Nop.Recorded.Muxer.{
  Hook, hooked, idle, phase, closed_files, removed_files, phase_of, IsRecorded, closing-phase,
}
use nt.Nop.Recorded.Opening.{phase_shut, phase_open}
use mathlib.Core.List.{map}
use nt.Nop.Recorded.Frames.{on_frame-IsRecorded}
use nt.Nop.Recorded.Events.{event_in-IsRecorded}

-- What the sources hand to the engine.
pub data RecordOp : Type 0 where
  op_frame : ℤ → Frame → RecordOp
  op_event : ℤ → ℕ → RecordOp

unfoldable pub step : Video → RecordOp → Recorder → Recorder
unfolding media_sink event_sink
step v (op_frame channel f) r = media_sink v r channel f
step v (op_event channel kind) r = event_sink v r channel kind

unfoldable pub run : Video → List RecordOp → Recorder → Recorder
unfolding step
run v [] r = r
run v (op ∷ ops) r = run v ops (step v op r)

step-IsRecorded :
    (h : Hook) (kept : ℕ) (op : RecordOp) (r : Recorder)
    → IsRecorded kept r
    → IsRecorded kept (step (hooked h) op r)
unfolding step media_sink event_sink
step-IsRecorded h kept (op_frame channel f) r v =
    if_both (IsRecorded kept) (eq_ℤ channel r.config.channel && eq_ℤ f.stream r.config.stream)
      (on_frame-IsRecorded h kept r f v) v
step-IsRecorded h kept (op_event channel kind) r v =
    if_both (IsRecorded kept) (eq_ℤ channel r.config.channel)
      (event_in-IsRecorded h kept r.config.mode r (event_mask_bit kind) v refl) v

run-IsRecorded :
    (h : Hook) (kept : ℕ) (ops : List RecordOp) (r : Recorder)
    → IsRecorded kept r
    → IsRecorded kept (run (hooked h) ops r)
unfolding run
run-IsRecorded h kept [] r v = v
run-IsRecorded h kept (op ∷ ops) r v =
    run-IsRecorded h kept ops (step (hooked h) op r) (step-IsRecorded h kept op r v)

positive : (n : ℤ) (d : ℕ) → 0 < d → 0 < pos_part (positive_or n d)
positive (pos n) d h = ground (arith, h)
positive (negsuc n) d h = ground (arith, h)

-- How many closed files the configuration keeps.
abbrev pub files_kept : RecordConfig → ℕ
files_kept c = pos_part (positive_or c.max_segments default_max_segments)

record_new-IsRecorded : (c : RecordConfig) → IsRecorded (files_kept c) (record_new c)
unfolding record_new resolved phase closed_files removed_files
record_new-IsRecorded c = record {
  phased = refl;
  filed = record {
    all = [];
    sized = refl;
    held = ring_of-Holds no_segment (files_kept c) (positive c.max_segments 48 (omega arith));
    files_closed = refl;
    files_removed = ap (map (λ s. s.path)) (sym (drop_short (files_kept c) [] (omega arith)));
  };
  clip = λ m. refl;
}

created : (c : RecordConfig) (r : Recorder) → record_create c ≡ some r → record_new c ≡ r
unfolding record_create
created c r e = elim (Bool-cases (is_empty c.storage_dir)) [
  | inl b ↦ absurd (ground (arith, b, e))
  | inr b ↦
      let e' : some (record_new c) ≡ some r = ground (arith, b, e) in
      ap (λ o. elim o [ none ↦ record_new c | some x ↦ x ]) e'
]

run_created-IsRecorded :
    (h : Hook) (c : RecordConfig) (r : Recorder) (ops : List RecordOp)
    → record_create c ≡ some r
    → IsRecorded (files_kept c) (run (hooked h) ops r)
run_created-IsRecorded h c r ops e =
    run-IsRecorded h (files_kept c) ops r
      (subst (IsRecorded (files_kept c)) (created c r e) (record_new-IsRecorded c))

destroy-phase :
    (h : Hook) (kept : ℕ) (r : Recorder)
    → IsRecorded kept r
    → phase (record_destroy (hooked h) r) ≡ some idle
unfolding record_destroy pre_clear close_segment
destroy-phase h kept r v =
    if_split (λ (s : Recorder). phase s.log ≡ some idle) (not r.segment_open)
      (λ shut. phase_shut h kept r v (ground (arith, shut)))
      (λ o. closing-phase h r (phase_open h kept r v (ground (arith, o))))

-- For every configuration and every run of frames and detections on a HAL with all mux hooks, which
-- may refuse any container, the muxer is only told what it allows: a container is opened where none
-- is open, its first frame is a key frame, frames and the close go to its handle, and it is not closed
-- without a frame. The engine's view of it is right throughout, and once it is destroyed nothing is
-- left open.
pub run-phase :
    (h : Hook) (c : RecordConfig) (r : Recorder) (ops : List RecordOp)
    → record_create c ≡ some r
    → (phase (run (hooked h) ops r).log ≡ some (phase_of (run (hooked h) ops r)))
      × (phase (record_destroy (hooked h) (run (hooked h) ops r)) ≡ some idle)
run-phase h c r ops e =
    let v = run_created-IsRecorded h c r ops e in (v.phased, destroy-phase h (files_kept c) _ v)

map-take :
    (n : ℕ) (xs : List Segment) → map (λ s. s.path) (take n xs) ≡ take n (map (λ s. s.path) xs)
map-take zero xs = refl
map-take (suc n) [] = refl
map-take (suc n) (x ∷ xs) = ap (λ r. x.path ∷ r) (map-take n xs)

map-drop :
    (n : ℕ) (xs : List Segment) → map (λ s. s.path) (drop n xs) ≡ drop n (map (λ s. s.path) xs)
map-drop zero xs = refl
map-drop (suc n) [] = refl
map-drop (suc n) (x ∷ xs) = map-drop n xs

-- After every such run, a query for `max` segments names the files closed last, the newest first, as
-- many as asked for and the configuration keeps; the closed files beyond those it keeps are the ones
-- that were deleted, and no other file was.
pub run-files :
    (h : Hook) (c : RecordConfig) (r : Recorder) (ops : List RecordOp) (max : ℕ)
    → record_create c ≡ some r
    → (map (λ s. s.path) (record_segments (run (hooked h) ops r) (pos max))
        ≡ take max (take (files_kept c) (closed_files (run (hooked h) ops r).log)))
      × (removed_files (run (hooked h) ops r).log
          ≡ drop (files_kept c) (closed_files (run (hooked h) ops r).log))
unfolding record_segments
run-files h c r ops max e =
    let s = run (hooked h) ops r in
    let x = (run_created-IsRecorded h c r ops e).filed in
    let files = ap (λ l. take max (take (files_kept c) l)) (sym x.files_closed) in
    (
      ap (map (λ s. s.path)) (newest_from-Holds no_segment s.segments x.all max x.held)
          ∙ ap (λ n. map (λ s. s.path) (take max (take n x.all))) x.sized
          ∙ map-take max (take (files_kept c) x.all)
          ∙ ap (take max) (map-take (files_kept c) x.all)
          ∙ files,
      x.files_removed
          ∙ map-drop (files_kept c) x.all
          ∙ ap (drop (files_kept c)) (sym x.files_closed),
    )
