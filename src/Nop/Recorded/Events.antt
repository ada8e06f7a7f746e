-- ===== src/Nop/Recorded/Events.antt =====
-- The engine keeps its invariant over the detections, and over the flush of the frames before one.
use nt.Prelude.{
  subst, ℕ, zero, suc, ◌+◌, ◌≡◌, refl, sym, ap, ◌∙◌, inl, inr, arith, List, true, false, some, ◌==◌,
  if◌then◌else◌, Bool-cases, Option-cases, if_split, if_both, bit_or,
}
use nt.Nop.Ring.{Ring}
use nt.Nop.Router.{NopStatus}
use nt.Nop.Record.{
  Recorder, RecordMode, off, continuous, event, Frame, PreFrame, Call, opened, write_frame,
  pre_clear, oldest, opened_as, keyframe_from, pre_has_keyframe, pre_earliest_keyframe, flush_from,
  pre_flush, is_ok, start_buffered, event_in,
}
use nt.Nop.Recorded.Muxer.{Hook, hooked, started, writing, tell, phase, Filed, IsRecorded}
use nt.Nop.Recorded.Opening.{
  Opening, too_long, refused, granted, open_segment-Opening, Filed-wrote, Filed-opened, phase_shut,
  repath,
}

-- What a flush changes: only the log and the end of the segment, and the container has frames.
Flushed : ℕ → Recorder → Recorder → Type 0
Flushed kept r r' =
    (l : List Call) × (t : ℕ) × (r' ≡ record r { log = l; segment_last_ms = t })
    × (phase l ≡ some (writing r.mux r.segment_path))
    × Filed kept l r.segments

-- The buffered frame, as it is written.
abbrev frame_of : Recorder → PreFrame → List ℕ → Frame
frame_of r b bits = record {
  stream = r.config.stream;
  is_keyframe = b.is_keyframe;
  timestamp_ms = b.timestamp_ms;
  bits = bits;
}

flush_started :
    (h : Hook) (kept : ℕ) (p : Ring PreFrame) (i n : ℕ) (r : Recorder)
    → phase r.log ≡ some (writing r.mux r.segment_path)
    → Filed kept r.log r.segments
    → Flushed kept r (flush_from (hooked h) p i n true r)
unfolding Flushed flush_from write_frame phase tell
flush_started h kept p i zero r e x = (r.log, r.segment_last_ms, refl, e, x)
flush_started h kept p i (suc n) r e x = elim (Option-cases (oldest p i).buffered) [
  | inl none_there ↦
      subst (Flushed kept r) (ground (arith, none_there)) (flush_started h kept p (i + 1) n r e x)
  | inr (bits, there) ↦ subst (Flushed kept r) (ground (arith, there)) (
      flush_started h kept p (i + 1) n (write_frame (hooked h) r (frame_of r (oldest p i) bits))
        (ground (arith, e))
        (Filed-wrote kept r.mux (frame_of r (oldest p i) bits) r.log r.segments x))
]

-- A container that is empty gets a key frame first where the ring holds one.
flush_fresh :
    (h : Hook) (kept : ℕ) (p : Ring PreFrame) (i n : ℕ) (q : PreFrame) (r : Recorder)
    → keyframe_from p i n ≡ some q
    → phase r.log ≡ some (started r.mux r.segment_path)
    → Filed kept r.log r.segments
    → Flushed kept r (flush_from (hooked h) p i n false r)
unfolding Flushed flush_from keyframe_from write_frame phase tell
flush_fresh h kept p i zero q r k e x = absurd (ground (arith, k))
flush_fresh h kept p i (suc n) q r k e x = elim (Option-cases (oldest p i).buffered) [
  | inl none_there ↦
      subst (Flushed kept r) (ground (arith, none_there))
        (flush_fresh h kept p (i + 1) n q r (ground (arith, k, none_there)) e x)
  | inr (bits, there) ↦ elim (Bool-cases (oldest p i).is_keyframe) [
    | inl key ↦ subst (Flushed kept r) (ground (arith, there, key)) (
        flush_started h kept p (i + 1) n (write_frame (hooked h) r (frame_of r (oldest p i) bits))
          (ground (arith, e, key))
          (Filed-wrote kept r.mux (frame_of r (oldest p i) bits) r.log r.segments x))
    | inr other ↦
        subst (Flushed kept r) (ground (arith, there, other))
          (flush_fresh h kept p (i + 1) n q r (ground (arith, k, other)) e x)
  ]
]

keyframe-some :
    (p : Ring PreFrame) (i n : ℕ) (q : PreFrame) → keyframe_from p i n ≡ some q → (n == 0) ≡ false
unfolding keyframe_from
keyframe-some p i zero q e = absurd (ground (arith, e))
keyframe-some p i (suc n) q e = ground arith

has-keyframe :
    (r : Recorder)
    → pre_has_keyframe r ≡ true
    → (q : PreFrame) × (keyframe_from r.pre_frames 0 r.pre_frames.count ≡ some q)
unfolding pre_has_keyframe
has-keyframe r has = elim (Option-cases (keyframe_from r.pre_frames 0 r.pre_frames.count)) [
  | inl e ↦ absurd (ground (arith, has, e))
  | inr x ↦ x
]

pre_flush-Flushed :
    (h : Hook) (kept : ℕ) (r : Recorder)
    → pre_has_keyframe r ≡ true
    → phase r.log ≡ some (started r.mux r.segment_path)
    → Filed kept r.log r.segments
    → (s : Recorder) × Flushed kept r s × (pre_flush (hooked h) r ≡ pre_clear s)
unfolding pre_flush
pre_flush-Flushed h kept r has e x =
    let k = has-keyframe r has in
    (
      flush_from (hooked h) r.pre_frames 0 r.pre_frames.count false r,
      flush_fresh h kept r.pre_frames 0 r.pre_frames.count k.0 r k.1 e x,
      ap
          (λ b.
            if b
            then r
            else pre_clear (flush_from (hooked h) r.pre_frames 0 r.pre_frames.count false r))
          (keyframe-some r.pre_frames 0 r.pre_frames.count k.0 k.1),
    )

-- A detection with a key frame in the ring before the event.
start_buffered-IsRecorded :
    (h : Hook) (kept : ℕ) (r : Recorder) (bit : ℕ)
    → IsRecorded kept r
    → r.segment_open ≡ false
    → pre_has_keyframe r ≡ true
    → IsRecorded kept (start_buffered (hooked h) r bit)
unfolding start_buffered pre_has_keyframe Flushed pre_clear phase tell
start_buffered-IsRecorded h kept r bit v shut has =
    settle _ (open_segment-Opening h r (pre_earliest_keyframe r r.last_frame_ms))
  where
    tagged : Recorder → Recorder
    tagged s = record s {
      event_last_trigger_ms = s.last_frame_ms;
      segment_event_mask = bit_or s.segment_event_mask bit;
    }

    settle :
        (o : NopStatus × Recorder)
        → Opening r (pre_earliest_keyframe r r.last_frame_ms) o
        → IsRecorded kept (
            if is_ok o.0
            then tagged (pre_flush (hooked h) (record o.1 { event_recording = true }))
            else o.1)
    settle o (too_long path) = repath h kept r path v shut
    settle o (refused path) = repath h kept r path v shut
    settle o (granted mux path) =
        let t = pre_earliest_keyframe r r.last_frame_ms in
        let fresh = ap (tell (opened path mux)) (phase_shut h kept r v shut) in
        let filed = Filed-opened kept mux path r.log r.segments v.filed in
        let r' = record (opened_as r t mux path) { event_recording = true } in
        let (s, (l, last, same, phased, files), flushed) =
          pre_flush-Flushed h kept r' has fresh filed in
        subst (λ x. IsRecorded kept (tagged x)) (sym (flushed ∙ ap pre_clear same))
          (record { phased = phased; filed = files; clip = λ e. refl })

pub event_in-IsRecorded :
    (h : Hook) (kept : ℕ) (m : RecordMode) (r : Recorder) (bit : ℕ)
    → IsRecorded kept r
    → r.config.mode ≡ m
    → IsRecorded kept (event_in m (hooked h) r bit)
unfolding event_in
event_in-IsRecorded h kept off r bit v e = v
event_in-IsRecorded h kept continuous r bit v e =
    if_both (IsRecorded kept) r.segment_open
      (record { phased = v.phased; filed = v.filed; clip = v.clip }) v
event_in-IsRecorded h kept event r bit v e =
    if_split (IsRecorded kept) r.event_recording
      (λ on. record { phased = v.phased; filed = v.filed; clip = v.clip })
      (λ shut.
        if_split (IsRecorded kept) (pre_has_keyframe r)
          (λ has. start_buffered-IsRecorded h kept r bit v (sym (v.clip e) ∙ shut) has)
          (λ none_there. record { phased = v.phased; filed = v.filed; clip = v.clip }))
