-- ===== src/Nop/Recorded/Frames.antt =====
-- The engine keeps its invariant over the frames of its source.
use nt.Prelude.{
  ℕ, ◌≡◌, refl, sym, ◌∙◌, arith, true, false, leb, ◌==◌, ◌&&◌, ◌||◌, not, if◌then◌else◌, if_split,
  if_both, bit_or,
}
use nt.Nop.Router.{NopStatus}
use nt.Nop.Record.{
  Recorder, RecordMode, off, continuous, event, Frame, index_add, write_frame, closing,
  close_segment, pre_push, is_ok, start_segment, write_or_start, start_clip, frame_in_clip,
  frame_continuous, frame_event, frame_in, on_frame, segment_ms, elapsed_ms, seconds_ms,
}
use nt.Nop.Recorded.Muxer.{Hook, hooked, IsRecorded}
use nt.Nop.Recorded.Opening.{
  Opening, too_long, refused, granted, open_segment-Opening, Filed-wrote, Filed-opened, first_frame,
  phase_shut, write_frame-IsRecorded, repath, closing-IsRecorded,
}

module _ (h : Hook) (kept : ℕ) where
  start_segment-IsRecorded :
      (r : Recorder) (f : Frame)
      → IsRecorded kept r
      → r.segment_open ≡ false
      → f.is_keyframe ≡ true
      → ¬ (r.config.mode ≡ event)
      → IsRecorded kept (start_segment (hooked h) r f)
  unfolding start_segment write_frame
  start_segment-IsRecorded r f v shut key mode = settle _ (open_segment-Opening h r f.timestamp_ms)
    where
      settle :
          (o : NopStatus × Recorder)
          → Opening r f.timestamp_ms o
          → IsRecorded kept (if is_ok o.0 then write_frame (hooked h) o.1 f else o.1)
      settle o (too_long path) = repath h kept r path v shut
      settle o (refused path) = repath h kept r path v shut
      settle o (granted mux path) = record {
        phased = first_frame r mux path f key (phase_shut h kept r v shut);
        filed =
            Filed-wrote kept mux f _ r.segments
              (Filed-opened kept mux path r.log r.segments v.filed);
        clip = λ e. absurd (mode e);
      }

  write_or_start-IsRecorded :
      (r : Recorder) (f : Frame)
      → IsRecorded kept r
      → ¬ (r.config.mode ≡ event)
      → IsRecorded kept (write_or_start (hooked h) r f)
  unfolding write_or_start
  write_or_start-IsRecorded r f v mode =
      if_split (IsRecorded kept) r.segment_open (λ o. write_frame-IsRecorded h kept r f v o)
        (λ shut.
          if_split (IsRecorded kept) (not f.is_keyframe) (λ other. v)
            (λ key. start_segment-IsRecorded r f v shut (ground (arith, key)) mode))

  close_segment-IsRecorded :
      (r : Recorder)
      → IsRecorded kept r
      → ¬ (r.config.mode ≡ event)
      → IsRecorded kept (close_segment (hooked h) r)
        × ¬ ((close_segment (hooked h) r).config.mode ≡ event)
  unfolding close_segment closing index_add
  close_segment-IsRecorded r v mode =
      if_split (λ s. IsRecorded kept s × ¬ (s.config.mode ≡ event)) (not r.segment_open)
        (λ shut. (v, mode))
        (λ o. (
          closing-IsRecorded h kept r r.event_recording v (ground (arith, o))
              (λ e. absurd (mode e)),
          mode,
        ))

  frame_continuous-IsRecorded :
      (r : Recorder) (f : Frame)
      → IsRecorded kept r
      → ¬ (r.config.mode ≡ event)
      → IsRecorded kept (frame_continuous (hooked h) r f)
  unfolding frame_continuous
  frame_continuous-IsRecorded r f v mode =
      let rotated =
        if_both (λ s. IsRecorded kept s × ¬ (s.config.mode ≡ event))
          (r.segment_open
            && f.is_keyframe
            && leb (segment_ms r) (elapsed_ms f.timestamp_ms r.segment_start_ms))
          (close_segment-IsRecorded r v mode) (v, mode) in
      write_or_start-IsRecorded _ f rotated.0 rotated.1

  pre_push-IsRecorded :
      (r : Recorder) (f : Frame) → IsRecorded kept r → IsRecorded kept (pre_push r f)
  unfolding pre_push
  pre_push-IsRecorded r f v =
      if_both (IsRecorded kept) (r.pre_frames.capacity == 0) v
        (record { phased = v.phased; filed = v.filed; clip = v.clip })

  start_clip-IsRecorded :
      (r : Recorder) (f : Frame)
      → IsRecorded kept r
      → r.segment_open ≡ false
      → f.is_keyframe ≡ true
      → IsRecorded kept (start_clip (hooked h) r f)
  unfolding start_clip write_frame
  start_clip-IsRecorded r f v shut key = settle _ (open_segment-Opening h r f.timestamp_ms)
    where
      settle :
          (o : NopStatus × Recorder)
          → Opening r f.timestamp_ms o
          → IsRecorded kept (
              if is_ok o.0
              then write_frame
                  (hooked h)
                  (record o.1 {
                    event_recording = true;
                    trigger_pending = false;
                    event_last_trigger_ms = f.timestamp_ms;
                    segment_event_mask = bit_or o.1.segment_event_mask o.1.pending_event_mask;
                    pending_event_mask = 0;
                  })
                  f
              else o.1)
      settle o (too_long path) = repath h kept r path v shut
      settle o (refused path) = repath h kept r path v shut
      settle o (granted mux path) = record {
        phased = first_frame r mux path f key (phase_shut h kept r v shut);
        filed =
            Filed-wrote kept mux f _ r.segments
              (Filed-opened kept mux path r.log r.segments v.filed);
        clip = λ e. refl;
      }

  frame_in_clip-IsRecorded :
      (r : Recorder) (f : Frame)
      → IsRecorded kept r
      → r.segment_open ≡ true
      → IsRecorded kept (frame_in_clip (hooked h) r f)
  unfolding frame_in_clip close_segment write_frame
  frame_in_clip-IsRecorded r f v o =
      let w = write_frame-IsRecorded h kept r f v o in
      if_both (IsRecorded kept)
        (leb (seconds_ms r.config.post_record_seconds)
            (elapsed_ms f.timestamp_ms r.event_last_trigger_ms)
          || leb (seconds_ms r.config.event_max_seconds)
              (elapsed_ms f.timestamp_ms r.segment_start_ms))
        (if_split (λ (s : Recorder). IsRecorded kept (record s { event_recording = false }))
          (not r.segment_open) (λ shut. absurd (ground (arith, shut, o)))
          (λ opn. closing-IsRecorded h kept (write_frame (hooked h) r f) false w o (λ e. refl)))
        w

  frame_event-IsRecorded :
      (r : Recorder) (f : Frame)
      → IsRecorded kept r
      → r.config.mode ≡ event
      → IsRecorded kept (frame_event (hooked h) r f)
  unfolding frame_event
  frame_event-IsRecorded r f v mode =
      if_split (IsRecorded kept) (r.trigger_pending && not r.event_recording)
        (λ due.
          if_split (IsRecorded kept) (not f.is_keyframe) (λ other. pre_push-IsRecorded r f v)
            (λ key.
              start_clip-IsRecorded r f v (sym (v.clip mode) ∙ ground (arith, due))
                (ground (arith, key))))
        (λ other.
          if_split (IsRecorded kept) r.event_recording
            (λ e. frame_in_clip-IsRecorded r f v (sym (v.clip mode) ∙ e))
            (λ e. pre_push-IsRecorded r f v))

  frame_in-IsRecorded :
      (m : RecordMode) (r : Recorder) (f : Frame)
      → IsRecorded kept r
      → r.config.mode ≡ m
      → IsRecorded kept (frame_in m (hooked h) r f)
  unfolding frame_in
  frame_in-IsRecorded off r f v e = v
  frame_in-IsRecorded continuous r f v e =
      frame_continuous-IsRecorded r f v (λ d. absurd (grind (arith, e, d)))
  frame_in-IsRecorded event r f v e = frame_event-IsRecorded r f v e

  pub on_frame-IsRecorded :
      (r : Recorder) (f : Frame) → IsRecorded kept r → IsRecorded kept (on_frame (hooked h) r f)
  unfolding on_frame
  on_frame-IsRecorded r f v =
      frame_in-IsRecorded r.config.mode _ f
        (record { phased = v.phased; filed = v.filed; clip = v.clip }) refl
