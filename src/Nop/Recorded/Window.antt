-- ===== src/Nop/Recorded/Window.antt =====
-- The windows of an event clip.
use nt.Prelude.{
  subst, ℕ, ◌≤◌, ◌<◌, ◌≡◌, sym, ap, ◌∙◌, arith, true, false, leb, ◌==◌, ◌&&◌, ◌||◌, not,
  if◌then◌else◌, if_split, if_both, bit_or,
}
use nt.Prelude.Int.{ℤ, pos, negsuc}
use nt.Nop.Router.{NopStatus}
use nt.Nop.Record.{
  Recorder, RecordConfig, event, Frame, write_frame, pre_push, is_ok, start_clip, frame_in_clip,
  frame_event, frame_in, on_frame, resolved, elapsed_ms, seconds_ms, positive_or, event_cap,
}
use nt.Nop.Recorded.Muxer.{Hook, hooked}
use nt.Nop.Recorded.Opening.{Opening, too_long, refused, granted, open_segment-Opening}

-- While a clip goes on, the frame that came last is inside both of its windows.
abbrev InWindow : RecordConfig → Frame → Recorder → Type 0
InWindow c f r =
    r.event_recording ≡ true
    → (elapsed_ms f.timestamp_ms r.event_last_trigger_ms < seconds_ms c.post_record_seconds)
      × (elapsed_ms f.timestamp_ms r.segment_start_ms < seconds_ms c.event_max_seconds)

module _ (h : Hook) (c : RecordConfig) where
  pre_push-InWindow :
      (r : Recorder) (f : Frame) → r.event_recording ≡ false → InWindow c f (pre_push r f)
  unfolding pre_push
  pre_push-InWindow r f still =
      if_both (InWindow c f) (r.pre_frames.capacity == 0) (λ on. absurd (ground (arith, on, still)))
        (λ on. absurd (ground (arith, on, still)))

  start_clip-InWindow :
      (r : Recorder) (f : Frame)
      → r.event_recording ≡ false
      → 0 < seconds_ms c.post_record_seconds
      → 0 < seconds_ms c.event_max_seconds
      → InWindow c f (start_clip (hooked h) r f)
  unfolding start_clip write_frame
  start_clip-InWindow r f still post cap = settle _ (open_segment-Opening h r f.timestamp_ms)
    where
      settle :
          (o : NopStatus × Recorder)
          → Opening r f.timestamp_ms o
          → InWindow c f (
              if is_ok o.0
              then write_frame
                  (hooked h)
                  (record o.1 {
                    event_recording = true;
                    trigger_pending = false;
                    event_last_trigger_ms = f.timestamp_ms;
                    segment_event_mask = bit_or o.1.segment_event_mask o.1.pending_event_mask;
                    pending_event_mask = 0;
                  })
                  f
              else o.1)
      settle o (too_long path) = λ on. absurd (ground (arith, on, still))
      settle o (refused path) = λ on. absurd (ground (arith, on, still))
      settle o (granted mux path) = λ on. (ground (arith, post), ground (arith, cap))

  frame_in_clip-InWindow :
      (r : Recorder) (f : Frame) → r.config ≡ c → InWindow c f (frame_in_clip (hooked h) r f)
  unfolding frame_in_clip write_frame
  frame_in_clip-InWindow r f e =
      subst (λ k. InWindow k f (frame_in_clip (hooked h) r f)) e
        (if_split (InWindow r.config f)
          (leb (seconds_ms r.config.post_record_seconds)
              (elapsed_ms f.timestamp_ms r.event_last_trigger_ms)
            || leb (seconds_ms r.config.event_max_seconds)
                (elapsed_ms f.timestamp_ms r.segment_start_ms))
          (λ over on. absurd (ground (arith, on)))
          (λ within on. (ground (arith, within), ground (arith, within))))

  frame_event-InWindow :
      (r : Recorder) (f : Frame)
      → r.config ≡ c
      → 0 < seconds_ms c.post_record_seconds
      → 0 < seconds_ms c.event_max_seconds
      → InWindow c f (frame_event (hooked h) r f)
  unfolding frame_event
  frame_event-InWindow r f e post cap =
      if_split (InWindow c f) (r.trigger_pending && not r.event_recording)
        (λ due.
          if_both (InWindow c f) (not f.is_keyframe) (pre_push-InWindow r f (ground (arith, due)))
            (start_clip-InWindow r f (ground (arith, due)) post cap))
        (λ other.
          if_split (InWindow c f) r.event_recording (λ on. frame_in_clip-InWindow r f e)
            (λ still. pre_push-InWindow r f still))

event_cap-bounds : (n : ℤ) → (0 < seconds_ms (event_cap n)) × (seconds_ms (event_cap n) ≤ 600000)
event_cap-bounds (pos n) = (ground arith, ground arith)
event_cap-bounds (negsuc n) = (ground arith, ground arith)

post-bound : (n : ℤ) (d : ℕ) → 0 < d → 0 < seconds_ms (positive_or n d)
post-bound (pos n) d h = ground (arith, h)
post-bound (negsuc n) d h = ground (arith, h)

-- In event mode, whatever the configuration, a frame leaves a clip open only where less than the time
-- after an event has passed since the last trigger, and less than the cap, which is at most ten
-- minutes, since the clip's start, both on the clock of the frames.
pub on_frame-windows :
    (h : Hook) (c : RecordConfig) (r : Recorder) (f : Frame)
    → r.config ≡ resolved c
    → c.mode ≡ event
    → (on_frame (hooked h) r f).event_recording ≡ true
    → (elapsed_ms f.timestamp_ms (on_frame (hooked h) r f).event_last_trigger_ms
        < seconds_ms (resolved c).post_record_seconds)
      × (elapsed_ms f.timestamp_ms (on_frame (hooked h) r f).segment_start_ms
          < seconds_ms (resolved c).event_max_seconds)
      × (seconds_ms (resolved c).event_max_seconds ≤ 600000)
unfolding on_frame frame_in resolved
on_frame-windows h c r f e mode on =
    let r' = record r { last_frame_ms = f.timestamp_ms } in
    let windows =
      subst (λ m. InWindow (resolved c) f (frame_in m (hooked h) r' f))
        (sym (ap (λ k. k.mode) e ∙ mode))
        (frame_event-InWindow h (resolved c) r' f e
          (post-bound c.post_record_seconds 30 (omega arith))
          (event_cap-bounds c.event_max_seconds).0)
        on in
    (windows.0, windows.1, (event_cap-bounds c.event_max_seconds).1)
