-- ===== src/Nop/Record/Preroll.antt =====
-- svc_record.c: the ring of the frames before an event.
use nt.Prelude.{
  ℕ, zero, suc, ◌+◌, ◌-◌, ◌%◌, Bool, true, false, Option, none, some, ltb, ◌==◌, ◌&&◌, ◌||◌,
  if◌then◌else◌,
}
use nt.Nop.Ring.{Ring, ring_put}
use nt.Nop.Record.Types.{Frame, PreFrame, Video, Recorder}
use nt.Nop.Record.Segments.{write_frame}

unfoldable pub pre_clear : Recorder → Recorder
pre_clear r = record r {
  pre_frames = record r.pre_frames {
    slots = λ i.
        if ltb i r.pre_frames.capacity
        then record (r.pre_frames.slots i) { buffered = none }
        else r.pre_frames.slots i;
    count = 0;
    head = 0;
  };
}

unfoldable pub pre_push : Recorder → Frame → Recorder
pre_push r f = if r.pre_frames.capacity == 0 then r else record r {
  pre_frames = ring_put r.pre_frames (record {
    buffered = some f.bits;
    is_keyframe = f.is_keyframe;
    timestamp_ms = f.timestamp_ms;
  });
}

-- The frame that is the `i`-th oldest.
abbrev pub oldest : Ring PreFrame → ℕ → PreFrame
oldest p i = p.slots (((p.head + p.capacity - p.count) % p.capacity + i) % p.capacity)

abbrev pub has_data : PreFrame → Bool
has_data p = elim p.buffered [ none ↦ false | some bits ↦ true ]

-- The first key frame from the `i`-th oldest frame on, of `n`.
unfoldable pub keyframe_from : Ring PreFrame → ℕ → ℕ → Option PreFrame
keyframe_from p i zero = none
keyframe_from p i (suc n) =
    let rest = keyframe_from p (i + 1) n in
    if (oldest p i).is_keyframe && has_data (oldest p i) then some (oldest p i) else rest

unfoldable pub pre_earliest_keyframe : Recorder → ℕ → ℕ
unfolding keyframe_from
pre_earliest_keyframe r fallback_ms = elim (keyframe_from r.pre_frames 0 r.pre_frames.count) [
  | none ↦ fallback_ms
  | some p ↦ p.timestamp_ms
]

unfoldable pub pre_has_keyframe : Recorder → Bool
unfolding keyframe_from
pre_has_keyframe r = elim (keyframe_from r.pre_frames 0 r.pre_frames.count) [
  | none ↦ false
  | some p ↦ true
]

-- The frames from the `i`-th oldest on, `n` of them, written from the first key frame on.
unfoldable pub flush_from : Video → Ring PreFrame → ℕ → ℕ → Bool → Recorder → Recorder
unfolding write_frame
flush_from v p i zero started r = r
flush_from v p i (suc n) started r = elim (oldest p i).buffered [
  | none ↦ flush_from v p (i + 1) n started r
  | some bits ↦
      let kept = started || (oldest p i).is_keyframe in
      flush_from v p (i + 1) n kept (
        if kept
        then write_frame v r (record {
          stream = r.config.stream;
          is_keyframe = (oldest p i).is_keyframe;
          timestamp_ms = (oldest p i).timestamp_ms;
          bits = bits;
        })
        else r)
]

unfoldable pub pre_flush : Video → Recorder → Recorder
unfolding flush_from pre_clear
pre_flush v r =
    if r.pre_frames.count == 0
    then r
    else pre_clear (flush_from v r.pre_frames 0 r.pre_frames.count false r)
