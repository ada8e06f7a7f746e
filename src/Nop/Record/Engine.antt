-- ===== src/Nop/Record/Engine.antt =====
-- svc_record.c: what a frame and a detection do, the engine's creation and end, its queries.
use nt.Prelude.{
  ℕ, suc, ◌-◌, ◌*◌, ◌^◌, List, [], Bool, true, false, Option, none, some, ltb, leb, ◌&&◌, ◌||◌, not,
  if◌then◌else◌, bit_or, min, u64,
}
use nt.Prelude.Int.{ℤ, pos, negsuc, leb_ℤ, ltb_ℤ, eq_ℤ, pos_part}
use nt.Prelude.Text.{is_empty}
use nt.Nop.Ring.{ring_of, newest_from}
use nt.Nop.Router.{NopStatus, nop_ok, err_state}
use nt.Nop.Record.Types.{
  default_segment_seconds, default_max_segments, default_post_seconds, default_event_max_secs,
  assumed_fps, pre_frames_max, RecordMode, RecordConfig, Segment, Frame, Call, Video, Recorder,
  no_segment, no_frame, off, continuous, event,
}
use nt.Nop.Record.Segments.{open_segment, write_frame, close_segment}
use nt.Nop.Record.Preroll.{pre_clear, pre_push, pre_earliest_keyframe, pre_has_keyframe, pre_flush}

-- The conversion of an `int` number of seconds to `uint64_t` milliseconds.
abbrev pub seconds_ms : ℤ → ℕ
seconds_ms (pos n) = n * 1000
seconds_ms (negsuc n) = u64 ((18446744073709551616 - suc n) * 1000)

abbrev pub segment_ms : Recorder → ℕ
segment_ms r = seconds_ms r.config.segment_seconds

abbrev pub elapsed_ms : ℕ → ℕ → ℕ
elapsed_ms now start = if leb start now then now - start else 0

unfoldable pub event_mask_bit : ℕ → ℕ
event_mask_bit kind = if ltb kind 32 then 2 ^ kind else 0

abbrev pub is_ok : NopStatus → Bool
is_ok nop_ok = true
is_ok other = false

-- A frame opens a segment and is its first one.
unfoldable pub start_segment : Video → Recorder → Frame → Recorder
unfolding open_segment write_frame
start_segment v r f =
    let (status, r') = open_segment v r f.timestamp_ms in
    if is_ok status then write_frame v r' f else r'

unfoldable pub write_or_start : Video → Recorder → Frame → Recorder
unfolding write_frame start_segment
write_or_start v r f =
    if r.segment_open
    then write_frame v r f
    else if not f.is_keyframe
    then r
    else start_segment v r f

-- A segment that is long enough is closed before a key frame.
unfoldable pub frame_continuous : Video → Recorder → Frame → Recorder
unfolding close_segment write_or_start
frame_continuous v r f =
    let due = leb (segment_ms r) (elapsed_ms f.timestamp_ms r.segment_start_ms) in
    write_or_start v (if r.segment_open && f.is_keyframe && due then close_segment v r else r) f

-- The first key frame after a trigger opens the clip and is its first frame.
unfoldable pub start_clip : Video → Recorder → Frame → Recorder
unfolding open_segment write_frame
start_clip v r f =
    let (status, r') = open_segment v r f.timestamp_ms in
    if is_ok status
    then write_frame v
        (record r' {
          event_recording = true;
          trigger_pending = false;
          event_last_trigger_ms = f.timestamp_ms;
          segment_event_mask = bit_or r'.segment_event_mask r'.pending_event_mask;
          pending_event_mask = 0;
        })
        f
    else r'

-- A frame of the clip, the last one where a window has run out.
unfoldable pub frame_in_clip : Video → Recorder → Frame → Recorder
unfolding close_segment write_frame
frame_in_clip v r f =
    let r' = write_frame v r f in
    if leb (seconds_ms r.config.post_record_seconds)
        (elapsed_ms f.timestamp_ms r'.event_last_trigger_ms)
      || leb (seconds_ms r.config.event_max_seconds) (elapsed_ms f.timestamp_ms r'.segment_start_ms)
    then record (close_segment v r') { event_recording = false }
    else r'

unfoldable pub frame_event : Video → Recorder → Frame → Recorder
unfolding start_clip frame_in_clip pre_push
frame_event v r f =
    if r.trigger_pending && not r.event_recording
    then (if not f.is_keyframe then pre_push r f else start_clip v r f)
    else if r.event_recording
    then frame_in_clip v r f
    else pre_push r f

unfoldable pub frame_in : RecordMode → Video → Recorder → Frame → Recorder
unfolding frame_continuous frame_event
frame_in off v r f = r
frame_in continuous v r f = frame_continuous v r f
frame_in event v r f = frame_event v r f

unfoldable pub on_frame : Video → Recorder → Frame → Recorder
unfolding frame_in
on_frame v r f = frame_in r.config.mode v (record r { last_frame_ms = f.timestamp_ms }) f

unfoldable pub media_sink : Video → Recorder → ℤ → Frame → Recorder
unfolding on_frame
media_sink v r channel f =
    if eq_ℤ channel r.config.channel && eq_ℤ f.stream r.config.stream then on_frame v r f else r

-- A detection opens a clip from the buffered frames.
unfoldable pub start_buffered : Video → Recorder → ℕ → Recorder
unfolding open_segment pre_flush pre_earliest_keyframe
start_buffered v r bit =
    let (status, r') = open_segment v r (pre_earliest_keyframe r r.last_frame_ms) in
    if is_ok status
    then (let r'' = pre_flush v (record r' { event_recording = true }) in
        record r'' {
          event_last_trigger_ms = r''.last_frame_ms;
          segment_event_mask = bit_or r''.segment_event_mask bit;
        })
    else r'

unfoldable pub event_in : RecordMode → Video → Recorder → ℕ → Recorder
unfolding pre_has_keyframe start_buffered
event_in off v r bit = r
event_in continuous v r bit =
    if r.segment_open then record r { segment_event_mask = bit_or r.segment_event_mask bit } else r
event_in event v r bit =
    if r.event_recording
    then record r {
      event_last_trigger_ms = r.last_frame_ms;
      segment_event_mask = bit_or r.segment_event_mask bit;
    }
    else if pre_has_keyframe r
    then start_buffered v r bit
    else record r { trigger_pending = true; pending_event_mask = bit_or r.pending_event_mask bit }

unfoldable pub event_sink : Video → Recorder → ℤ → ℕ → Recorder
unfolding event_in event_mask_bit
event_sink v r channel kind =
    if eq_ℤ channel r.config.channel then event_in r.config.mode v r (event_mask_bit kind) else r

abbrev pub positive_or : ℤ → ℕ → ℤ
positive_or n default = if leb_ℤ n (pos 0) then pos default else n

abbrev pub event_cap : ℤ → ℤ
event_cap n =
    if leb_ℤ n (pos 0) || ltb_ℤ (pos default_event_max_secs) n
    then pos default_event_max_secs
    else n

-- The configuration with its defaults.
unfoldable pub resolved : RecordConfig → RecordConfig
resolved c = record c {
  segment_seconds = positive_or c.segment_seconds default_segment_seconds;
  max_segments = positive_or c.max_segments default_max_segments;
  post_record_seconds = positive_or c.post_record_seconds default_post_seconds;
  event_max_seconds = event_cap c.event_max_seconds;
}

-- The engine as it is created for a directory.
unfoldable pub record_new : RecordConfig → Recorder
unfolding resolved
record_new given = record {
  config = resolved given;
  media = false;
  event_hub = false;
  mux = 0;
  segment_open = false;
  segment_path = [];
  segment_start_ms = 0;
  segment_last_ms = 0;
  segment_event_mask = 0;
  last_frame_ms = 0;
  event_recording = false;
  event_last_trigger_ms = 0;
  trigger_pending = false;
  pending_event_mask = 0;
  segments = ring_of no_segment (pos_part (resolved given).max_segments);
  pre_frames =
      ring_of no_frame
        (min (pos_part (resolved given).pre_record_seconds * assumed_fps) pre_frames_max);
  log = [];
}

unfoldable pub record_create : RecordConfig → Option Recorder
unfolding record_new
record_create given = if is_empty given.storage_dir then none else some (record_new given)

-- What is left to the disk when the engine is gone: its sources are detached before.
unfoldable pub record_destroy : Video → Recorder → List Call
unfolding close_segment pre_clear
record_destroy v r = (pre_clear (close_segment v r)).log

-- The sources, with whether the subscription was given.
unfoldable pub attach_media : Recorder → Bool → NopStatus × Recorder
attach_media r subscribed =
    if r.media
    then (err_state, r)
    else if not subscribed
    then (err_state, r)
    else (nop_ok, record r { media = true })

unfoldable pub attach_event_hub : Recorder → Bool → NopStatus × Recorder
attach_event_hub r subscribed =
    if r.event_hub
    then (err_state, r)
    else if not subscribed
    then (err_state, r)
    else (nop_ok, record r { event_hub = true })

unfoldable pub record_segments : Recorder → ℤ → List Segment
unfolding newest_from
record_segments r max = newest_from r.segments 0 r.segments.count (pos_part max)

abbrev pub record_segment_count : Recorder → ℕ
record_segment_count r = r.segments.count
