-- ===== src/Nop/Record/Types.antt =====
-- The types and constants of svc_record.c and nop_record.h, and the path of a segment. A call that
-- leaves the engine is an entry of the log, newest first.
use nt.Prelude.{ℕ, List, [], Bool, true, false, Option, none}
use nt.Prelude.Int.{ℤ, pos}
use nt.Prelude.Text.{Str}
use nt.Nop.Ring.{Ring}

abbrev pub default_segment_seconds : ℕ
default_segment_seconds = 60

abbrev pub default_max_segments : ℕ
default_max_segments = 48

abbrev pub default_post_seconds : ℕ
default_post_seconds = 30

abbrev pub default_event_max_secs : ℕ
default_event_max_secs = 600

abbrev pub assumed_fps : ℕ
assumed_fps = 30

abbrev pub pre_frames_max : ℕ
pre_frames_max = 900

abbrev pub path_size : ℕ
path_size = 256

pub data RecordMode : Type 0 where
  off continuous event : RecordMode

pub record RecordConfig : Type 0 where
  pub storage_dir : Str
  pub channel : ℤ
  pub stream : ℤ
  pub mode : RecordMode
  pub segment_seconds : ℤ
  pub max_segments : ℤ
  pub pre_record_seconds : ℤ
  pub post_record_seconds : ℤ
  pub event_max_seconds : ℤ

pub record Segment : Type 0 where
  pub path : Str
  pub channel : ℤ
  pub stream : ℤ
  pub start_ms : ℕ
  pub end_ms : ℕ
  pub event_mask : ℕ
  pub complete : Bool

-- The fields of hal_video_frame_t that the engine reads.
pub record Frame : Type 0 where
  pub stream : ℤ
  pub is_keyframe : Bool
  pub timestamp_ms : ℕ
  pub bits : List ℕ

pub record PreFrame : Type 0 where
  pub buffered : Option (List ℕ)
  pub is_keyframe : Bool
  pub timestamp_ms : ℕ

-- The calls that leave the engine: a container opened under a handle, a frame written to it, the
-- container closed, and a file deleted.
pub data Call : Type 0 where
  opened : Str → ℕ → Call
  wrote : ℕ → Frame → Call
  closed : ℕ → Call
  removed : Str → Call

-- The mux hooks of the HAL, each of which may be missing.
pub record Video : Type 0 where
  pub mux_open : Option (List Call → ℤ → ℤ → Str → Option ℕ)
  pub mux_write : Bool
  pub mux_close : Bool

pub record Recorder : Type 0 where
  pub config : RecordConfig
  pub media : Bool
  pub event_hub : Bool
  pub mux : ℕ
  pub segment_open : Bool
  pub segment_path : Str
  pub segment_start_ms : ℕ
  pub segment_last_ms : ℕ
  pub segment_event_mask : ℕ
  pub last_frame_ms : ℕ
  pub event_recording : Bool
  pub event_last_trigger_ms : ℕ
  pub trigger_pending : Bool
  pub pending_event_mask : ℕ
  pub segments : Ring Segment
  pub pre_frames : Ring PreFrame
  pub log : List Call

-- A zeroed slot of each ring.
abbrev pub no_segment : Segment
no_segment = record {
  path = [];
  channel = pos 0;
  stream = pos 0;
  start_ms = 0;
  end_ms = 0;
  event_mask = 0;
  complete = false;
}

abbrev pub no_frame : PreFrame
no_frame = record { buffered = none; is_keyframe = false; timestamp_ms = 0 }

-- The segment that is open, as the index keeps it once it is closed.
abbrev pub closed_segment : Recorder → Segment
closed_segment r = record {
  path = r.segment_path;
  channel = r.config.channel;
  stream = r.config.stream;
  start_ms = r.segment_start_ms;
  end_ms = r.segment_last_ms;
  event_mask = r.segment_event_mask;
  complete = true;
}
