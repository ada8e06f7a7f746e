-- ===== src/Nop/Record/Segments.antt =====
-- svc_record.c: the open segment and the index of the closed ones.
use nt.Prelude.{
  ℕ, zero, suc, ◌+◌, ◌/◌, ◌%◌, [], ◌∷◌, ◌++◌, true, false, Option, none, some, take, ltb, leb, ◌==◌,
  not, if◌then◌else◌, length,
}
use nt.Prelude.Int.{ℤ, pos, negsuc}
use nt.Prelude.Text.{Str}
use nt.Nop.Ring.{ring_put}
use nt.Nop.Router.{NopStatus, nop_ok, err_param, err_notimpl, err_io}
use nt.Nop.Record.Types.{
  path_size, RecordConfig, Frame, Video, Recorder, closed_segment, opened, wrote, closed, removed,
}

unfoldable pub index_add : Recorder → Recorder
index_add r = record r {
  segments = ring_put r.segments (closed_segment r);
  log =
      if r.segments.count == r.segments.capacity
      then removed (r.segments.slots r.segments.head).path ∷ r.log
      else r.log;
}

-- "%llu", the digits before those that are there already; 20 digits are enough for 64 bits.
abbrev pub digits : ℕ → ℕ → Str → Str
digits zero n acc = acc
digits (suc fuel) n acc =
    let more = digits fuel (n / 10) ((48 + n % 10) ∷ acc) in
    if ltb n 10 then (48 + n) ∷ acc else more

unfoldable pub print_ℕ : ℕ → Str
print_ℕ n = digits 20 n []

-- "%d"
unfoldable pub print_ℤ : ℤ → Str
unfolding print_ℕ
print_ℤ (pos n) = print_ℕ n
print_ℤ (negsuc n) = b'-' ∷ print_ℕ (suc n)

-- "%s/ch%d_s%d_%llu.mp4"
unfoldable pub path_of : RecordConfig → ℕ → Str
unfolding print_ℤ print_ℕ
path_of c start_ms =
    c.storage_dir
    ++ (b'/' ∷ b'c' ∷ b'h' ∷ print_ℤ c.channel)
    ++ (b'_' ∷ b's' ∷ print_ℤ c.stream)
    ++ (b'_' ∷ print_ℕ start_ms)
    ++ (b'.' ∷ b'm' ∷ b'p' ∷ b'4' ∷ [])

-- What a buffer of 256 bytes keeps of the text.
unfoldable pub path_kept : Str → Str
path_kept s = take 255 s

-- The state once a segment is open under a handle and a path.
abbrev pub opened_as : Recorder → ℕ → ℕ → Str → Recorder
opened_as r start_ms mux path = record r {
  mux = mux;
  segment_open = true;
  segment_path = path;
  segment_start_ms = start_ms;
  segment_last_ms = start_ms;
  segment_event_mask = 0;
  log = opened path mux ∷ r.log;
}

-- What becomes of the hook's answer.
abbrev pub open_answer : Recorder → ℕ → Str → Option ℕ → NopStatus × Recorder
open_answer r start_ms path none = (err_io, record r { segment_path = path })
open_answer r start_ms path (some mux) = (nop_ok, opened_as r start_ms mux path)

unfoldable pub open_segment : Video → Recorder → ℕ → NopStatus × Recorder
unfolding path_of path_kept
open_segment v r start_ms = elim v.mux_open [
  | none ↦ (err_notimpl, r)
  | some hook ↦
      let path = path_of r.config start_ms in
      if leb path_size (length path)
      then (err_param, record r { segment_path = path_kept path })
      else open_answer r start_ms (path_kept path)
          (hook r.log r.config.channel r.config.stream (path_kept path))
]

unfoldable pub write_frame : Video → Recorder → Frame → Recorder
write_frame v r f = record r {
  log = if v.mux_write then wrote r.mux f ∷ r.log else r.log;
  segment_last_ms =
      if ltb r.segment_last_ms f.timestamp_ms then f.timestamp_ms else r.segment_last_ms;
}

-- The close of a segment that is open.
unfoldable pub closing : Video → Recorder → Recorder
unfolding index_add
closing v r =
    record (index_add (record r { log = if v.mux_close then closed r.mux ∷ r.log else r.log })) {
      mux = 0;
      segment_open = false;
    }

unfoldable pub close_segment : Video → Recorder → Recorder
unfolding closing
close_segment v r = if not r.segment_open then r else closing v r
