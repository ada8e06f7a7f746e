-- ===== src/Cloud/Uploader.antt =====
-- components/cloud_uploader/src/uploader.c: an event that waits is read from the disks, cut into slices
-- of the transport stream and posted. The disks, the address and the posts are answers of the world;
-- the state of an event in the table is the list of the calls that set it, newest first.
mod Types
pub mod Settled
mod Tests
unfoldable pub use Types.*
use nt.Prelude.{
  ℕ, zero, suc, ◌+◌, ◌-◌, ◌*◌, ◌/◌, ◌%◌, List, [], ◌∷◌, ◌++◌, Bool, true, false, Option, none, some,
  ltb, leb, ◌==◌, ◌&&◌, ◌||◌, not, if◌then◌else◌, length, take, u32, u64,
}
use nt.Prelude.Int.{ℤ, pos, negsuc, pos_part, neg_part, eq_ℤ, leb_ℤ}
use nt.Prelude.Text.{Str, is_empty}
use nt.Recorder.Types.{Slot}
use nt.Cloud.TsMux.{Packet, TsMux, ts_mux_new, write_video, ts_mux_reset}
use nt.Cloud.Uploader.Types.{
  AccessUnit, CloudEvent, CloudState, uploading, done, failed, Url, Post, World, event_id_code,
  start_embedded, tags_of,
}

-- The slices so far, each with the answer to its post, newest first.
pub record Slicer : Type 0 where
  pub mux : TsMux
  pub slice_base_pts : ℕ
  pub first_pts : ℕ
  pub have_first : Bool
  pub hdr_pts : ℕ
  pub posts : List (Post × Bool)
  pub rc_all : Bool

abbrev pub slicer0 : Slicer
slicer0 = record {
  mux = ts_mux_new false;
  slice_base_pts = 0;
  first_pts = 0;
  have_first = false;
  hdr_pts = 0;
  posts = [];
  rc_all = true;
}

-- ts_mux_write_video, whose answer is not looked at.
unfoldable pub written : TsMux → AccessUnit → TsMux
unfolding write_video
written m u = elim (write_video m u.bytes u.pts (u.frame_type == 0)) [
  | none ↦ m
  | some (fine, m') ↦ m'
]

-- The milliseconds from a time stamp to another, in unsigned arithmetic.
unfoldable pub pts_ms : ℕ → ℕ → ℕ
pts_ms now base = u64 (now + (18446744073709551616 - base)) / 90

unfoldable pub slice_post : ℕ → ℕ → Slicer → Bool → Post
unfolding pts_ms
slice_post slice_ms base_ms s eof =
    let dur = u32 (if s.have_first then pts_ms s.hdr_pts s.slice_base_pts else 0) in
    record {
      packets = s.mux.buf;
      start_ms = base_ms + pts_ms s.slice_base_pts s.first_pts;
      dur_ms = if dur == 0 then slice_ms else dur;
      event_end = eof;
    }

-- The end of a round: a slice that is long enough, or the last one, is posted unless it is empty.
unfoldable pub cut : World → ℕ → ℕ → Slicer → Bool → Slicer
unfolding slice_post pts_ms
cut w slice_ms base_ms s eof =
    let cur_ms = if s.have_first then pts_ms s.hdr_pts s.slice_base_pts else 0 in
    if (leb slice_ms cur_ms || eof) && ltb 0 (length s.mux.buf)
    then (let p = slice_post slice_ms base_ms s eof in
        let answer = w.post s.posts p in
        record s {
          posts = (p, answer) ∷ s.posts;
          rc_all = s.rc_all && answer;
          mux = ts_mux_reset s.mux;
          slice_base_pts = s.hdr_pts;
        })
    else s

unfoldable pub take_unit : Slicer → AccessUnit → Slicer
unfolding written
take_unit s u = record s {
  have_first = true;
  first_pts = if s.have_first then s.first_pts else u.pts;
  slice_base_pts = if s.have_first then s.slice_base_pts else u.pts;
  hdr_pts = u.pts;
  mux = written s.mux u;
}

-- The frames that the player gives, up to its end.
unfoldable pub slices : World → ℕ → ℕ → List AccessUnit → Slicer → Slicer
unfolding cut take_unit
slices w slice_ms base_ms [] s = cut w slice_ms base_ms s true
slices w slice_ms base_ms (u ∷ us) s =
    slices w slice_ms base_ms us (cut w slice_ms base_ms (take_unit s u) false)

-- What an event comes to: the result, the calls that set its state and the posts.
pub record Outcome : Type 0 where
  pub rc : ℤ
  pub states : List (ℕ × CloudState × ℤ)
  pub posts : List (Post × Bool)

-- rsdk_cloud_set_state, whose calls are kept, newest first.
abbrev pub set_state :
    CloudEvent → CloudState → ℤ → List (ℕ × CloudState × ℤ) → List (ℕ × CloudState × ℤ)
set_state ev state err log = (ev.event_id, state, err) ∷ log

-- -1002, -1003 and -1004
abbrev pub is_refusal : ℤ → Bool
is_refusal code = eq_ℤ code (negsuc 1001) || eq_ℤ code (negsuc 1002) || eq_ℤ code (negsuc 1003)

unfoldable pub upload :
    World → ℕ → CloudEvent → List (ℕ × CloudState × ℤ) → List AccessUnit → Outcome
unfolding slices start_embedded
upload w slice_ms ev log us =
    let s = slices w slice_ms (start_embedded ev * 1000) us slicer0 in
    if s.rc_all
    then (record { rc = pos 0; states = set_state ev done (pos 0) log; posts = s.posts })
    else (record { rc = negsuc 0; states = set_state ev failed (negsuc 4) log; posts = s.posts })

unfoldable pub with_url :
    World → ℕ → CloudEvent → List (ℕ × CloudState × ℤ) → List AccessUnit → Option Url → Outcome
unfolding upload
with_url w slice_ms ev log us none = (record {
  rc = negsuc 0;
  states = set_state ev failed (negsuc 2) log;
  posts = [];
})
with_url w slice_ms ev log us (some url) =
    if is_refusal url.err_code
    then (record { rc = negsuc 999; states = set_state ev failed url.err_code log; posts = [] })
    else if not url.http_ok
    then (record { rc = negsuc 0; states = set_state ev failed (negsuc 3) log; posts = [] })
    else upload w slice_ms ev log us

unfoldable pub with_player :
    World → ℕ → CloudEvent → List (ℕ × CloudState × ℤ) → Option (List AccessUnit) → Outcome
unfolding with_url tags_of event_id_code start_embedded
with_player w slice_ms ev log none = (record {
  rc = negsuc 0;
  states = set_state ev failed (negsuc 1) log;
  posts = [];
})
with_player w slice_ms ev log (some us) =
    with_url w slice_ms ev log us
      (w.get_url (start_embedded ev) (event_id_code ev.rectype) (tags_of ev))

unfoldable pub process_event : World → ℕ → CloudEvent → Outcome
unfolding with_player
process_event w slice_ms ev =
    let log = set_state ev uploading (pos 0) [] in
    let segs = w.group_query ev.starttime (u32 (ev.starttime + 300)) ev.chn in
    if length segs == 0
    then (record { rc = negsuc 0; states = set_state ev failed (negsuc 0) log; posts = [] })
    else with_player w slice_ms ev log (w.group_play segs)

-- The switch and the token, behind the uploader's lock.
pub record Uploader : Type 0 where
  pub sw_on : Bool
  pub stoken : Str

abbrev pub set_switch : Uploader → Bool → Uploader
set_switch up on = record up { sw_on = on }

-- A buffer of 256 bytes.
abbrev pub set_stoken : Uploader → Option Str → Uploader
set_stoken up none = record up { stoken = [] }
set_stoken up (some s) = record up { stoken = take 255 s }

abbrev pub force_off : Uploader → Uploader
force_off up = set_switch up false

abbrev pub is_online : Uploader → Bool
is_online up = up.sw_on && not (is_empty up.stoken)

-- The events that wait, one after the other, up to a refusal by the server; `w` answers each of them.
unfoldable pub send_all :
    (CloudEvent → World) → ℕ → List CloudEvent → Uploader → List Outcome × Uploader
unfolding process_event
send_all w slice_ms [] up = ([], up)
send_all w slice_ms (ev ∷ evs) up =
    let o = process_event (w ev) slice_ms ev in
    let (os, up') = send_all w slice_ms evs up in
    if eq_ℤ o.rc (negsuc 999) then (o ∷ [], force_off up) else (o ∷ os, up')

-- One round of the worker, which reads the switch and the token first.
unfoldable pub round :
    (CloudEvent → World) → ℕ → List CloudEvent → Uploader → List Outcome × Uploader
unfolding send_all
round w slice_ms waiting up = if is_online up then send_all w slice_ms waiting up else ([], up)
