-- ===== src/Cloud/Uploader/Types.antt =====
-- What components/cloud_uploader/src/uploader.c works on, and the names that it gives an event.
use nt.Prelude.{ℕ, ◌+◌, ◌-◌, ◌%◌, List, [], ◌∷◌, ◌++◌, Bool, Option, ◌==◌, if◌then◌else◌, u32}
use nt.Prelude.Int.{ℤ}
use nt.Prelude.Text.{Str}
use nt.Recorder.Types.{Slot}
use nt.Cloud.TsMux.{Packet}

-- The bytes and the fields of a frame's header that the uploader reads.
pub record AccessUnit : Type 0 where
  pub pts : ℕ
  pub frame_type : ℕ
  pub codec : ℕ
  pub bytes : List ℕ

-- The fields of rsdk_cloud_event_t that the uploader reads.
pub record CloudEvent : Type 0 where
  pub event_id : ℕ
  pub chn : ℕ
  pub rectype : ℕ
  pub starttime : ℕ
  pub last_err : ℤ

pub data CloudState : Type 0 where
  no_upload pending uploading done failed lost : CloudState

-- The address that was asked for; the text of it is left out.
pub record Url : Type 0 where
  pub http_ok : Bool
  pub err_code : ℤ

pub record Post : Type 0 where
  pub packets : List Packet
  pub start_ms : ℕ
  pub dur_ms : ℕ
  pub event_end : Bool

pub record World : Type 0 where
  pub group_query : ℕ → ℕ → ℕ → List Slot
  pub group_play : List Slot → Option (List AccessUnit)
  pub get_url : ℕ → ℕ → Str → Option Url
  pub post : List (Post × Bool) → Post → Bool

unfoldable pub event_id_code : ℕ → ℕ
event_id_code rectype =
    if rectype == 9
    then 30312
    else if rectype == 3
    then 30303
    else if rectype == 2
    then 30302
    else if rectype == 4
    then 30305
    else 1

-- "doorbellRing", "face", "human", "vehicle" and "pixelChange".
unfoldable pub rectype_tag : ℕ → Str
rectype_tag rectype =
    if rectype == 9
    then b'd' ∷ b'o' ∷ b'o' ∷ b'r' ∷ b'b' ∷ b'e' ∷ b'l' ∷ b'l' ∷ b'R' ∷ b'i' ∷ b'n' ∷ b'g' ∷ []
    else if rectype == 3
    then b'f' ∷ b'a' ∷ b'c' ∷ b'e' ∷ []
    else if rectype == 2
    then b'h' ∷ b'u' ∷ b'm' ∷ b'a' ∷ b'n' ∷ []
    else if rectype == 4
    then b'v' ∷ b'e' ∷ b'h' ∷ b'i' ∷ b'c' ∷ b'l' ∷ b'e' ∷ []
    else b'p' ∷ b'i' ∷ b'x' ∷ b'e' ∷ b'l' ∷ b'C' ∷ b'h' ∷ b'a' ∷ b'n' ∷ b'g' ∷ b'e' ∷ []

-- The last digit of the start is the channel's.
unfoldable pub start_embedded : CloudEvent → ℕ
start_embedded ev = u32 (ev.starttime - ev.starttime % 10 + ev.chn % 10)

-- "%s,starttimeOrg%u", the number being one digit.
unfoldable pub tags_of : CloudEvent → Str
unfolding rectype_tag
tags_of ev =
    rectype_tag ev.rectype
    ++ (b','
        ∷ b's'
        ∷ b't'
        ∷ b'a'
        ∷ b'r'
        ∷ b't'
        ∷ b't'
        ∷ b'i'
        ∷ b'm'
        ∷ b'e'
        ∷ b'O'
        ∷ b'r'
        ∷ b'g'
        ∷ (48 + ev.starttime % 10)
        ∷ [])
