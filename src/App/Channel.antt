-- ===== src/App/Channel.antt =====
-- app/channel/nvr_channel.c: the channel table, the online state machine and the bindings.
-- The table is a function of the channel number. The calls of the stream manager and of the two
-- callbacks are kept in `calls`, newest first.
pub mod Bind
pub mod Tick
pub mod Notices
pub mod Runs
pub mod Ticks
pub mod Numbers
pub mod Histories
pub mod Backoff
use nt.Prelude.{
  ℕ, zero, suc, ◌+◌, ◌-◌, ◌*◌, List, [], ◌∷◌, ◌++◌, Bool, true, false, Option, none, some, ltb, leb,
  ◌==◌, ◌&&◌, not, if◌then◌else◌, length,
}
use nt.Prelude.Text.{Str, is_empty}
use nt.Prelude.Int.{ℤ, pos, negsuc}

-- nvr_channel_t of app/config/nvr_config.h.
pub record Desc : Type 0 where
  pub chn : ℤ
  pub name : Str
  pub url : Str
  pub user : Str
  pub pass : Str
  pub codec : ℕ
  pub stream : ℕ
  pub rec : ℕ
  pub vout_win : ℤ
  pub onvif_auto : ℕ
  pub onvif_ip : Str
  pub onvif_port : ℤ
  pub poe_port : ℤ
  pub kind : ℕ
  pub backend : ℕ
  pub enabled : ℕ

pub data Status : Type 0 where
  empty bound connecting online nosignal fail disabled : Status

-- nvr_ch_state_t, the state that the stream manager reports.
pub data StreamState : Type 0 where
  st_idle st_connecting st_playing st_nosignal st_fail : StreamState

pub record ChanSlot : Type 0 where
  pub d : Desc
  pub in_use : Bool
  pub status : Status
  pub backoff : ℕ
  pub next_retry : ℕ
  pub notified : Bool

pub data Call : Type 0 where
  add_channel : Desc → Str → Call
  stream_start : ℤ → Call
  stream_stop : ℤ → Call
  stream_start_all stream_stop_all : Call
  on_online : ℤ → Call
  on_offline : ℤ → Call

pub record Mgr : Type 0 where
  pub base_s : ℕ
  pub max_s : ℕ
  pub has_online : Bool
  pub has_offline : Bool
  pub slots : ℕ → ChanSlot
  pub calls : List Call

abbrev pub max_ch : ℕ
max_ch = 32

abbrev pub poe_ports : ℕ
poe_ports = 16

abbrev pub blank_desc : Desc
blank_desc = record {
  chn = pos 0;
  name = [];
  url = [];
  user = [];
  pass = [];
  codec = 0;
  stream = 0;
  rec = 0;
  vout_win = pos 0;
  onvif_auto = 0;
  onvif_ip = [];
  onvif_port = pos 0;
  poe_port = pos 0;
  kind = 0;
  backend = 0;
  enabled = 0;
}

abbrev pub blank_slot : ChanSlot
blank_slot = record {
  d = blank_desc;
  in_use = false;
  status = empty;
  backoff = 0;
  next_retry = 0;
  notified = false;
}

-- The index of a channel's slot.
abbrev pub slot_of : ℤ → Option ℕ
slot_of (pos n) = if ltb n max_ch then some n else none
slot_of (negsuc n) = none

abbrev pub put_slot : Mgr → ℕ → ChanSlot → Mgr
put_slot m i s = record m { slots = λ j. if i == j then s else m.slots j }

abbrev pub call : Mgr → Call → Mgr
call m c = record m { calls = c ∷ m.calls }

-- The seconds of the configuration are ints: what is not positive becomes the default.
abbrev pub or_default : ℤ → ℕ → ℕ
or_default (pos zero) dflt = dflt
or_default (pos (suc n)) dflt = suc n
or_default (negsuc n) dflt = dflt

unfoldable pub mgr_init : ℤ → ℤ → Bool → Bool → Mgr
mgr_init base max has_on has_off = record {
  base_s = or_default base 5;
  max_s = or_default max 30;
  has_online = has_on;
  has_offline = has_off;
  slots = λ i. blank_slot;
  calls = [];
}

-- `get_url` is the ONVIF request for the stream's URL.
unfoldable pub resolve_url : (Desc → Option Str) → Desc → Option Str
resolve_url get_url d =
    if is_empty d.url
    then (if d.onvif_auto == 0 then none else (if is_empty d.onvif_ip then none else get_url d))
    else some d.url

unfoldable pub install_slot : (Desc → Option Str) → Mgr → Desc → ℤ × Mgr
install_slot get_url m d = elim (slot_of d.chn) [
  | none ↦ (negsuc 0, m)
  | some i ↦
      let s : ChanSlot = record {
        d = d;
        in_use = true;
        status = bound;
        backoff = m.base_s;
        next_retry = 0;
        notified = false;
      } in
      if d.enabled == 0
      then (pos 0, put_slot m i (record s { status = disabled }))
      else (elim (resolve_url get_url d) [
        | some url ↦ (d.chn, call (put_slot m i s) (add_channel d url))
        | none ↦ (d.chn, put_slot m i s)
      ])
]

unfoldable pub chan_remove : Mgr → ℤ → ℤ × Mgr
chan_remove m chn = elim (slot_of chn) [
  | none ↦ (negsuc 0, m)
  | some i ↦
      let m1 = call m (stream_stop chn) in
      let m2 = if (m.slots i).notified && m.has_offline then call m1 (on_offline chn) else m1 in
      if (m.slots i).in_use then (pos 0, put_slot m2 i blank_slot) else (negsuc 0, m)
]

unfoldable pub chan_add : (Desc → Option Str) → Mgr → Desc → ℤ × Mgr
chan_add get_url m d = elim (slot_of d.chn) [
  | none ↦ (negsuc 0, m)
  | some i ↦ install_slot get_url (if (m.slots i).in_use then (chan_remove m d.chn).1 else m) d
]

abbrev pub is_installed : ℤ → Bool
is_installed (pos n) = true
is_installed (negsuc n) = false

-- The number of channels installed.
unfoldable pub load_config : (Desc → Option Str) → Mgr → List Desc → ℕ × Mgr
load_config get_url m [] = (0, m)
load_config get_url m (e ∷ es) =
    let (r, m1) = install_slot get_url m (record e { enabled = if e.enabled == 0 then 0 else 1 }) in
    let m2 : Mgr = elim (slot_of e.chn) [ none ↦ m | some i ↦ m1 ] in
    let (n, m3) = load_config get_url m2 es in
    (elim (slot_of e.chn) [ none ↦ n | some i ↦ if is_installed r then n + 1 else n ], m3)
