-- ===== src/App/Channel/Tick.antt =====
-- app/channel/nvr_channel.c: the online state machine, its notifications and the backoff.
use nt.Prelude.{
  ℕ, zero, suc, ◌+◌, ◌*◌, Bool, true, false, Option, none, some, ltb, leb, ◌==◌, ◌&&◌, not,
  if◌then◌else◌,
}
use nt.Prelude.Int.{ℤ}
use nt.Prelude.Text.{Str, is_empty}
use nt.App.Channel.{
  Desc, Status, connecting, online, nosignal, fail, disabled, StreamState, st_idle, st_connecting,
  st_playing, st_nosignal, st_fail, Mgr, max_ch, add_channel, stream_start, stream_stop, on_online,
  on_offline, put_slot, call, resolve_url,
}

-- A URL that is pending: asked for again, then added and started.
unfoldable pub tick_url : (Desc → Option Str) → Mgr → ℕ → Mgr
tick_url get_url m i =
    let s = m.slots i in
    let pending = is_empty s.d.url && not (s.d.onvif_auto == 0) && not (is_empty s.d.onvif_ip) in
    if pending
    then (elim (resolve_url get_url s.d) [
      | none ↦ m
      | some url ↦
          call
            (call (put_slot m i (record s { d = record s.d { url = url } })) (add_channel s.d url))
            (stream_start s.d.chn)
    ])
    else m

-- The backoff doubles up to the maximum.
abbrev pub next_backoff : ℕ → ℕ → ℕ
next_backoff max b = if ltb max (b * 2) then max else b * 2

unfoldable pub tick_playing : Mgr → ℕ → Mgr
tick_playing m i =
    let s = m.slots i in
    let m1 = put_slot m i (record s { status = online; backoff = m.base_s; notified = true }) in
    if not s.notified && m.has_online then call m1 (on_online s.d.chn) else m1

unfoldable pub tick_lost : Mgr → ℕ → Status → Mgr
tick_lost m i st =
    let s = m.slots i in
    let m1 = put_slot m i (record s { status = st; notified = false }) in
    if s.notified && m.has_offline then call m1 (on_offline s.d.chn) else m1

-- The reconnection once its time has come.
unfoldable pub tick_retry : Mgr → ℕ → ℕ → Mgr
tick_retry m i now =
    let s = m.slots i in
    if leb s.next_retry now
    then call
        (call
          (put_slot m i
            (record s { next_retry = now + s.backoff; backoff = next_backoff m.max_s s.backoff }))
          (stream_stop s.d.chn))
        (stream_start s.d.chn)
    else m

-- The part behind the URL: the state that the stream manager reports, followed.
unfoldable pub tick_state : Mgr → ℕ → ℕ → StreamState → Mgr
unfolding tick_playing tick_lost tick_retry
tick_state m i now st_playing = tick_playing m i
tick_state m i now st_connecting = put_slot m i (record (m.slots i) { status = connecting })
tick_state m i now st_nosignal = tick_retry (tick_lost m i nosignal) i now
tick_state m i now st_fail = tick_retry (tick_lost m i fail) i now
tick_state m i now st_idle = m

abbrev pub is_disabled : Status → Bool
is_disabled disabled = true
is_disabled other = false

-- What the world answers during one tick.
pub record World : Type 0 where
  pub now : ℕ
  pub get_url : Desc → Option Str
  pub state : ℤ → StreamState

unfoldable pub tick_slot : World → Mgr → ℕ → Mgr
unfolding tick_url tick_state
tick_slot e m i =
    let m1 = tick_url e.get_url m i in
    if is_disabled (m.slots i).status then m else tick_state m1 i e.now (e.state (m.slots i).d.chn)

-- The slots from `i` on, `n` of them.
unfoldable pub tick_slots : World → Mgr → ℕ → ℕ → Mgr
unfolding tick_slot
tick_slots e m i zero = m
tick_slots e m i (suc n) =
    tick_slots e (if (m.slots i).in_use then tick_slot e m i else m) (i + 1) n

unfoldable pub tick : World → Mgr → Mgr
unfolding tick_slots
tick e m = tick_slots e m 0 max_ch
