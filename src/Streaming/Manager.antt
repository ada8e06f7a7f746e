-- ===== src/Streaming/Manager.antt =====
-- components/streaming/src/stream_puller.cpp and stream_mgr.cpp: the sixteen channels, each with at most
-- one RTSP client. The client is the parameter `Rtsp`; what it reports while it runs are steps.
pub mod Tidy
pub mod Life
use nt.Prelude.{
  ℕ, zero, suc, ◌-◌, List, [], ◌∷◌, Bool, true, false, Option, none, some, ltb, ◌==◌, ◌&&◌,
  if◌then◌else◌, take,
}
use nt.Prelude.Int.{ℤ, pos, negsuc}
use nt.Prelude.Text.{Str}
use nt.Recorder.Types.{Err, ok, param, io, notfound}
use nt.Streaming.Router.{
  ChanCfg, ChState, ch_idle, ch_connecting, ch_playing, ch_nosignal, ch_fail, Chan, Hal, Recording,
  stream_router_open, stream_router_close, route_video, route_audio,
}

-- RTSP_EVE_CONNECTING, RTSP_EVE_CONNSUCC, RTSP_EVE_CONNFAIL, RTSP_EVE_AUTHFAILED, RTSP_EVE_NOSIGNAL,
-- RTSP_EVE_NODATA, RTSP_EVE_RESUME, RTSP_EVE_STOPPED and any other.
pub data RtspEvent : Type 0 where
  connecting connsucc connfail authfailed nosignal nodata resume stopped other_event : RtspEvent

-- rtsp_start, video_codec and rtsp_play of the client that is made for the channel.
pub record Rtsp : Type 0 where
  pub rtsp_start : ChanCfg → Bool
  pub video_codec : ChanCfg → ℕ
  pub rtsp_play : ChanCfg → Bool

unfoldable pub notify_state : RtspEvent → ChState → ChState
notify_state connecting s = ch_connecting
notify_state connsucc s = ch_playing
notify_state connfail s = ch_fail
notify_state authfailed s = ch_fail
notify_state nosignal s = ch_nosignal
notify_state nodata s = ch_nosignal
notify_state resume s = ch_playing
notify_state stopped s = ch_idle
notify_state other_event s = s

-- VIDEO_CODEC_H265 is 4.
abbrev pub to_rsdk_codec : ℕ → ℕ
to_rsdk_codec vc = if vc == 4 then 1 else 0

abbrev pub resolve_codec : Rtsp → ChanCfg → ℕ
resolve_codec rtsp cfg = elim cfg.codec [
  | pos n ↦ n
  | negsuc n ↦ to_rsdk_codec (rtsp.video_codec cfg)
]

pub record World (G W : Type 0) : Type 0 where
  pub hal : Hal
  pub rtsp : Rtsp
  pub recording : Recording G W
  pub grouped : Bool

abbrev pub max_ch : ℕ
max_ch = 16

-- The slots in use, and the disk group.
pub record Manager (G W : Type 0) : Type 0 where
  pub ch : ℕ → Option (Chan W)
  pub group : G

abbrev pub start_err : Bool → Err
start_err true = ok
start_err false = io

abbrev pub same : Bool → Bool → Bool
same true b = b
same false true = false
same false false = true

-- What the client of a channel calls back, while there is one.
pub data Callback : Type 0 where
  on_video on_audio : List ℕ → ℕ → ℕ → Callback
  on_notify : RtspEvent → Callback

-- A slot that was filled anew; -1, for a codec that is not known, is 255 in a byte.
module _ {W : Type 0} where
  abbrev pub fresh_chan : ChanCfg → Chan W
  fresh_chan cfg = record {
    cfg = cfg;
    codec = elim cfg.codec [ pos n ↦ n | negsuc n ↦ 255 ];
    state = ch_idle;
    vdec = none;
    decode_denied = false;
    writer = none;
    rec_gated = false;
    puller = false;
  }

module _ {G W : Type 0} where
  -- The status is whether the stream runs.
  unfoldable pub puller_start : World G W → Chan W → G → Bool × Chan W × G
  unfolding stream_router_open
  puller_start world c g =
      let c1 = record c {
        codec = resolve_codec world.rtsp c.cfg;
        puller = true;
        state = ch_connecting;
      } in
      let (c2, g') = stream_router_open world.hal world.recording world.grouped c1 g in
      if world.rtsp.rtsp_start c.cfg
      then (if world.rtsp.rtsp_play c.cfg
          then (true, c2, g')
          else (false, record c2 { state = ch_fail }, g'))
      else (false, record c { puller = false; state = ch_fail }, g)

  unfoldable pub puller_stop : World G W → Chan W → G → Chan W × G
  unfolding stream_router_close
  puller_stop world c g =
      let (c', g') = stream_router_close world.recording c g in
      if c.puller then (record c' { puller = false; state = ch_idle }, g') else (c, g)

  unfoldable pub mgr_init : G → Manager G W
  mgr_init g = record { ch = λ i. none; group = g }

  -- Slots from sixteen on are never used.
  abbrev pub slot : Manager G W → ℕ → Option (Chan W)
  slot m chn = if ltb chn max_ch then m.ch chn else none

  abbrev pub put : Manager G W → ℕ → Chan W × G → Manager G W
  put m chn (c, g) = record m { ch = λ i. if i == chn then some c else m.ch i; group = g }

  unfoldable pub add_channel : Manager G W → ChanCfg → Err × Manager G W
  add_channel m cfg =
      if ltb cfg.chn max_ch then (ok, put m cfg.chn (fresh_chan cfg, m.group)) else (param, m)

  unfoldable pub stream_start : World G W → Manager G W → ℕ → Err × Manager G W
  unfolding puller_start
  stream_start world m chn = elim (slot m chn) [
    | none ↦ (notfound, m)
    | some c ↦
        let (fine, c', g) = puller_start world c m.group in
        if c.puller then (ok, m) else (start_err fine, put m chn (c', g))
  ]

  unfoldable pub stream_stop : World G W → Manager G W → ℕ → Err × Manager G W
  unfolding puller_stop
  stream_stop world m chn = elim (slot m chn) [
    | none ↦ (notfound, m)
    | some c ↦ (ok, put m chn (puller_stop world c m.group))
  ]

  -- The slots from `i` on, `n` of them.
  unfoldable pub start_from : World G W → ℕ → ℕ → Manager G W → Manager G W
  unfolding stream_start
  start_from world i zero m = m
  start_from world i (suc n) m = start_from world (suc i) n (stream_start world m i).1

  unfoldable pub stop_from : World G W → ℕ → ℕ → Manager G W → Manager G W
  unfolding stream_stop
  stop_from world i zero m = m
  stop_from world i (suc n) m = stop_from world (suc i) n (stream_stop world m i).1

  unfoldable pub start_all : World G W → Manager G W → Manager G W
  start_all world m = start_from world 0 max_ch m

  unfoldable pub stop_all : World G W → Manager G W → Manager G W
  stop_all world m = stop_from world 0 max_ch m

  -- `url` is none for NULL; the copy has room for 255 bytes.
  unfoldable pub switch_stream : World G W → Manager G W → ℕ → ℕ → Option Str → Err × Manager G W
  unfolding stream_start puller_stop
  switch_stream world m chn stream url = elim (slot m chn) [
    | none ↦ (param, m)
    | some c ↦ elim url [
      | none ↦ (param, m)
      | some u ↦
          let (c', g) = puller_stop world c m.group in
          stream_start world
            (put m chn (record c' { cfg = record c'.cfg { stream = stream; url = take 255 u } }, g))
            chn
    ]
  ]

  unfoldable pub set_record : World G W → Manager G W → ℕ → Bool → Err × Manager G W
  unfolding stream_start puller_stop
  set_record world m chn on = elim (slot m chn) [
    | none ↦ (notfound, m)
    | some c ↦
        let c1 = record c { cfg = record c.cfg { recording = on } } in
        let restarted = stream_start world (put m chn (puller_stop world c1 m.group)) chn in
        if same c.cfg.recording on
        then (ok, m)
        else if c.puller
        then restarted
        else (ok, put m chn (c1, m.group))
  ]

  unfoldable pub stream_state : Manager G W → ℕ → ChState
  stream_state m chn = elim (slot m chn) [ none ↦ ch_idle | some c ↦ c.state ]

  unfoldable pub stream_decode_denied : Manager G W → ℕ → Bool
  stream_decode_denied m chn = elim (slot m chn) [ none ↦ false | some c ↦ c.decode_denied ]

  unfoldable pub call_back : World G W → Callback → Chan W → G → Chan W × G
  unfolding route_video route_audio notify_state
  call_back world (on_video bytes ts now) c g = route_video world.recording bytes ts now c g
  call_back world (on_audio bytes ts now) c g = route_audio world.recording bytes ts now c g
  call_back world (on_notify e) c g = (record c { state = notify_state e c.state }, g)
