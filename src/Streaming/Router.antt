-- ===== src/Streaming/Router.antt =====
-- components/streaming/src/stream_router.c and stream_internal.h: one frame of a channel goes to the
-- decoder of its window and to its recording. The decoder's driver is the parameter `Hal`; the
-- recorder is the interface `Recording` over the state `G` of the disk group, with writers `W`.
pub mod Inputs
pub mod Gate
use nt.Prelude.{
  ℕ, ◌≡◌, List, [], ◌∷◌, Bool, true, false, Option, none, some, ltb, ◌==◌, ◌&&◌, ◌||◌, not,
  if◌then◌else◌, u8, u16,
}
use nt.Prelude.Int.{ℤ, pos, negsuc, leb_ℤ}
use nt.Prelude.Text.{Str, is_empty}
use nt.Recorder.Types.{Frame}
use nt.Streaming.Nal.{NalClass, nal_classify}

-- `vout_win` is -1 for no window, `codec` is -1 for what the stream says it is.
pub record ChanCfg : Type 0 where
  pub chn : ℕ
  pub url : Str
  pub codec : ℤ
  pub stream : ℕ
  pub recording : Bool
  pub vout_win : ℤ
  pub enc_w : ℕ
  pub enc_h : ℕ
  pub fps : ℕ

-- NVR_CH_IDLE, NVR_CH_CONNECTING, NVR_CH_PLAYING, NVR_CH_NOSIGNAL and NVR_CH_FAIL.
pub data ChState : Type 0 where
  ch_idle ch_connecting ch_playing ch_nosignal ch_fail : ChState

-- A decoder is what it was sent, newest first; `puller` is whether there is a client.
pub record Chan (W : Type 0) : Type 0 where
  pub cfg : ChanCfg
  pub codec : ℕ
  pub state : ChState
  pub vdec : Option (List (List ℕ × ℕ))
  pub decode_denied : Bool
  pub writer : Option W
  pub rec_gated : Bool
  pub puller : Bool

pub data VdecResult : Type 0 where
  vdec_ok vdec_budget vdec_error : VdecResult

-- mhal_vdec_open: channel, codec, width, height, rate and window.
pub record Hal : Type 0 where
  pub vdec_open : ℕ → ℕ → ℕ → ℕ → ℕ → ℤ → VdecResult

-- rsdk_rec_open_group, rsdk_rec_write_frame and rsdk_rec_close.
pub record Recording (G W : Type 0) : Type 0 where
  pub rec_open : ℕ → G → Option W × G
  pub rec_write : W → Frame → G → W × G
  pub rec_close : W → G → G

abbrev pub resolve_dim : ChanCfg → ℕ × ℕ × ℕ
resolve_dim cfg =
    let rate = if ltb 0 cfg.fps then cfg.fps else 20 in
    if ltb 0 cfg.enc_w && ltb 0 cfg.enc_h
    then (cfg.enc_w, cfg.enc_h, rate)
    else if cfg.stream == 1
    then (640, 360, rate)
    else (1920, 1080, rate)

-- The decoder that the driver gives.
abbrev pub decoder_of : VdecResult → Option (List (List ℕ × ℕ))
decoder_of vdec_ok = some []
decoder_of vdec_budget = none
decoder_of vdec_error = none

abbrev pub is_over_budget : VdecResult → Bool
is_over_budget vdec_ok = false
is_over_budget vdec_budget = true
is_over_budget vdec_error = false

abbrev pub send : List ℕ → ℕ → Option (List (List ℕ × ℕ)) → Option (List (List ℕ × ℕ))
send bytes ts none = none
send bytes ts (some sent) = some ((bytes, ts) ∷ sent)

module _ {W : Type 0} where
  unfoldable pub open_decoder : Hal → Chan W → Chan W
  open_decoder hal c =
      let (w, h, fps) = resolve_dim c.cfg in
      let shown = leb_ℤ (pos 0) c.cfg.vout_win in
      let result = hal.vdec_open c.cfg.chn c.codec w h fps c.cfg.vout_win in
      record c {
        vdec = if shown then decoder_of result else c.vdec;
        decode_denied = if shown then is_over_budget result else false;
      }

  abbrev pub show : List ℕ → ℕ → Chan W → Chan W
  show bytes ts c = record c { vdec = send bytes ts c.vdec }

  abbrev pub video_frame : Chan W → NalClass → List ℕ → ℕ → ℕ → Frame
  video_frame c nc bytes ts now = record {
    chn = u16 c.cfg.chn;
    stream = u8 c.cfg.stream;
    codec = u8 c.codec;
    frame_type = u8 nc.frame_type;
    pts = ts;
    wall_time = now;
    bytes = bytes;
  }

  abbrev pub audio_frame : Chan W → List ℕ → ℕ → ℕ → Frame
  audio_frame c bytes ts now = record {
    chn = u16 c.cfg.chn;
    stream = 2;
    codec = 2;
    frame_type = 3;
    pts = ts;
    wall_time = now;
    bytes = bytes;
  }

  -- The frame that is to be recorded: none before the first key frame. `now` is time(NULL).
  unfoldable pub gate_video : List ℕ → ℕ → ℕ → Chan W → Option Frame
  unfolding nal_classify
  gate_video bytes ts now c = elim (nal_classify bytes c.codec) [
    | none ↦ none
    | some nc ↦ if c.rec_gated || nc.is_key then some (video_frame c nc bytes ts now) else none
  ]

  unfoldable pub gate_audio : List ℕ → ℕ → ℕ → Chan W → Option Frame
  gate_audio bytes ts now c =
      if not c.rec_gated || is_empty bytes then none else some (audio_frame c bytes ts now)

module _ {G W : Type 0} where
  -- `grouped` is whether there is a disk group.
  unfoldable pub stream_router_open : Hal → Recording G W → Bool → Chan W → G → Chan W × G
  unfolding open_decoder
  stream_router_open hal r grouped c g =
      let c' = open_decoder hal c in
      let (w, g') = r.rec_open c.cfg.chn g in
      if c.cfg.recording && grouped
      then (record c' { writer = w; rec_gated = false }, g')
      else (record c' { rec_gated = false }, g)

  -- A frame goes to the writer, if there are both; what the writer answers is not looked at.
  unfoldable pub to_writer : Recording G W → Option W → Option Frame → Chan W → G → Chan W × G
  to_writer r none f c g = (c, g)
  to_writer r (some w) none c g = (c, g)
  to_writer r (some w) (some f) c g =
      let (w', g') = r.rec_write w f g in (record c { writer = some w'; rec_gated = true }, g')

  unfoldable pub route_video : Recording G W → List ℕ → ℕ → ℕ → Chan W → G → Chan W × G
  unfolding to_writer gate_video
  route_video r bytes ts now c g =
      if is_empty bytes
      then (c, g)
      else to_writer r c.writer (gate_video bytes ts now c) (show bytes ts c) g

  unfoldable pub route_audio : Recording G W → List ℕ → ℕ → ℕ → Chan W → G → Chan W × G
  unfolding to_writer gate_audio
  route_audio r bytes ts now c g = to_writer r c.writer (gate_audio bytes ts now c) c g

  unfoldable pub stream_router_close : Recording G W → Chan W → G → Chan W × G
  stream_router_close r c g = (
    record c { writer = none; vdec = none; rec_gated = false },
    elim c.writer [ none ↦ g | some w ↦ r.rec_close w g ],
  )
