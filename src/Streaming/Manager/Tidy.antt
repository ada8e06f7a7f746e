-- ===== src/Streaming/Manager/Tidy.antt =====
-- components/streaming/src/stream_mgr.cpp: what the router and the client leave of a channel.
use nt.Prelude.{
  if_both, ℕ, ◌≡◌, refl, ap, inl, inr, arith, List, Bool, true, false, Option, none, some,
  Bool-cases, not, ◌&&◌, ◌||◌,
}
use nt.Prelude.Int.{pos, leb_ℤ}
use nt.Prelude.Text.{is_empty}
use nt.Recorder.Types.{Frame}
use nt.Streaming.Router.{
  ChanCfg, ChState, ch_idle, ch_connecting, ch_playing, ch_nosignal, ch_fail, Chan, Hal, Recording,
  open_decoder, resolve_dim, VdecResult, vdec_ok, vdec_budget, vdec_error, stream_router_open, show,
  send, to_writer, gate_video, gate_audio, decoder_of, is_over_budget, route_video, route_audio,
  stream_router_close,
}
use nt.Streaming.Manager.{
  World, Callback, on_video, on_audio, on_notify, call_back, puller_start, puller_stop, fresh_chan,
  resolve_codec,
}

abbrev pub has {ℓ} : {A : Type ℓ} → Option A → Bool
has none = false
has (some a) = true

abbrev pub is_resting : ChState → Bool
is_resting ch_idle = true
is_resting ch_fail = true
is_resting ch_connecting = false
is_resting ch_playing = false
is_resting ch_nosignal = false

-- With no client there is no decoder and no writer, and the channel is idle or failed; what has
-- begun to record has a writer; a channel whose decoding was denied has no decoder.
pub record IsTidy {W : Type 0} (c : Chan W) : Type 0 where
  pub rest : (c.puller || (not (has c.vdec) && (not (has c.writer) && is_resting c.state))) ≡ true
  pub gated : (not c.rec_gated || has c.writer) ≡ true
  pub denied : (not c.decode_denied || not (has c.vdec)) ≡ true

has-send :
    (bytes : List ℕ) (ts : ℕ) (o : Option (List (List ℕ × ℕ))) → has (send bytes ts o) ≡ has o
has-send bytes ts none = refl
has-send bytes ts (some sent) = refl

is_over_budget-lem : (v : VdecResult) → (not (is_over_budget v) || not (has (decoder_of v))) ≡ true
is_over_budget-lem vdec_ok = refl
is_over_budget-lem vdec_budget = refl
is_over_budget-lem vdec_error = refl

module _ {W : Type 0} where
  show-IsTidy : (c : Chan W) (bytes : List ℕ) (ts : ℕ) → IsTidy c → IsTidy (show bytes ts c)
  show-IsTidy c bytes ts t =
      let same = has-send bytes ts c.vdec in
      record {
        rest = ground (arith, t.rest, same);
        gated = t.gated;
        denied = ground (arith, t.denied, same);
      }

  open_decoder-IsTidy :
      (hal : Hal) (c : Chan W)
      → has c.vdec ≡ false
      → (not (open_decoder hal c).decode_denied || not (has (open_decoder hal c).vdec)) ≡ true
  unfolding open_decoder
  open_decoder-IsTidy hal c v =
      let (w, h, fps) = resolve_dim c.cfg in
      let result = hal.vdec_open c.cfg.chn c.codec w h fps c.cfg.vout_win in
      elim (Bool-cases (leb_ℤ (pos 0) c.cfg.vout_win)) [
        | inl e ↦ rw (e) (is_over_budget-lem result)
        | inr e ↦ rw (e) (ground (arith, v))
      ]

-- A channel and the disk group: the channel is tidy.
abbrev pub LeavesTidy : {G W : Type 0} → Chan W × G → Type 0
LeavesTidy p = IsTidy p.0

module _ {G W : Type 0} (r : Recording G W) where
  open-IsTidy :
      (hal : Hal) (grouped : Bool) (c : Chan W) (g : G)
      → c.puller ≡ true
      → has c.vdec ≡ false
      → IsTidy (stream_router_open hal r grouped c g).0
  unfolding stream_router_open
  open-IsTidy hal grouped c g p v =
      let d = open_decoder-IsTidy hal c v in
      if_both LeavesTidy (c.cfg.recording && grouped)
        (record { rest = ground (arith, p); gated = refl; denied = d })
        (record { rest = ground (arith, p); gated = refl; denied = d })

  open-puller :
      (hal : Hal) (grouped : Bool) (c : Chan W) (g : G)
      → (stream_router_open hal r grouped c g).0.puller ≡ c.puller
  unfolding stream_router_open open_decoder
  open-puller hal grouped c g = elim (Bool-cases (c.cfg.recording && grouped)) [
    | inl e ↦ rw (e) refl
    | inr e ↦ rw (e) refl
  ]

  to_writer-IsTidy :
      (o : Option W) (f : Option Frame) (c : Chan W) (g : G)
      → c.writer ≡ o
      → IsTidy c
      → IsTidy (to_writer r o f c g).0
  unfolding to_writer
  to_writer-IsTidy none f c g h t = t
  to_writer-IsTidy (some w) none c g h t = t
  to_writer-IsTidy (some w) (some f) c g h t = record {
    rest = ground (arith, t.rest, ap has h);
    gated = ground arith;
    denied = t.denied;
  }

  route_video-IsTidy :
      (bytes : List ℕ) (ts now : ℕ) (c : Chan W) (g : G)
      → IsTidy c
      → IsTidy (route_video r bytes ts now c g).0
  unfolding route_video
  route_video-IsTidy bytes ts now c g t = if_both LeavesTidy (is_empty bytes) t (
      to_writer-IsTidy c.writer (gate_video bytes ts now c) (show bytes ts c) g refl
        (show-IsTidy c bytes ts t))

  route_audio-IsTidy :
      (bytes : List ℕ) (ts now : ℕ) (c : Chan W) (g : G)
      → IsTidy c
      → IsTidy (route_audio r bytes ts now c g).0
  unfolding route_audio
  route_audio-IsTidy bytes ts now c g t =
      to_writer-IsTidy c.writer (gate_audio bytes ts now c) c g refl t

  close-IsTidy :
      (c : Chan W) (g : G) → c.puller ≡ true → IsTidy c → IsTidy (stream_router_close r c g).0
  unfolding stream_router_close
  close-IsTidy c g p t = record { rest = ground (arith, p); gated = refl; denied = ground arith }

-- What the start of a client gives: the channel is tidy.
abbrev Started : {G W : Type 0} → Bool × Chan W × G → Type 0
Started p = IsTidy p.1

module _ {G W : Type 0} (world : World G W) where
  pub puller_start-IsTidy :
      (c : Chan W) (g : G) → c.puller ≡ false → IsTidy c → IsTidy (puller_start world c g).1
  unfolding puller_start
  puller_start-IsTidy c g p t =
      let c1 = record c {
        codec = resolve_codec world.rtsp c.cfg;
        puller = true;
        state = ch_connecting;
      } in
      let none_yet : has c.vdec ≡ false = ground (arith, p, t.rest) in
      let o = open-IsTidy world.recording world.hal world.grouped c1 g refl none_yet in
      let started = open-puller world.recording world.hal world.grouped c1 g in
      if_both Started (world.rtsp.rtsp_start c.cfg)
        (if_both Started (world.rtsp.rtsp_play c.cfg) o
          (record { rest = ground (arith, started); gated = o.gated; denied = o.denied }))
        (record { rest = ground (arith, p, t.rest); gated = t.gated; denied = t.denied })

  pub puller_stop-IsTidy : (c : Chan W) (g : G) → IsTidy c → IsTidy (puller_stop world c g).0
  unfolding puller_stop
  puller_stop-IsTidy c g t =
      if_both LeavesTidy c.puller (record { rest = refl; gated = refl; denied = ground arith }) t

  pub call_back-IsTidy :
      (b : Callback) (c : Chan W) (g : G)
      → c.puller ≡ true
      → IsTidy c
      → IsTidy (call_back world b c g).0
  unfolding call_back
  call_back-IsTidy (on_video bytes ts now) c g p t =
      route_video-IsTidy world.recording bytes ts now c g t
  call_back-IsTidy (on_audio bytes ts now) c g p t =
      route_audio-IsTidy world.recording bytes ts now c g t
  call_back-IsTidy (on_notify e) c g p t = record {
    rest = ground (arith, p);
    gated = t.gated;
    denied = t.denied;
  }

pub fresh-IsTidy : {W : Type 0} (cfg : ChanCfg) → IsTidy (fresh_chan {W = W} cfg)
fresh-IsTidy cfg = record { rest = refl; gated = refl; denied = refl }

pub configured-IsTidy :
    {W : Type 0} (c : Chan W) (cfg : ChanCfg) → IsTidy c → IsTidy (record c { cfg = cfg })
configured-IsTidy c cfg t = record { rest = t.rest; gated = t.gated; denied = t.denied }
