-- ===== src/Streaming/Tests.antt =====
-- A stream of a few bytes, a manager's calls, and each theorem of the streams at them.
use nt.Prelude.{ℕ, ◌≡◌, refl, arith, List, [], ◌∷◌, true, false, none, some, map}
use nt.Prelude.Int.{pos, negsuc}
use nt.Recorder.Device.{Dev}
use nt.Recorder.Writer.{Writer}
use nt.Recorder.Writer.Run.{Ran}
use nt.Recorder.Tests.{dev0, writer0, writer0-IsReady}
use nt.Streaming.Nal.{NalClass, nal_start, next_nal, header_264, nal_header, nal_loop, nal_classify}
use nt.Streaming.Nal.Ends.{IsSound, IsSeen, kind_of, nal_classify-ends}
use nt.Streaming.Nal.Units.{NalUnit, clean, annexb, verdict, nal_classify-annexb}
use nt.Streaming.Router.{ChanCfg, Chan, ch_playing, vdec_ok, stream_router_open}
use nt.Streaming.Router.Inputs.{
  one_disk, Input, video, audio, route_all, frames, from_key, class_of, frame_of, leads,
}
use nt.Streaming.Router.Gate.{route_all-recorded}
use nt.Streaming.Manager.{
  World, connsucc, on_video, on_notify, mgr_init, add_channel, stream_start, puller_start,
}
use nt.Streaming.Manager.Life.{
  Op, op_add, op_start, op_stop, op_back, op_record, run_op, run_ops, scene0, AllTidy,
  run_ops-AllTidy,
}

-- A parameter set and a picture of its own, and one that needs others, of H.264.
abbrev units0 : List NalUnit
units0 = (103, 9 ∷ 0 ∷ 3 ∷ []) ∷ (101, 0 ∷ 0 ∷ 7 ∷ []) ∷ []

abbrev key0 : List ℕ
key0 = 0 ∷ 0 ∷ 0 ∷ 1 ∷ 101 ∷ 5 ∷ []

abbrev delta0 : List ℕ
delta0 = 0 ∷ 0 ∷ 1 ∷ 65 ∷ 5 ∷ []

nal_classify-ends_example :
    (c : NalClass) × (nal_classify key0 0 ≡ some c) × IsSound c × IsSeen 0 (nal_start key0) c
nal_classify-ends_example = nal_classify-ends key0 0

nal_classify-annexb_example :
    nal_classify (annexb units0) 0 ≡ some (verdict (map (λ v. kind_of 0 v.0) units0))
unfolding clean
nal_classify-annexb_example =
    nal_classify-annexb 0 (103, 9 ∷ 0 ∷ 3 ∷ []) ((101, 0 ∷ 0 ∷ 7 ∷ []) ∷ []) (refl, (refl, tt))

abbrev cfg0 : ChanCfg
cfg0 = record {
  chn = 3;
  url = 114 ∷ [];
  codec = pos 0;
  stream = 0;
  recording = true;
  vout_win = negsuc 0;
  enc_w = 0;
  enc_h = 0;
  fps = 0;
}

abbrev chan0 : Chan Writer
chan0 = record {
  cfg = cfg0;
  codec = 0;
  state = ch_playing;
  vdec = none;
  decode_denied = false;
  writer = some writer0;
  rec_gated = false;
  puller = true;
}

abbrev inputs0 : List Input
inputs0 =
    video delta0 90 1000
    ∷ audio (1 ∷ []) 95 1000
    ∷ video key0 100 1001
    ∷ audio [] 105 1001
    ∷ audio (2 ∷ 3 ∷ []) 110 1001
    ∷ video delta0 120 1002
    ∷ []

-- Three frames are recorded.
frames_test : map (λ f. f.frame_type) (frames cfg0 0 (from_key 0 inputs0)) ≡ 0 ∷ 3 ∷ 1 ∷ []
unfolding frames from_key class_of nal_classify nal_loop next_nal nal_header header_264 frame_of
frames_test = refl

route_all-recorded_example :
    ((w : Writer) × ((route_all inputs0 chan0 dev0).0.writer ≡ some w)
      × Ran writer0 (frames cfg0 0 (from_key 0 inputs0)) w)
    × (leads 0 (from_key 0 inputs0) ≡ true)
unfolding frames from_key class_of nal_classify nal_loop next_nal nal_header header_264 frame_of
route_all-recorded_example =
    route_all-recorded chan0 writer0 dev0 inputs0 refl refl writer0-IsReady (omega arith)

-- The driver has room for every decoder, the client connects and plays.
abbrev world0 : World Dev Writer
world0 = record {
  hal = record { vdec_open = λ chn codec w h fps win. vdec_ok };
  rtsp = record { rtsp_start = λ cfg. true; video_codec = λ cfg. 1; rtsp_play = λ cfg. true };
  recording = one_disk;
  grouped = true;
}

abbrev ops0 : List Op
ops0 =
    op_add cfg0
    ∷ op_start 3
    ∷ op_back 3 (on_notify connsucc)
    ∷ op_back 3 (on_video key0 90 1000)
    ∷ op_record 3 false
    ∷ op_stop 3
    ∷ []

run_ops-AllTidy_example :
    AllTidy (run_ops world0 ops0 (scene0 dev0)).leaked (run_ops world0 ops0 (scene0 dev0)).mgr
run_ops-AllTidy_example = run_ops-AllTidy world0 ops0 dev0

-- A channel that is added while its client runs goes on being called back.
forgotten_test :
    (run_ops world0 (op_add cfg0 ∷ op_start 3 ∷ op_add cfg0 ∷ []) (scene0 dev0)).leaked 3 ≡ true
unfolding run_ops run_op scene0 mgr_init add_channel stream_start puller_start stream_router_open
forgotten_test = refl
