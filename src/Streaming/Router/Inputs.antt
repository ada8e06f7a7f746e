-- ===== src/Streaming/Router/Inputs.antt =====
-- What comes to a channel that records on a group of one disk, and what is to be recorded of it.
use nt.Prelude.{ℕ, List, [], ◌∷◌, Bool, true, false, none, some, not, ◌&&◌, if◌then◌else◌, u8, u16}
use nt.Prelude.Text.{is_empty}
use nt.Recorder.Types.{ok, Frame}
use nt.Recorder.Device.{Dev}
use nt.Recorder.Writer.{Writer, rec_open, write_frame, rec_close}
use nt.Streaming.Nal.{NalClass, nal_none, nal_classify}
use nt.Streaming.Router.{ChanCfg, Chan, Recording, route_video, route_audio}

-- The recorder on a group of one disk that one channel at a time writes to.
abbrev pub one_disk : Recording Dev Writer
one_disk = record {
  rec_open =
      λ chn d. let (e, w) = rec_open d chn 0 in elim e [ ok ↦ (some w, w.d) | other ↦ (none, d) ];
  rec_write = λ w f d. ((write_frame w f).1, d);
  rec_close = λ w d. (rec_close w).1;
}

-- The bytes, the time stamp of the stream and the time.
pub data Input : Type 0 where
  video audio : List ℕ → ℕ → ℕ → Input

unfoldable pub route_all : List Input → Chan Writer → Dev → Chan Writer × Dev
unfolding route_video route_audio
route_all [] c d = (c, d)
route_all (video bytes ts now ∷ ins) c d =
    let (c', d') = route_video one_disk bytes ts now c d in route_all ins c' d'
route_all (audio bytes ts now ∷ ins) c d =
    let (c', d') = route_audio one_disk bytes ts now c d in route_all ins c' d'

unfoldable pub class_of : List ℕ → ℕ → NalClass
unfolding nal_classify
class_of bytes codec = elim (nal_classify bytes codec) [ none ↦ nal_none | some c ↦ c ]

-- The frame of a picture.
unfoldable pub frame_of : ChanCfg → ℕ → List ℕ → ℕ → ℕ → Frame
unfolding class_of
frame_of cfg codec bytes ts now = record {
  chn = u16 cfg.chn;
  stream = u8 cfg.stream;
  codec = u8 codec;
  frame_type = u8 (class_of bytes codec).frame_type;
  pts = ts;
  wall_time = now;
  bytes = bytes;
}

-- The frame of an input, of those that are not empty.
unfoldable pub frames : ChanCfg → ℕ → List Input → List Frame
unfolding frame_of
frames cfg codec [] = []
frames cfg codec (video bytes ts now ∷ ins) =
    if is_empty bytes
    then frames cfg codec ins
    else frame_of cfg codec bytes ts now ∷ frames cfg codec ins
frames cfg codec (audio bytes ts now ∷ ins) =
    if is_empty bytes
    then frames cfg codec ins
    else (record {
      chn = u16 cfg.chn;
      stream = 2;
      codec = 2;
      frame_type = 3;
      pts = ts;
      wall_time = now;
      bytes = bytes;
    })
      ∷ frames cfg codec ins

-- The inputs from the first picture of a key frame on.
unfoldable pub from_key : ℕ → List Input → List Input
unfolding class_of
from_key codec [] = []
from_key codec (audio bytes ts now ∷ ins) = from_key codec ins
from_key codec (video bytes ts now ∷ ins) =
    if not (is_empty bytes) && (class_of bytes codec).is_key
    then video bytes ts now ∷ ins
    else from_key codec ins

abbrev pub recorded : ChanCfg → ℕ → Bool → List Input → List Frame
recorded cfg codec gated ins = frames cfg codec (if gated then ins else from_key codec ins)

-- Whether the first of the inputs is a picture of a key frame.
unfoldable pub leads : ℕ → List Input → Bool
unfolding class_of
leads codec [] = true
leads codec (audio bytes ts now ∷ ins) = false
leads codec (video bytes ts now ∷ ins) = (class_of bytes codec).is_key
