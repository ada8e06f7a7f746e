-- ===== src/Streaming/Router/Gate.antt =====
-- components/streaming/src/stream_router.c over components/recorder/src/rsdk_rec.c: what a channel that
-- records on a group of one disk leaves there.
use nt.Prelude.{
  ℕ, ◌+◌, ◌*◌, ◌≤◌, ◌<◌, ◌≡◌, refl, sym, ap, ap₂, ◌∙◌, inl, inr, arith, List, [], ◌∷◌, Bool, true,
  false, Option, none, some, Bool-cases, not, ◌&&◌, ◌||◌, length,
}
use nt.Prelude.Text.{is_empty}
use nt.Recorder.Types.{Frame}
use nt.Recorder.Layout.{sec}
use nt.Recorder.Device.{Dev}
use nt.Recorder.Writer.{Writer, chunk_size, write_frame}
use nt.Recorder.Writer.Frames.{span, IsReady, step, put_all}
use nt.Recorder.Writer.Step.{step-Stepped}
use nt.Recorder.Writer.Run.{Ran, put_all-Ran, write_frame-fits}
use nt.Streaming.Nal.{NalClass, nal_none, nal_classify}
use nt.Streaming.Nal.Ends.{nal_classify-ends}
use nt.Streaming.Router.{Chan, to_writer, gate_video, route_video, audio_frame, send}
use nt.Streaming.Router.Inputs.{
  one_disk, Input, video, audio, route_all, class_of, frame_of, frames, from_key, leads,
}

-- The channel with another decoder, writer and gate.
abbrev placed : Chan Writer → Option (List (List ℕ × ℕ)) → Writer → Bool → Chan Writer
placed c v w b = record c { vdec = v; writer = some w; rec_gated = b }

classified : (bytes : List ℕ) (codec : ℕ) → nal_classify bytes codec ≡ some (class_of bytes codec)
unfolding class_of
classified bytes codec =
    let (c, same, sound, shown) = nal_classify-ends bytes codec in
    same ∙ ap some (sym (ap (λ o. elim o as (λ x. NalClass) [ none ↦ nal_none | some n ↦ n ]) same))

is_empty-length : (bytes : List ℕ) → is_empty bytes ≡ false → 0 < length bytes
is_empty-length [] e = absurd (ground (arith, e))
is_empty-length (x ∷ bytes) e = omega arith

module _ (c : Chan Writer) (v : Option (List (List ℕ × ℕ))) (w : Writer) (d : Dev) where
  route_video-writes :
      (bytes : List ℕ) (ts now : ℕ) (b : Bool)
      → is_empty bytes ≡ false
      → (b || (class_of bytes c.codec).is_key) ≡ true
      → route_video one_disk bytes ts now (placed c v w b) d ≡ (
        placed c (send bytes ts v) (write_frame w (frame_of c.cfg c.codec bytes ts now)).1 true,
        d,
      )
  unfolding route_video gate_video to_writer frame_of
  route_video-writes bytes ts now b e k =
      rw (route_video, gate_video, e, classified bytes c.codec, k) refl

  route_video-waits :
      (bytes : List ℕ) (ts now : ℕ)
      → (not (is_empty bytes) && (class_of bytes c.codec).is_key) ≡ false
      → (v' : Option (List (List ℕ × ℕ))) × (route_video one_disk bytes ts now
            (placed c v w false)
            d
          ≡ (placed c v' w false, d))
  unfolding route_video gate_video to_writer
  route_video-waits bytes ts now k = elim (Bool-cases (is_empty bytes)) [
    | inl e ↦ (v, rw (route_video, e) refl)
    | inr e ↦
        let no_key : (class_of bytes c.codec).is_key ≡ false = ground (arith, k, e) in
        (send bytes ts v, rw (route_video, gate_video, e, classified bytes c.codec, no_key) refl)
  ]

-- Room for a frame and the rest is, after the frame, room for the rest.
write_frame-next :
    (w : Writer) (f : Frame) (fs : List Frame)
    → is_empty f.bytes ≡ false
    → IsReady w
    → w.cur_off + span (f ∷ fs) ≤ chunk_size w.d
    → ((write_frame w f).1 ≡ step w f)
      × IsReady (step w f)
      × ((step w f).cur_off + span fs ≤ chunk_size (step w f).d)
write_frame-next w f fs e r fit =
    let s = step-Stepped w f r (omega arith) in
    (
      ap (λ p. p.1) (write_frame-fits w f r (is_empty-length f.bytes e) (omega arith)),
      s.ready,
      omega (arith, s.cur, ap (λ n. n * sec) s.keeps.chunk_sectors),
    )

RanTo : List Input → Chan Writer × Dev → Writer → Type 0
RanTo ins (c, d) w = (route_all ins c d).0.writer ≡ some w

-- After the inputs `ins`, wherever the decoder is.
Goes : List Input → Chan Writer → Bool → List Frame → Type 0
Goes ins c b fs =
    (v : Option (List (List ℕ × ℕ))) (w : Writer) (d : Dev)
    → IsReady w
    → w.cur_off + span fs ≤ chunk_size w.d
    → RanTo ins (placed c v w b, d) (put_all w fs)

Goes-video :
    (ins : List Input) (c : Chan Writer) (bytes : List ℕ) (ts now : ℕ) (b : Bool)
    → is_empty bytes ≡ false
    → (b || (class_of bytes c.codec).is_key) ≡ true
    → Goes ins c true (frames c.cfg c.codec ins)
    → Goes
        (video bytes ts now ∷ ins)
        c
        b
        (frame_of c.cfg c.codec bytes ts now ∷ frames c.cfg c.codec ins)
unfolding Goes RanTo route_all put_all frame_of
Goes-video ins c bytes ts now b e k rest v w d r fit =
    let f = frame_of c.cfg c.codec bytes ts now in
    let (same, r', fit') = write_frame-next w f (frames c.cfg c.codec ins) e r fit in
    ap (λ (c', d'). (route_all ins c' d').0.writer)
      (route_video-writes c v w d bytes ts now b e k
        ∙ ap (λ w'. (placed c (send bytes ts v) w' true, d)) same)
    ∙ rest (send bytes ts v) (step w f) d r' fit'

Goes-gated : (ins : List Input) (c : Chan Writer) → Goes ins c true (frames c.cfg c.codec ins)
unfolding Goes RanTo route_all put_all frames
Goes-gated [] c v w d r fit = refl
Goes-gated (audio [] ts now ∷ ins) c v w d r fit = Goes-gated ins c v w d r fit
Goes-gated (audio (x ∷ bytes) ts now ∷ ins) c v w d r fit =
    let f = audio_frame c (x ∷ bytes) ts now in
    let (same, r', fit') = write_frame-next w f (frames c.cfg c.codec ins) refl r fit in
    ap (λ w'. (route_all ins (placed c v w' true) d).0.writer) same
    ∙ Goes-gated ins c v (step w f) d r' fit'
Goes-gated (video [] ts now ∷ ins) c v w d r fit = Goes-gated ins c v w d r fit
Goes-gated (video (x ∷ bytes) ts now ∷ ins) c v w d r fit =
    Goes-video ins c (x ∷ bytes) ts now true refl refl (Goes-gated ins c) v w d r fit

Goes-leading :
    (ins : List Input) (c : Chan Writer) (bytes : List ℕ) (ts now : ℕ) (fs : List Frame)
    → (not (is_empty bytes) && (class_of bytes c.codec).is_key) ≡ false
    → Goes ins c false fs
    → Goes (video bytes ts now ∷ ins) c false fs
unfolding Goes RanTo route_all
Goes-leading ins c bytes ts now fs k rest v w d r fit =
    let (v', waits) = route_video-waits c v w d bytes ts now k in
    ap (λ (c', d'). (route_all ins c' d').0.writer) waits ∙ rest v' w d r fit

Goes-waiting :
    (ins : List Input) (c : Chan Writer)
    → Goes ins c false (frames c.cfg c.codec (from_key c.codec ins))
unfolding Goes RanTo route_all put_all frames from_key
Goes-waiting [] c = λ v w d r fit. refl
Goes-waiting (audio bytes ts now ∷ ins) c = λ v w d r fit. Goes-waiting ins c v w d r fit
Goes-waiting (video [] ts now ∷ ins) c = Goes-leading ins c [] ts now _ refl (Goes-waiting ins c)
Goes-waiting (video (x ∷ bytes) ts now ∷ ins) c =
    elim (Bool-cases (class_of (x ∷ bytes) c.codec).is_key) [
      | inl k ↦
          rw (from_key, k) (Goes-video ins c (x ∷ bytes) ts now false refl k (Goes-gated ins c))
      | inr k ↦
          rw (from_key, k)
            (Goes-leading ins c (x ∷ bytes) ts now (frames c.cfg c.codec (from_key c.codec ins)) k
              (Goes-waiting ins c))
    ]

from_key-leads : (codec : ℕ) (ins : List Input) → leads codec (from_key codec ins) ≡ true
unfolding leads from_key
from_key-leads codec [] = refl
from_key-leads codec (audio bytes ts now ∷ ins) = from_key-leads codec ins
from_key-leads codec (video bytes ts now ∷ ins) =
    elim (Bool-cases (not (is_empty bytes) && (class_of bytes codec).is_key)) [
      | inl k ↦ rw (from_key, k) (ground (arith, k))
      | inr k ↦ rw (from_key, k) (from_key-leads codec ins)
    ]

-- A channel with a writer inside its chunk and no key frame yet, on a group of one disk, and any
-- inputs whose frames from the first key frame on fit the chunk: the writer goes on, and on the
-- disk, from where it stood, are one behind the other exactly these frames, audio and
-- pictures, but for the empty ones; what comes before the first key frame is not recorded, and the
-- first that is recorded is a picture of a key frame.
pub route_all-recorded :
    (c : Chan Writer) (w : Writer) (d : Dev) (ins : List Input)
    → c.writer ≡ some w
    → c.rec_gated ≡ false
    → IsReady w
    → w.cur_off + span (frames c.cfg c.codec (from_key c.codec ins)) ≤ chunk_size w.d
    → ((w' : Writer) × ((route_all ins c d).0.writer ≡ some w')
        × Ran w (frames c.cfg c.codec (from_key c.codec ins)) w')
      × (leads c.codec (from_key c.codec ins) ≡ true)
unfolding Goes RanTo
route_all-recorded c w d ins here gated r fit =
    let fs = frames c.cfg c.codec (from_key c.codec ins) in
    let same : c ≡ placed c c.vdec w false =
      ap₂ (λ o b. record c { writer = o; rec_gated = b }) here gated in
    (
      (
        put_all w fs,
        ap (λ c'. (route_all ins c' d).0.writer) same ∙ Goes-waiting ins c c.vdec w d r fit,
        put_all-Ran w fs r fit,
      ),
      from_key-leads c.codec ins,
    )
