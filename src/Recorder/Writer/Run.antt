-- ===== src/Recorder/Writer/Run.antt =====
-- A run of frames that fits one chunk, written one by one.
use nt.Prelude.{
  ℕ, ◌+◌, ◌*◌, ◌≤◌, ◌<◌, ◌≡◌, refl, ap, ◌∙◌, arith, List, [], ◌∷◌, Option, length, All,
}
use nt.Prelude.Bytes.{Disk}
use nt.Recorder.Types.{ok, Frame}
use nt.Recorder.Layout.{sec}
use nt.Recorder.Device.{Dev, Cipher}
use nt.Recorder.Index.Upsert.{Keeps}
use nt.Recorder.Writer.{Writer, chunk_size, roll_over, write_frame}
use nt.Recorder.Writer.Frames.{room, span, IsReady, step, put_all, write_many, At, At-agree}
use nt.Recorder.Writer.Step.{Stepped, step-Stepped}

-- The frames from `off` on, numbered from `seq`.
unfoldable pub Stored : Disk → ℕ → Option Cipher → ℕ → ℕ → List Frame → Type 0
Stored d off crypto seg seq [] = Unit {0}
Stored d off crypto seg seq (f ∷ fs) =
    At d off crypto seg seq f × Stored d (off + room (length f.bytes)) crypto seg (seq + 1) fs

pub Stored-agree :
    (d e : Disk) (off : ℕ) (crypto : Option Cipher) (seg seq : ℕ) (fs : List Frame)
    → ((q : ℕ) → off ≤ q → q < off + span fs → e q ≡ d q)
    → Stored d off crypto seg seq fs
    → Stored e off crypto seg seq fs
unfolding Stored
Stored-agree d e off crypto seg seq [] h s = tt
Stored-agree d e off crypto seg seq (f ∷ fs) h s = (
  At-agree d e off crypto seg seq f (λ q lo hi. h q lo (omega arith)) s.0,
  Stored-agree d e (off + room (length f.bytes)) crypto seg (seq + 1) fs
      (λ q lo hi. h q (omega arith) (omega arith)) s.1,
)

-- Where the last frame starts.
abbrev pub last_off : ℕ → List Frame → ℕ → ℕ
last_off off [] d = d
last_off off (f ∷ fs) d = last_off (off + room (length f.bytes)) fs off

-- What a run of frames does to a writer that has room for all of them.
pub record Ran (w : Writer) (fs : List Frame) (w' : Writer) : Type 0 where
  pub ready : IsReady w'
  pub keeps : Keeps w.d w'.d
  pub base : w'.base_off ≡ w.base_off
  pub cur : w'.cur_off ≡ w.cur_off + span fs
  pub seg : w'.seg_id ≡ w.seg_id
  pub last : w'.end_off ≡ last_off w.cur_off fs w.end_off
  pub chunk : w'.chunk ≡ w.chunk
  pub count : w'.frame_seq ≡ w.frame_seq + length fs
  pub stored : Stored w'.d.disk (w.base_off + w.cur_off) w.d.crypto w.seg_id w.frame_seq fs
  pub below : (q : ℕ) → w.base_off ≤ q → q < w.base_off + w.cur_off → w'.d.disk q ≡ w.d.disk q

pub Keeps-trans : (a b c : Dev) → Keeps a b → Keeps b c → Keeps a c
Keeps-trans a b c h k = record {
  crypto = k.crypto ∙ h.crypto;
  chunk_sectors = k.chunk_sectors ∙ h.chunk_sectors;
  data_start = k.data_start ∙ h.data_start;
  index_start = k.index_start ∙ h.index_start;
  slot_count = k.slot_count ∙ h.slot_count;
  next_in = k.next_in;
}

Stored-cast :
    (d : Disk) (fs : List Frame) {off off' seg seg' seq seq' : ℕ} {c c' : Option Cipher}
    → off ≡ off'
    → c ≡ c'
    → seg ≡ seg'
    → seq ≡ seq'
    → Stored d off c seg seq fs
    → Stored d off' c' seg' seq' fs
Stored-cast d fs e1 e2 e3 e4 a = rw (← e1, ← e2, ← e3, ← e4) a

last_off-cast : (fs : List Frame) {a b c d : ℕ} → a ≡ b → c ≡ d → last_off a fs c ≡ last_off b fs d
last_off-cast fs e1 e2 = rw (e1, e2)

Ran-cons :
    (w w1 w' : Writer) (f : Frame) (fs : List Frame)
    → Stepped w f w1
    → Ran w1 fs w'
    → Ran w (f ∷ fs) w'
unfolding Stored
Ran-cons w w1 w' f fs s n = record {
  ready = n.ready;
  keeps = Keeps-trans w.d w1.d w'.d s.keeps n.keeps;
  base = n.base ∙ s.base;
  cur = omega arith;
  seg = n.seg ∙ s.seg;
  last = n.last ∙ last_off-cast fs s.cur s.last;
  chunk = n.chunk ∙ s.chunk;
  count = omega arith;
  stored = (
    At-agree w1.d.disk w'.d.disk (w.base_off + w.cur_off) w.d.crypto w.seg_id w.frame_seq f
        (λ q lo hi. n.below q (omega arith) (omega arith)) s.at,
    Stored-cast w'.d.disk fs (omega arith) s.keeps.crypto s.seg s.seq n.stored,
  );
  below = λ q lo hi. n.below q (omega arith) (omega arith) ∙ s.below q lo hi;
}

pub put_all-Ran :
    (w : Writer) (fs : List Frame)
    → IsReady w
    → w.cur_off + span fs ≤ chunk_size w.d
    → Ran w fs (put_all w fs)
unfolding put_all Stored
put_all-Ran w [] r fit = record {
  ready = r;
  keeps = record {
    crypto = refl;
    chunk_sectors = refl;
    data_start = refl;
    index_start = refl;
    slot_count = refl;
    next_in = r.next_in;
  };
  base = refl;
  cur = omega arith;
  seg = refl;
  last = refl;
  chunk = refl;
  count = omega arith;
  stored = tt;
  below = λ q lo hi. refl;
}
put_all-Ran w (f ∷ fs) r fit =
    let s = step-Stepped w f r (omega arith) in
    Ran-cons w (step w f) (put_all (step w f) fs) f fs s (
      put_all-Ran (step w f) fs s.ready
        (omega (arith, s.cur, ap (λ n. n * sec) s.keeps.chunk_sectors)))

-- A frame that fits is written: the segment goes on.
pub write_frame-fits :
    (w : Writer) (f : Frame)
    → IsReady w
    → 0 < length f.bytes
    → w.cur_off + room (length f.bytes) ≤ chunk_size w.d
    → write_frame w f ≡ (ok, step w f)
unfolding write_frame step roll_over
write_frame-fits w f r pos fit = ground (arith, r.small, r.inside)

write_many-cons :
    (w w1 : Writer) (f : Frame) (fs : List Frame)
    → write_frame w f ≡ (ok, w1)
    → write_many w (f ∷ fs) ≡ write_many w1 fs
unfolding write_many
write_many-cons w w1 f fs e = ground (arith, e)

pub write_many-fits :
    (w : Writer) (fs : List Frame)
    → IsReady w
    → All (λ f. 0 < length f.bytes) fs
    → w.cur_off + span fs ≤ chunk_size w.d
    → write_many w fs ≡ (ok, put_all w fs)
unfolding write_many put_all
write_many-fits w [] r pos fit = refl
write_many-fits w (f ∷ fs) r pos fit =
    let s = step-Stepped w f r (omega arith) in
    write_many-cons w (step w f) f fs (write_frame-fits w f r pos.0 (omega arith))
    ∙ write_many-fits (step w f) fs s.ready pos.1
        (omega (arith, s.cur, ap (λ n. n * sec) s.keeps.chunk_sectors))
