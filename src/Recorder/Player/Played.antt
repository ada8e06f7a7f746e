-- ===== src/Recorder/Player/Played.antt =====
-- One segment from its first frame to its playback: rsdk_rec.c and rsdk_play.c together.
use nt.Prelude.{
  u64, ℕ, suc, ◌+◌, ◌*◌, ◌≤◌, ◌<◌, ◌≡◌, refl, sym, ap, subst, ◌∙◌, arith, List, [], ◌∷◌, true,
  false, Option, ◌==◌, length, All,
}
use nt.Prelude.Bytes.{Disk}
use nt.Recorder.Types.{Err, ok, Frame}
use nt.Recorder.Layout.{sec, seal_sb, seal_st}
use nt.Recorder.Device.{Dev, Cipher, flush}
use nt.Recorder.Index.{index_write}
use nt.Recorder.Index.Slots.{flush_above, index_end}
use nt.Recorder.Index.Upsert.{index_write_above, index_write-Keeps, Keeps}
use nt.Recorder.Writer.{Writer, chunk_size, fill_slot, finalize_seg, rec_close}
use nt.Recorder.Writer.Frames.{span, IsReady, put_all, write_many}
use nt.Recorder.Writer.Run.{
  Stored, Stored-agree, last_off, Ran, put_all-Ran, write_many-fits, Keeps-trans,
}
use nt.Recorder.Player.{play_open}
use nt.Recorder.Player.RoundTrip.{IsFrame, IsByteCipher, play_all, expected, play_all-Stored}

IsFrame-filled : (fs : List Frame) → All IsFrame fs → All (λ f. 0 < length f.bytes) fs
IsFrame-filled [] v = tt
IsFrame-filled (f ∷ fs) v = (v.0.filled, IsFrame-filled fs v.1)

-- What the close of a segment leaves of the device.
record Closed (w : Writer) (d : Dev) : Type 0 where
  pub keeps : Keeps w.d d
  pub above : (q : ℕ) → index_end w.d ≤ q → d.disk q ≡ w.d.disk q

finalized :
    (w : Writer)
    → (w.frame_count == 0) ≡ false
    → finalize_seg w ≡ (
      (index_write w.d (fill_slot w true)).0,
      record w { d = (index_write w.d (fill_slot w true)).1 },
    )
unfolding finalize_seg
finalized w e = rw (e) refl

flush-Keeps : (d : Dev) → d.st.index_next < d.st.index_slot_count → Keeps d (flush d)
unfolding flush seal_st seal_sb
flush-Keeps d h = record {
  crypto = refl;
  chunk_sectors = refl;
  data_start = refl;
  index_start = refl;
  slot_count = refl;
  next_in = h;
}

rec_close-finalized :
    (w w1 : Writer) (e : Err) → finalize_seg w ≡ (e, w1) → rec_close w ≡ (e, flush w1.d)
unfolding rec_close
rec_close-finalized w w1 e h = ap {A = Err × Writer} {B = Err × Dev} (λ r. (r.0, flush r.1.d)) h

rec_close-Closed :
    (w : Writer) → IsReady w → 0 < w.frame_count → ((rec_close w).0 ≡ ok) × Closed w (rec_close w).1
rec_close-Closed w r pos =
    let k = index_write-Keeps w.d (fill_slot w true) r.next_in in
    rw (rec_close-finalized w _ _ (finalized w (ground (arith, pos)))) (
      k.0,
      record {
        keeps =
            Keeps-trans w.d (index_write w.d (fill_slot w true)).1 _ k.1
              (flush-Keeps _ k.1.next_in);
        above = λ q h.
            flush_above _ q (omega (arith, r.behind))
            ∙ index_write_above w.d (fill_slot w true) q r.behind r.next_in h;
      },
    )

play_open-Stored :
    (w : Writer) (d : Dev) (fs : List Frame)
    → IsByteCipher d.crypto
    → All IsFrame fs
    → w.seg_id < 4294967296
    → span fs ≤ 2147483648
    → length fs < 4294967296
    → 0 < length fs
    → w.end_off ≡ last_off 0 fs 0
    → Stored d.disk
        (u64 (d.sb.data_start_sec * sec + w.chunk * chunk_size d) + 0)
        d.crypto
        w.seg_id
        0
        fs
    → play_all (suc (length fs)) (play_open d (fill_slot w true)) ≡ expected d.crypto w.seg_id 0 fs
unfolding play_open fill_slot
play_open-Stored w d fs c v hs fit n pos end st =
    play_all-Stored fs (play_open d (fill_slot w true)) w.seg_id 0 0 c v hs (omega arith) refl
      (omega (arith, fit)) end (λ z. omega arith) st

Stored-cast :
    (d : Disk) (fs : List Frame) (seg seg' seq seq' : ℕ) (c c' : Option Cipher) (a b : ℕ)
    → a ≡ b
    → c ≡ c'
    → seg ≡ seg'
    → seq ≡ seq'
    → Stored d a c seg seq fs
    → Stored d b c' seg' seq' fs
Stored-cast d fs seg seg' seq seq' c c' a b e1 e2 e3 e4 h = rw (← e1, ← e2, ← e3, ← e4) h

place :
    (a b c d e f : ℕ)
    → a ≡ b
    → c ≡ d
    → e ≡ f
    → u64 (a * sec + e * u64 (c * sec)) ≡ u64 (b * sec + f * u64 (d * sec))
place a b c d e f h1 h2 h3 = rw (h1, h2, h3) refl

-- A run of frames that is not empty and fits the writer's chunk is recorded with status ok, and the
-- close of the segment succeeds. A player of the closed segment then gives exactly these frames, in
-- their order, with the headers that the writer made and the bytes that were passed in, and refuses
-- the frame behind the last. The writer is at the start of a segment in a chunk behind the index, the
-- cipher, if there is one, is any function to bytes, and each frame's fields fit the header's.
pub play-rec :
    (w : Writer) (fs : List Frame)
    → IsReady w
    → w.frame_seq ≡ 0
    → w.cur_off ≡ 0
    → w.end_off ≡ 0
    → w.base_off ≡ u64 (w.d.sb.data_start_sec * sec + w.chunk * chunk_size w.d)
    → w.seg_id < 4294967296
    → IsByteCipher w.d.crypto
    → All IsFrame fs
    → 0 < length fs
    → span fs ≤ chunk_size w.d
    → ((write_many w fs).0 ≡ ok)
      × ((rec_close (write_many w fs).1).0 ≡ ok)
      × (play_all
            (suc (length fs))
            (play_open (rec_close (write_many w fs).1).1 (fill_slot (write_many w fs).1 true))
          ≡ expected w.d.crypto w.seg_id 0 fs)
play-rec w fs r q0 c0 e0 base hs cipher v pos fit =
    rw (write_many-fits w fs r (IsFrame-filled fs v) (omega arith)) (refl, closed.0, played)
  where
    w' : Writer
    w' = put_all w fs

    n : Ran w fs w'
    n = put_all-Ran w fs r (omega arith)

    closed : ((rec_close w').0 ≡ ok) × Closed w' (rec_close w').1
    closed = rec_close-Closed w' n.ready (omega (arith, n.count, n.ready.counted))

    d : Dev
    d = (rec_close w').1

    keeps : Keeps w.d d
    keeps = Keeps-trans w.d w'.d d n.keeps closed.1.keeps

    stored : Stored d.disk (w.base_off + w.cur_off) w.d.crypto w.seg_id w.frame_seq fs
    stored =
        Stored-agree w'.d.disk d.disk _ _ _ _ fs
          (λ q lo hi. closed.1.above q (omega (arith, n.base, n.ready.above))) n.stored

    start : last_off w.cur_off fs w.end_off ≡ last_off 0 fs 0
    start = rw (c0, e0) refl

    here :
        u64 (w.d.sb.data_start_sec * sec + w.chunk * chunk_size w.d)
        ≡ u64 (d.sb.data_start_sec * sec + w'.chunk * chunk_size d)
    here = place _ _ _ _ _ _ (sym keeps.data_start) (sym keeps.chunk_sectors) (sym n.chunk)

    played :
        play_all (suc (length fs)) (play_open d (fill_slot w' true))
        ≡ expected w.d.crypto w.seg_id 0 fs
    played =
        play_open-Stored w' d fs (subst IsByteCipher (sym keeps.crypto) cipher) v (rw (n.seg) hs)
          (omega (arith, r.small)) (omega (arith, n.count, n.ready.numbered, n.cur, r.small)) pos
          (n.last ∙ start)
          (Stored-cast d.disk fs _ _ _ _ _ _ _ _ (omega (arith, base, c0, here)) (sym keeps.crypto)
            (sym n.seg) q0 stored)
        ∙ ap (λ c. expected c w'.seg_id 0 fs) keeps.crypto
        ∙ ap (λ s. expected w.d.crypto s 0 fs) n.seg
