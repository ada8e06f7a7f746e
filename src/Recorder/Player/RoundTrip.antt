-- ===== src/Recorder/Player/RoundTrip.antt =====
-- What the writer writes, the player plays back.
use nt.Prelude.{
  get_or, ℕ, zero, suc, ◌+◌, ◌%◌, ◌≤◌, ◌<◌, ◌≡◌, refl, ap, Option-cases, subst, ◌∙◌, inl, inr,
  arith, List, [], ◌∷◌, Bool, true, false, Option, none, some, ◌==◌, if◌then◌else◌, length, All,
}
use nt.Prelude.Bytes.{Disk, pread, decode, Fits, decode-encode}
use nt.Recorder.Types.{Err, ok, notfound, corrupt, Frame, FrameHdr, hdr_widths, hdr_values, hdr_of}
use nt.Recorder.Util.{crc32-lt}
use nt.Recorder.Crypto.{xcrypt, xcrypt_twice}
use nt.Recorder.Device.{Cipher}
use nt.Recorder.Writer.{frame_magic, frame_hdr, hdr_crc, payload, is_some}
use nt.Recorder.Writer.Frames.{room, span, At}
use nt.Recorder.Writer.Run.{Stored, last_off}
use nt.Recorder.Player.{Player, read_hdr, next_off, next_frame}

-- A frame whose fields fit the header's, with a payload of bytes.
pub record IsFrame (f : Frame) : Type 0 where
  pub chn : f.chn < 65536
  pub stream : f.stream < 256
  pub codec : f.codec < 256
  pub frame_type : f.frame_type < 256
  pub pts : f.pts < 18446744073709551616
  pub wall_time : f.wall_time < 18446744073709551616
  pub filled : 0 < length f.bytes
  pub bytes : All (λ b. b < 256) f.bytes

-- The block function returns bytes.
abbrev pub IsByteCipher : Option Cipher → Type 0
IsByteCipher none = Unit {0}
IsByteCipher (some aes) = (block : List ℕ) (k : ℕ) → get_or (aes block) k 0 < 256

frame_hdr-Fits :
    (crypto : Option Cipher) (seg seq : ℕ) (f : Frame)
    → IsFrame f
    → length f.bytes < 4294967296
    → seg < 4294967296
    → seq < 4294967296
    → Fits hdr_widths (hdr_values (frame_hdr crypto seg seq f))
unfolding frame_hdr
frame_hdr-Fits crypto seg seq f v len hs hq = (
  omega arith,
  (
    v.chn,
    (
      v.stream,
      (
        v.codec,
        (
          v.frame_type,
          (
            flag (is_some crypto),
            (
              omega arith,
              (
                len,
                (hs, (hq, (v.pts, (v.wall_time, (omega arith, (crc32-lt _, (omega arith, tt))))))),
              ),
            ),
          ),
        ),
      ),
    ),
  ),
)
  where
    flag : (b : Bool) → (if b then 1 else 0) < 256
    flag true = omega arith
    flag false = omega arith

-- A header with the magic number and its checksum passes the tests.
header_passes :
    (read h : FrameHdr)
    → read ≡ h
    → h.magic ≡ frame_magic
    → hdr_crc h ≡ h.hdr_crc32
    → ◌≡◌ {A = Err × FrameHdr}
        (if read.magic == frame_magic
          then (if hdr_crc read == read.hdr_crc32 then (ok, read) else (corrupt, read))
          else (notfound, read))
        (ok, h)
header_passes read h e m c = rw (e) (ground (arith, m, c))

-- A header that stands on the disk is read.
read_hdr-At :
    (p : Player) (off seg seq : ℕ) (f : Frame)
    → IsFrame f
    → length f.bytes < 4294967296
    → seg < 4294967296
    → seq < 4294967296
    → At p.d.disk (p.base_off + off) p.d.crypto seg seq f
    → read_hdr p off ≡ (ok, frame_hdr p.d.crypto seg seq f)
unfolding read_hdr frame_hdr hdr_crc
read_hdr-At p off seg seq f v len hs hq a =
    header_passes (hdr_of (decode hdr_widths (pread p.d.disk (p.base_off + off) 64)))
      (frame_hdr p.d.crypto seg seq f) back refl refl
  where
    back :
        hdr_of (decode hdr_widths (pread p.d.disk (p.base_off + off) 64))
        ≡ frame_hdr p.d.crypto seg seq f
    back =
        ap (λ b. hdr_of (decode hdr_widths b)) a.header
        ∙ ap hdr_of (decode-encode hdr_widths _ (frame_hdr-Fits p.d.crypto seg seq f v len hs hq))

-- The player behind a frame of `len` bytes.
abbrev pub moved : Player → ℕ → Player
moved p len = record p { cur_off = next_off p.cur_off len }

next_frame-plain :
    (p : Player) (h : FrameHdr)
    → p.cur_off ≤ p.end_off
    → read_hdr p p.cur_off ≡ (ok, h)
    → h.enc ≡ 0
    → next_frame p
      ≡ (ok, h, pread p.d.disk (p.base_off + p.cur_off + 64) h.payload_len, moved p h.payload_len)
unfolding next_frame
next_frame-plain p h le e n = rw (e) (ground (arith, n))

next_frame-sealed :
    (p : Player) (h : FrameHdr) (aes : Cipher)
    → p.cur_off ≤ p.end_off
    → read_hdr p p.cur_off ≡ (ok, h)
    → h.enc ≡ 1
    → p.d.crypto ≡ some aes
    → next_frame p ≡ (
      ok,
      h,
      xcrypt aes h.seg_id h.frame_seq 0
          (pread p.d.disk (p.base_off + p.cur_off + 64) h.payload_len),
      moved p h.payload_len,
    )
unfolding next_frame
next_frame-sealed p h aes le e n c = rw (e) (ground (arith, n, c))

-- The player reads the frame at its place.
next_frame-At :
    (p : Player) (seg seq : ℕ) (f : Frame)
    → IsByteCipher p.d.crypto
    → IsFrame f
    → length f.bytes < 4294967296
    → seg < 4294967296
    → seq < 4294967296
    → p.cur_off ≤ p.end_off
    → At p.d.disk (p.base_off + p.cur_off) p.d.crypto seg seq f
    → next_frame p ≡ (ok, frame_hdr p.d.crypto seg seq f, f.bytes, moved p (length f.bytes))
unfolding frame_hdr payload
next_frame-At p seg seq f cipher v len hs hq le a = elim (Option-cases p.d.crypto) [
  | inl e ↦
      next_frame-plain p _ le read (rw (e) refl)
      ∙ ap (λ b. (ok, frame_hdr p.d.crypto seg seq f, b, moved p (length f.bytes)))
          (a.body ∙ rw (e) refl)
  | inr (aes, e) ↦
      next_frame-sealed p _ aes le read (rw (e) refl) e
      ∙ ap
          (λ b.
            (ok, frame_hdr p.d.crypto seg seq f, xcrypt aes seg seq 0 b, moved p (length f.bytes)))
          (a.body ∙ rw (e) refl)
      ∙ ap (λ b. (ok, frame_hdr p.d.crypto seg seq f, b, moved p (length f.bytes)))
          (xcrypt_twice aes seg seq 0 f.bytes (bytes_of aes e) v.bytes)
]
  where
    read : read_hdr p p.cur_off ≡ (ok, frame_hdr p.d.crypto seg seq f)
    read = read_hdr-At p p.cur_off seg seq f v len hs hq a

    bytes_of :
        (aes : Cipher)
        → p.d.crypto ≡ some aes
        → (block : List ℕ) (k : ℕ) → get_or (aes block) k 0 < 256
    bytes_of aes e = subst IsByteCipher e cipher

-- Plays until a frame is refused: the headers and the plaintexts.
unfoldable pub play_all : ℕ → Player → List (FrameHdr × List ℕ)
play_all zero p = []
play_all (suc fuel) p =
    let (e, h, bytes, p') = next_frame p in
    let rest = play_all fuel p' in elim e [ ok ↦ (h, bytes) ∷ rest | _ ↦ [] ]

-- What a player of the run should give.
unfoldable pub expected : Option Cipher → ℕ → ℕ → List Frame → List (FrameHdr × List ℕ)
expected crypto seg seq [] = []
expected crypto seg seq (f ∷ fs) =
    (frame_hdr crypto seg seq f, f.bytes) ∷ expected crypto seg (seq + 1) fs

play_all-next :
    (fuel : ℕ) (p p' : Player) (h : FrameHdr) (bytes : List ℕ)
    → next_frame p ≡ (ok, h, bytes, p')
    → play_all (suc fuel) p ≡ (h, bytes) ∷ play_all fuel p'
unfolding play_all
play_all-next fuel p p' h bytes e =
    ap {A = Err × FrameHdr × List ℕ × Player} {B = List (FrameHdr × List ℕ)}
      (λ r. elim r.0 [ ok ↦ (r.1, r.2) ∷ play_all fuel r.3 | _ ↦ [] ]) e

play_all-end : (fuel : ℕ) (p : Player) → p.end_off < p.cur_off → play_all (suc fuel) p ≡ []
unfolding play_all next_frame
play_all-end fuel p h = ground (arith, h)

last_off-ge : (off d : ℕ) (fs : List Frame) → d ≤ off → d ≤ last_off off fs d
last_off-ge off d [] h = omega arith
last_off-ge off d (f ∷ fs) h =
    let r = last_off-ge (off + room (length f.bytes)) off fs (omega arith) in omega arith

-- Frames that stand on the disk behind the player are played, and nothing else is.
pub play_all-Stored :
    (fs : List Frame) (p : Player) (seg seq d : ℕ)
    → IsByteCipher p.d.crypto
    → All IsFrame fs
    → seg < 4294967296
    → seq + length fs < 4294967296
    → p.cur_off % 128 ≡ 0
    → p.cur_off + span fs ≤ 2147483648
    → p.end_off ≡ last_off p.cur_off fs d
    → (length fs ≡ 0 → d < p.cur_off)
    → Stored p.d.disk (p.base_off + p.cur_off) p.d.crypto seg seq fs
    → play_all (suc (length fs)) p ≡ expected p.d.crypto seg seq fs
unfolding Stored expected
play_all-Stored [] p seg seq d c v hs hq al fit end stop st =
    play_all-end zero p (omega (arith, end, stop refl))
play_all-Stored (f ∷ fs) p seg seq d c v hs hq al fit end stop st =
    let far = last_off-ge (p.cur_off + room (length f.bytes)) p.cur_off fs (omega arith) in
    play_all-next (length (f ∷ fs)) p (moved p (length f.bytes)) _ f.bytes (
      next_frame-At p seg seq f c v.0 (omega arith) hs (omega arith) (omega (arith, far, end)) st.0)
    ∙ ap (λ l. (frame_hdr p.d.crypto seg seq f, f.bytes) ∷ l)
        (play_all-Stored fs (moved p (length f.bytes)) seg (seq + 1) p.cur_off c v.1 hs
          (omega arith) (omega arith) (omega arith)
          (end ∙ last_off-start fs p.cur_off (omega arith)) (λ _. omega arith)
          (Stored-start p.d.disk fs p.d.crypto seg (seq + 1) (omega arith) st.1))
  where
    last_off-start : (fs : List Frame) {a b : ℕ} (d : ℕ) → a ≡ b → last_off a fs d ≡ last_off b fs d
    last_off-start fs d e = rw (e) refl

    Stored-start :
        (k : Disk) (fs : List Frame) (c : Option Cipher) (s q : ℕ) {a b : ℕ}
        → a ≡ b
        → Stored k a c s q fs
        → Stored k b c s q fs
    Stored-start k fs c s q e h = rw (← e) h
