-- ===== src/Cloud/TsMux.antt =====
-- components/cloud_uploader/src/ts_mux.c: access units into transport stream packets of 188 bytes.
-- The buffer is the list of its packets; memory does not run out.
pub mod Packet
pub mod Units
use nt.Prelude.{
  ℕ, zero, suc, ◌+◌, ◌-◌, ◌*◌, ◌/◌, ◌%◌, List, [], ◌∷◌, ◌++◌, Bool, true, false, Option, none, some,
  ltb, leb, ◌==◌, ◌&&◌, not, if◌then◌else◌, length, take, drop, replicate, bit_xor, u32,
}

abbrev pub Packet : Type 0
Packet = List ℕ

pub record TsMux : Type 0 where
  pub buf : List Packet
  pub h265 : Bool
  pub wrote_psi : Bool
  pub cc_pat : ℕ
  pub cc_pmt : ℕ
  pub cc_v : ℕ
  pub cc_a : ℕ

abbrev pub ts_mux_new : Bool → TsMux
ts_mux_new h265 = record {
  buf = [];
  h265 = h265;
  wrote_psi = false;
  cc_pat = 0;
  cc_pmt = 0;
  cc_v = 0;
  cc_a = 0;
}

abbrev pub pid_pmt : ℕ
pid_pmt = 4096

abbrev pub pid_video : ℕ
pid_video = 256

abbrev pub pid_audio : ℕ
pid_audio = 257

-- The eight rounds for one byte, and the bytes; 79764919 is 0x04C11DB7.
unfoldable pub crc_rounds : ℕ → ℕ → ℕ
crc_rounds zero c = c
crc_rounds (suc n) c =
    crc_rounds n (if leb 2147483648 c then bit_xor (u32 (c * 2)) 79764919 else u32 (c * 2))

unfoldable pub crc_bytes : List ℕ → ℕ → ℕ
unfolding crc_rounds
crc_bytes [] c = c
crc_bytes (d ∷ ds) c = crc_bytes ds (crc_rounds 8 (bit_xor c (d * 16777216)))

unfoldable pub crc32_mpeg : List ℕ → ℕ
unfolding crc_bytes
crc32_mpeg ds = crc_bytes ds 4294967295

-- The section with its checksum, the highest byte first.
abbrev pub sealed : List ℕ → List ℕ
sealed s =
    let crc = crc32_mpeg s in
    s ++ (crc / 16777216 % 256 ∷ crc / 65536 % 256 ∷ crc / 256 % 256 ∷ crc % 256 ∷ [])

-- The four bytes of a packet's header: `control` is 16 for a payload alone, 48 with an adaptation field.
abbrev pub ts_header : ℕ → Bool → ℕ → ℕ → List ℕ
ts_header pid start control cc =
    71 ∷ ((if start then 64 else 0) + pid / 256 % 32) ∷ pid % 256 ∷ (control + cc % 16) ∷ []

-- What is not written of a packet is 0xFF.
abbrev pub fill : List ℕ → Packet
fill bytes = bytes ++ replicate (188 - length bytes) 255

abbrev pub next_cc : ℕ → ℕ
next_cc cc = (cc + 1) % 16

unfoldable pub psi_packet : ℕ → ℕ → List ℕ → Packet
psi_packet pid cc section = fill (ts_header pid true 16 cc ++ (0 ∷ section))

unfoldable pub pat_section : List ℕ
unfolding crc32_mpeg
pat_section = sealed (0 ∷ 176 ∷ 13 ∷ 0 ∷ 1 ∷ 193 ∷ 0 ∷ 0 ∷ 0 ∷ 1 ∷ 240 ∷ 0 ∷ [])

unfoldable pub pmt_section : Bool → List ℕ
unfolding crc32_mpeg
pmt_section h265 = sealed (
    2
    ∷ 176
    ∷ 23
    ∷ 0
    ∷ 1
    ∷ 193
    ∷ 0
    ∷ 0
    ∷ 225
    ∷ 0
    ∷ 240
    ∷ 0
    ∷ (if h265 then 36 else 27)
    ∷ 225
    ∷ 0
    ∷ 240
    ∷ 0
    ∷ 15
    ∷ 225
    ∷ 1
    ∷ 240
    ∷ 0
    ∷ [])

unfoldable pub ensure_psi : TsMux → TsMux
unfolding psi_packet pat_section pmt_section
ensure_psi m = if m.wrote_psi then m else record m {
  buf =
      m.buf
      ++ (psi_packet 0 m.cc_pat pat_section
          ∷ psi_packet pid_pmt m.cc_pmt (pmt_section m.h265)
          ∷ []);
  wrote_psi = true;
  cc_pat = next_cc m.cc_pat;
  cc_pmt = next_cc m.cc_pmt;
}

-- The header of an elementary stream packet; the length of a video packet is left open.
unfoldable pub pes_header : Bool → ℕ → ℕ → List ℕ
pes_header video eslen p =
    let len = if video then 0 else eslen + 8 in
    0
    ∷ 0
    ∷ 1
    ∷ (if video then 224 else 192)
    ∷ len / 256 % 256
    ∷ len % 256
    ∷ 128
    ∷ 128
    ∷ 5
    ∷ (33 + p / 1073741824 % 8 * 2)
    ∷ p / 4194304 % 256
    ∷ (1 + p / 32768 % 128 * 2)
    ∷ p / 128 % 256
    ∷ (1 + p % 128 * 2)
    ∷ []

-- The adaptation field of a key frame: random access and the clock, which is the time stamp.
abbrev pub pcr_field : ℕ → List ℕ
pcr_field pcr =
    7
    ∷ 80
    ∷ pcr / 33554432 % 256
    ∷ pcr / 131072 % 256
    ∷ pcr / 512 % 256
    ∷ pcr / 2 % 256
    ∷ (pcr % 2 * 128 + 126)
    ∷ 0
    ∷ []

-- An adaptation field of `n` bytes that only takes room.
abbrev pub stuffing : ℕ → List ℕ
stuffing zero = []
stuffing (suc zero) = 0 ∷ []
stuffing (suc (suc n)) = suc n ∷ 0 ∷ replicate n 255

-- What one packet holds of the rest of the two parts: how many bytes are left, and the room.
abbrev pub left_of : List ℕ → List ℕ → ℕ
left_of a b = length a + length b

abbrev pub space : Bool → ℕ
space adapt = if adapt then 176 else 184

abbrev pub is_stuffed : Bool → ℕ → Bool
is_stuffed adapt remain = ltb remain (space adapt) && not adapt

abbrev pub room : Bool → ℕ → ℕ
room adapt remain = if is_stuffed adapt remain then remain else space adapt

abbrev pub control : Bool → ℕ → ℕ
control adapt remain = if adapt then 48 else if is_stuffed adapt remain then 48 else 16

abbrev pub field : Bool → ℕ → ℕ → List ℕ
field adapt pts remain =
    if adapt then pcr_field pts else if is_stuffed adapt remain then stuffing (184 - remain) else []

-- The bytes of a part that go into `n` bytes, and then those of the other part.
abbrev pub filled : ℕ → List ℕ → List ℕ → List ℕ
filled n a b = take n a ++ take (n - length (take n a)) b

unfoldable pub pes_packet : ℕ → Bool → Bool → ℕ → ℕ → List ℕ → List ℕ → Packet
pes_packet pid first adapt cc pts a b =
    let remain = left_of a b in
    fill (
      ts_header pid first (control adapt remain) cc
      ++ (field adapt pts remain ++ filled (room adapt remain) a b))

-- The loop: `rai` asks for the clock in the first packet. The result is the packets and the counter.
unfoldable pub pes_loop : ℕ → ℕ → Bool → Bool → ℕ → ℕ → List ℕ → List ℕ → Option (List Packet × ℕ)
pes_loop zero pid first rai cc pts a b = if left_of a b == 0 then some ([], cc) else none
pes_loop (suc n) pid first rai cc pts a b =
    let adapt = first && rai in
    let r = room adapt (left_of a b) in
    let rest =
      pes_loop n pid false rai (next_cc cc) pts (drop r a) (drop (r - length (take r a)) b) in
    if left_of a b == 0 then some ([], cc) else (elim rest [
      | none ↦ none
      | some (ps, cc') ↦ some (pes_packet pid first adapt cc pts a b ∷ ps, cc')
    ])

-- Fuel is the number of bytes.
unfoldable pub emit_pes : ℕ → Bool → ℕ → List ℕ → ℕ → Bool → Option (List Packet × ℕ)
unfolding pes_loop pes_header
emit_pes pid video cc es pts rai =
    let pes = pes_header video (length es) pts in
    pes_loop (left_of pes es) pid true (rai && video) cc pts pes es

-- The result is -1 or 0 with the muxer; none is for fuel that is used up.
unfoldable pub write_video : TsMux → List ℕ → ℕ → Bool → Option (Bool × TsMux)
unfolding ensure_psi emit_pes
write_video m es pts is_key =
    let m' = ensure_psi m in
    if length es == 0
    then some (false, m)
    else (elim (emit_pes pid_video true m'.cc_v es pts is_key) [
      | none ↦ none
      | some (ps, cc) ↦ some (true, record m' { buf = m'.buf ++ ps; cc_v = cc })
    ])

unfoldable pub write_audio : TsMux → List ℕ → ℕ → Option (Bool × TsMux)
unfolding ensure_psi emit_pes
write_audio m es pts =
    let m' = ensure_psi m in
    if length es == 0
    then some (false, m)
    else (elim (emit_pes pid_audio false m'.cc_a es pts false) [
      | none ↦ none
      | some (ps, cc) ↦ some (true, record m' { buf = m'.buf ++ ps; cc_a = cc })
    ])

abbrev pub ts_mux_reset : TsMux → TsMux
ts_mux_reset m = record m { buf = []; wrote_psi = false }
