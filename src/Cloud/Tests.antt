-- ===== src/Cloud/Tests.antt =====
-- Access units, and each theorem of the upload at them.
use nt.Prelude.{ℕ, ◌≡◌, refl, arith, List, [], ◌∷◌, ◌++◌, true, false, some}
use nt.Cloud.TsMux.{
  Packet, TsMux, ts_mux_new, ensure_psi, write_video, pat_section, crc32_mpeg, crc_bytes,
  crc_rounds,
}
use nt.Cloud.TsMux.Units.{IsMuxed, write_video-IsMuxed}

abbrev unit0 : List ℕ
unit0 = 0 ∷ 0 ∷ 0 ∷ 1 ∷ 101 ∷ 7 ∷ []

write_video-IsMuxed_example :
    (ps : List Packet) × (m : TsMux) × (write_video (ts_mux_new true) unit0 90000 false
      ≡ some (true, m))
    × (m.buf ≡ (ensure_psi (ts_mux_new true)).buf ++ ps)
    × IsMuxed true unit0 90000 false 0 ps m.cc_v
write_video-IsMuxed_example = write_video-IsMuxed (ts_mux_new true) unit0 90000 false (omega arith)

-- The program association table of every stream with this program number.
pat_test :
    pat_section ≡ 0 ∷ 176 ∷ 13 ∷ 0 ∷ 1 ∷ 193 ∷ 0 ∷ 0 ∷ 0 ∷ 1 ∷ 240 ∷ 0 ∷ 42 ∷ 177 ∷ 4 ∷ 178 ∷ []
unfolding pat_section crc32_mpeg crc_bytes crc_rounds
pat_test = refl
