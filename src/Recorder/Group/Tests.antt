-- ===== src/Recorder/Group/Tests.antt =====
-- A segment of two frames on the first of two disks and one without a frame on the other, played by
-- one player.
use nt.Prelude.{
  ap, get_elem?, ℕ, ◌<◌, List, [], ◌∷◌, ◌++◌, ◌≡◌, refl, sym, subst, some, true, false, map, arith,
  length,
}
use nt.Prelude.Bytes.{decode, from_le, pread}
use nt.Recorder.Index.{index_write, find_back, scan_back, is_live, rd_slot, append_slot, wr_slot}
use nt.Recorder.Layout.{seal_sb}
use nt.Recorder.Types.{Slot, FrameHdr, slot_of}
use nt.Recorder.Device.{flush, Dev}
use nt.Recorder.Writer.{write_frame, roll_over, put_frame, mark_open, fill_slot, rec_close}
use nt.Recorder.Writer.Frames.{write_many}
use nt.Recorder.Player.{play_open, next_frame, read_hdr}
use nt.Recorder.Player.RoundTrip.{play_all, expected}
use nt.Recorder.Player.Played.{play-rec}
use nt.Recorder.Group.{Group}
use nt.Recorder.Group.Play.{GroupPlayer, group_play_open, is_fine}
use nt.Recorder.Group.Played.{
  refuses, PlaysOn, none_left, segment, play_all-Plays, group_play-PlaysOn,
}
use nt.Recorder.Tests.{dev0, writer0, frame0, frame0-IsFrame, aes0-bytes, writer0-IsReady}

abbrev recorded0 : Dev
recorded0 = (rec_close (write_many writer0 (frame0 ∷ frame0 ∷ [])).1).1

abbrev slot0 : Slot
slot0 = fill_slot (write_many writer0 (frame0 ∷ frame0 ∷ [])).1 true

abbrev frames0 : List (FrameHdr × List ℕ)
frames0 = play_all 3 (play_open recorded0 slot0)

-- A segment where nothing stands.
abbrev slot1 : Slot
slot1 = record (slot_of []) { start_disk = 1 }

abbrev group0 : Group
group0 = record { devs = recorded0 ∷ dev0 ∷ []; rr = 0 }

frames0-short : length frames0 < 3
unfolding expected
frames0-short =
    subst (λ xs. length xs < 3)
      (sym
        (play-rec writer0 (frame0 ∷ frame0 ∷ []) writer0-IsReady refl refl refl refl (omega arith)
          aes0-bytes (frame0-IsFrame, (frame0-IsFrame, tt)) (omega arith) (omega arith)).2)
      (omega arith)

slot1-bad : is_fine (next_frame (play_open dev0 slot1)).0 ≡ false
unfolding next_frame play_open read_hdr decode from_le pread
slot1-bad = refl

slot0-disk : slot0.start_disk ≡ 0
unfolding fill_slot write_many write_frame roll_over put_frame mark_open index_write find_back
    scan_back is_live rd_slot decode from_le pread flush seal_sb append_slot wr_slot
slot0-disk = refl

group_play-PlaysOn_example :
    (p : GroupPlayer) × (group_play_open 0 group0 (slot0 ∷ slot1 ∷ []) ≡ some (some p))
    × PlaysOn 0 p (map (λ (x : FrameHdr × List ℕ). (x.0, x.1, slot0.start_disk)) frames0 ++ [])
group_play-PlaysOn_example =
    group_play-PlaysOn 0 group0 slot0 recorded0 frames0 (slot1 ∷ []) _
      (ap (λ i. get_elem? group0.devs i) slot0-disk)
      (play_all-Plays 3 (play_open recorded0 slot0) frames0-short)
      (segment slot1 dev0 [] [] [] refl (refuses (play_open dev0 slot1) slot1-bad) none_left)
