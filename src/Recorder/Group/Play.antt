-- ===== src/Recorder/Group/Play.antt =====
-- components/recorder/src/rsdk_balance.c: the player of segments on several disks.
use nt.Prelude.{
  ℕ, zero, suc, ◌+◌, List, [], ◌∷◌, Bool, true, false, Option, none, some, leb, if◌then◌else◌,
  get_elem?,
}
use nt.Recorder.Types.{Err, ok, Slot, FrameHdr}
use nt.Recorder.Player.{Player, play_open, seek_pts, next_frame}
use nt.Recorder.Group.{Group, group_dev}

pub record GroupPlayer : Type 0 where
  pub g : Group
  pub segs : List Slot
  pub cur : ℕ
  pub pl : Option Player
  pub pts : ℕ
  pub seek_pending : Bool

-- The player of the segment, in which the seek that waits is done; `none` where its fuel ran out.
unfoldable pub place : ℕ → GroupPlayer → Player → Option (Bool × GroupPlayer)
unfolding seek_pts
place fuel p pl =
    if p.seek_pending
    then (elim (seek_pts fuel pl p.pts) [
      | none ↦ none
      | some pl' ↦ some (true, record p { pl = some pl'; seek_pending = false })
    ])
    else some (true, record p { pl = some pl })

-- The segment at the current place: false where there is none, or its disk is not there.
unfoldable pub open_cur : ℕ → GroupPlayer → Option (Bool × GroupPlayer)
unfolding place
open_cur fuel p = elim (get_elem? p.segs p.cur) [
  | none ↦ some (false, record p { pl = none })
  | some s ↦ elim (group_dev p.g s.start_disk) [
    | none ↦ some (false, record p { pl = none })
    | some d ↦ place fuel p (play_open d s)
  ]
]

abbrev pub at_start : Group → List Slot → GroupPlayer
at_start g segs = record { g = g; segs = segs; cur = 0; pl = none; pts = 0; seek_pending = false }

-- `none` inside where it does not open.
unfoldable pub group_play_open : ℕ → Group → List Slot → Option (Option GroupPlayer)
unfolding open_cur
group_play_open fuel g segs = elim (open_cur fuel (at_start g segs)) [
  | none ↦ none
  | some (fine, p) ↦ some (if fine then some p else none)
]

abbrev pub is_fine : Err → Bool
is_fine ok = true
is_fine other = false

abbrev pub disk_at : GroupPlayer → ℕ
disk_at p = elim (get_elem? p.segs p.cur) [ none ↦ 0 | some s ↦ s.start_disk ]

-- The header, the bytes and the disk of the next frame, `none` inside where there is none any more; a
-- segment that gives no frame is left for the one behind it, `n` of them at most.
unfoldable pub group_play_next :
    ℕ → ℕ → GroupPlayer → Option (Option (FrameHdr × List ℕ × ℕ) × GroupPlayer)
unfolding open_cur
group_play_next fuel zero p = none
group_play_next fuel (suc n) p = elim p.pl [
  | none ↦ some (none, p)
  | some pl ↦
      let (e, h, bytes, pl') = next_frame pl in
      elim (is_fine e) [
        | true ↦ some (some (h, bytes, disk_at p), record p { pl = some pl' })
        | false ↦ elim (open_cur fuel (record p { pl = some pl'; cur = p.cur + 1 })) [
          | none ↦ none
          | some (fine, p') ↦ elim fine [
            | true ↦ group_play_next fuel n p'
            | false ↦ some (none, p')
          ]
        ]
      ]
]

-- The place of the last segment, from `i` on, that begins no later than the time; the search stops
-- at the first that begins later, and a segment that cannot be read does not count.
unfoldable pub seek_place : Group → List Slot → ℕ → ℕ → ℕ → ℕ
seek_place g [] pts i best = best
seek_place g (s ∷ segs) pts i best = elim (group_dev g s.start_disk) [
  | none ↦ seek_place g segs pts (i + 1) best
  | some d ↦
      let (e, h, bytes, pl) = next_frame (play_open d s) in
      elim (is_fine e) [
        | false ↦ seek_place g segs pts (i + 1) best
        | true ↦ elim (leb h.pts pts) [ true ↦ seek_place g segs pts (i + 1) i | false ↦ best ]
      ]
]

unfoldable pub group_play_seek_pts : ℕ → GroupPlayer → ℕ → Option (Bool × GroupPlayer)
unfolding seek_place open_cur
group_play_seek_pts fuel p pts =
    open_cur fuel (record p { cur = seek_place p.g p.segs pts 0 0; pts = pts; seek_pending = true })
