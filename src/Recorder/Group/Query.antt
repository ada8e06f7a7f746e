-- ===== src/Recorder/Group/Query.antt =====
-- components/recorder/src/rsdk_balance.c: a query of the group against the slots of all its disks.
use mathlib.Core.List.{Perm}
use mathlib.Core.List.Perm
use nt.Prelude.{
  ℕ, zero, suc, ◌-◌, ◌≡◌, refl, arith, List, [], ◌∷◌, ◌++◌, false, ◌==◌, length, map, take,
}
use nt.Prelude.Int.{ℤ}
use nt.Recorder.Types.{Slot}
use nt.Recorder.Device.{Dev}
use nt.Recorder.Index.{selects, last_time}
use nt.Recorder.Index.Sort.{IsSorted, sort_by_start-sorts}
use nt.Recorder.Index.Query.{all_slots, select, index_query_lem, length-index_query}
use nt.Recorder.Group.{Group, tag, gather, group_query}

-- The slots of the disks that pass the tests of the query, disk by disk and in index order, as
-- many as there is room for, each with the place of its disk.
unfoldable pub of_disks : ℕ → ℕ → ℤ → ℤ → List Dev → ℕ → ℕ → List Slot
of_disks t0 t1 chn rectype [] i room = []
of_disks t0 t1 chn rectype (d ∷ ds) i room =
    let here = take room (select (selects t0 (last_time t1) chn rectype) (all_slots d)) in
    map (tag i) here ++ of_disks t0 t1 chn rectype ds (suc i) (room - length here)

of_disks-none :
    (t0 t1 : ℕ) (chn rectype : ℤ) (ds : List Dev) (i : ℕ) → of_disks t0 t1 chn rectype ds i 0 ≡ []
unfolding of_disks
of_disks-none t0 t1 chn rectype [] i = refl
of_disks-none t0 t1 chn rectype (d ∷ ds) i = of_disks-none t0 t1 chn rectype ds (suc i)

gather-perm :
    (t0 t1 : ℕ) (chn rectype : ℤ) (ds : List Dev) (i room : ℕ)
    → Perm (gather t0 t1 chn rectype ds i room) (of_disks t0 t1 chn rectype ds i room)
unfolding gather of_disks
gather-perm t0 t1 chn rectype [] i room = Perm.refl []
gather-perm t0 t1 chn rectype (d ∷ ds) i zero =
    rw (of_disks-none t0 t1 chn rectype ds (suc i)) (Perm.refl [])
gather-perm t0 t1 chn rectype (d ∷ ds) i (suc room) =
    let here = take (suc room) (select (selects t0 (last_time t1) chn rectype) (all_slots d)) in
    let more : (suc room == 0) ≡ false = ground arith in
    rw (more, length-index_query d t0 t1 chn rectype (suc room))
      (Perm.append (Perm.map (tag i) (index_query_lem d t0 t1 chn rectype (suc room)).0)
        (gather-perm t0 t1 chn rectype ds (suc i) (suc room - length here)))

-- A query of the group returns, in the order of their start times, the slots that a walk over the
-- disks finds: of each disk in turn those that pass its tests, in index order, as long as there is
-- room, each with the place of its disk in the group.
pub group_query_lem :
    (g : Group) (t0 t1 : ℕ) (chn rectype : ℤ) (cap : ℕ)
    → Perm (group_query g t0 t1 chn rectype cap) (of_disks t0 t1 chn rectype g.devs 0 cap)
      × IsSorted (group_query g t0 t1 chn rectype cap)
unfolding group_query
group_query_lem g t0 t1 chn rectype cap =
    let (same, sorted) = sort_by_start-sorts (gather t0 t1 chn rectype g.devs 0 cap) in
    (Perm.trans same (gather-perm t0 t1 chn rectype g.devs 0 cap), sorted)
