-- ===== src/Recorder/Group.antt =====
-- components/recorder/src/rsdk_balance.c: a group of disks. The loads are floating-point numbers, which
-- are the parameter `Loads`; the group player is Group/Play.
pub mod Query
pub mod Pick
pub mod Play
pub mod Played
mod Tests
use nt.Prelude.{
  ℕ, zero, suc, ◌+◌, ◌-◌, ◌%◌, List, [], ◌∷◌, ◌++◌, Bool, true, false, Option, none, some, ◌==◌,
  ltb, if◌then◌else◌, length, get_elem?, map, take, u16, u32,
}
use nt.Prelude.Int.{ℤ}
use nt.Recorder.Types.{Slot}
use nt.Recorder.Layout.{sub64}
use nt.Recorder.Device.{Dev}
use nt.Recorder.Index.{index_query, sort_by_start}

pub record Group : Type 0 where
  pub devs : List Dev
  pub rr : ℕ

-- double: a quotient of two numbers, 1.0 and 2.0, the order, and a number with EPS added.
pub record Loads (F : Type 0) : Type 0 where
  pub quotient : ℕ → ℕ → F
  pub one : F
  pub two : F
  pub less : F → F → Bool
  pub at_most : F → F → Bool
  pub add_eps : F → F

module _ {F : Type 0} (l : Loads F) where
  -- Written chunks to data chunks.
  unfoldable pub dev_load : Dev → F
  dev_load d =
      let data_chunks = sub64 d.sb.chunk_count d.sb.meta_chunk_count in
      if data_chunks == 0 then l.one else l.quotient d.sb.write_ptr_chunk data_chunks

  unfoldable pub best_load : List Dev → F → F
  unfolding dev_load
  best_load [] best = best
  best_load (d ∷ ds) best = best_load ds (if l.less (dev_load d) best then dev_load d else best)

  -- The places, from `i` on, of the disks whose load is the best, as good as; 64 at most.
  unfoldable pub candidates : F → List Dev → ℕ → List ℕ
  unfolding dev_load
  candidates best [] i = []
  candidates best (d ∷ ds) i =
      let rest = candidates best ds (suc i) in
      if l.at_most (dev_load d) (l.add_eps best) then i ∷ rest else rest

  -- `none` where there is no candidate, for which the code divides by zero.
  unfoldable pub balance_pick : Group → Option ℕ × Group
  unfolding best_load candidates
  balance_pick g =
      let cand = take 64 (candidates (best_load g.devs l.two) g.devs 0) in
      if length cand == 0
      then (none, g)
      else (get_elem? cand (g.rr % length cand), record g { rr = u32 (g.rr + 1) })

abbrev pub group_dev : Group → ℕ → Option Dev
group_dev g i = get_elem? g.devs i

abbrev pub tag : ℕ → Slot → Slot
tag i s = record s { start_disk = u16 i }

-- The slots of the disks from place `i` on, as long as there is room for more.
unfoldable pub gather : ℕ → ℕ → ℤ → ℤ → List Dev → ℕ → ℕ → List Slot
gather t0 t1 chn rectype [] i room = []
gather t0 t1 chn rectype (d ∷ ds) i room =
    let got = index_query d t0 t1 chn rectype room in
    let rest = gather t0 t1 chn rectype ds (suc i) (room - length got) in
    if room == 0 then [] else map (tag i) got ++ rest

unfoldable pub group_query : Group → ℕ → ℕ → ℤ → ℤ → ℕ → List Slot
unfolding gather
group_query g t0 t1 chn rectype cap =
    let found = gather t0 t1 chn rectype g.devs 0 cap in sort_by_start (length found) found
