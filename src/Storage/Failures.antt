-- ===== src/Storage/Failures.antt =====
-- components/storage/src/storage_mgr.c: how often the failure of a disk is told.
use nt.Prelude.{
  if_both, ℕ, suc, ◌+◌, ◌≤◌, ◌<◌, ◌≡◌, refl, inl, inr, arith, List, [], ◌∷◌, true, Option, none,
  some, Bool-cases, ◌==◌, ◌&&◌, not, if◌then◌else◌,
}
use nt.Prelude.Text.{Str}
use nt.Storage.{
  Health, DiskInfo, StorageEvent, disk_added, full_group, disk_removed, disk_failed, Storage,
  is_active, is_offline, take_off, remove_disk, parse_uevent, hotplug_poll, read_health, check_disk,
  check_from, TickInput, storage_tick, holds, is_text, is_whole_disk, any_wrapped, read_lines,
  text_block, text_add, text_remove,
}

-- How often the failure of disk `k` was told.
unfoldable pub told : ℕ → List StorageEvent → ℕ
told k [] = 0
told k (disk_failed i ∷ es) = (if i == k then 1 else 0) + told k es
told k (disk_added ∷ es) = told k es
told k (full_group ∷ es) = told k es
told k (disk_removed hit ∷ es) = told k es

-- 1 where disk `k` of the table, from place `i` on, is active.
unfoldable pub alive_from : ℕ → ℕ → List DiskInfo → ℕ
alive_from i k [] = 0
alive_from i k (d ∷ ds) =
    (if i == k then (if is_active d.state then 1 else 0) else 0) + alive_from (suc i) k ds

abbrev pub budget : ℕ → Storage → ℕ
budget k s = told k s.events + alive_from 0 k s.disks

take_off-alive :
    (name : Str) (i k : ℕ) (ds : List DiskInfo)
    → alive_from i k (take_off name i ds).1 ≤ alive_from i k ds
unfolding alive_from take_off
take_off-alive name i k [] = omega arith
take_off-alive name i k (d ∷ ds) =
    let rest = take_off-alive name (suc i) k ds in
    elim (Bool-cases (holds name d.path)) [
      | inl e ↦ rw (e) (ground arith)
      | inr e ↦ rw (e) (ground (arith, rest))
    ]

abbrev weight : ℕ → ℕ → DiskInfo → ℕ
weight i k d = if i == k then (if is_active d.state then 1 else 0) else 0

check_disk-budget :
    (h : Health) (i k : ℕ) (d : DiskInfo) (es : List StorageEvent)
    → told k (if (check_disk h d).0 then disk_failed i ∷ es else es) + weight i k (check_disk h d).1
      ≤ told k es + weight i k d
unfolding check_disk told
check_disk-budget h i k d es = elim (Bool-cases (is_offline d.state)) [
  | inl e ↦ rw (e) (ground arith)
  | inr e ↦ elim (Bool-cases (d.health.ok && (not h.ok && is_active d.state))) [
    | inl f ↦ let on : is_active d.state ≡ true = ground (arith, f) in rw (e, f, on) (ground arith)
    | inr f ↦ rw (e, f) (ground arith)
  ]
]

check_from-budget :
    (ro : Str → Option ℕ) (i k : ℕ) (ds : List DiskInfo) (es : List StorageEvent)
    → told k (check_from ro i ds es).1 + alive_from i k (check_from ro i ds es).0
      ≤ told k es + alive_from i k ds
unfolding alive_from check_from told
check_from-budget ro i k [] es = omega arith
check_from-budget ro i k (d ∷ ds) es =
    let h = read_health (ro d.path) in
    let (fails, d') = check_disk h d in
    let es' = if fails then disk_failed i ∷ es else es in
    let one = check_disk-budget h i k d es in
    let rest = check_from-budget ro (suc i) k ds es' in omega (arith, one, rest)

abbrev Within : ℕ → Storage → Storage → Type 0
Within k s s' = budget k s' ≤ budget k s

remove_disk-budget :
    (k : ℕ) (devname : Option Str) (s : Storage) → Within k s (remove_disk devname s)
unfolding remove_disk told
remove_disk-budget k none s = omega arith
remove_disk-budget k (some name) s = omega (arith, take_off-alive name 0 k s.disks)

parse_uevent-budget :
    (k : ℕ) (lines : List Str) (s : Storage) → budget k (parse_uevent lines s) ≤ budget k s
unfolding parse_uevent told
parse_uevent-budget k lines s =
    let u =
      read_lines lines
        (record { action = none; devname = none; subsystem = none; devtype = none }) in
    if_both (Within k s) (is_text text_block u.subsystem && is_whole_disk u.devtype)
      (if_both (Within k s) (is_text text_add u.action) (omega arith) (
        if_both (Within k s) (is_text text_remove u.action) (remove_disk-budget k u.devname s)
          (omega arith)))
      (omega arith)

hotplug_poll-budget :
    (k : ℕ) (msgs : List (List Str)) (s : Storage) → budget k (hotplug_poll msgs s) ≤ budget k s
unfolding hotplug_poll
hotplug_poll-budget k [] s = omega arith
hotplug_poll-budget k (msg ∷ msgs) s =
    let one = parse_uevent-budget k msg s in
    let rest = hotplug_poll-budget k msgs (parse_uevent msg s) in omega (arith, one, rest)

storage_tick-budget :
    (k : ℕ) (t : TickInput) (s : Storage) → budget k (storage_tick t s) ≤ budget k s
unfolding storage_tick told
storage_tick-budget k t s =
    let polled = hotplug_poll t.messages s in
    let one = hotplug_poll-budget k t.messages s in
    let rest = check_from-budget t.marks 0 k polled.disks polled.events in
    elim (Bool-cases (any_wrapped t.group)) [
      | inl e ↦ rw (e) (omega (arith, one, rest))
      | inr e ↦ rw (e) (omega (arith, one, rest))
    ]

unfoldable pub ticks : List TickInput → Storage → Storage
ticks [] s = s
ticks (t ∷ ts) s = ticks ts (storage_tick t s)

ticks-budget : (k : ℕ) (ts : List TickInput) (s : Storage) → budget k (ticks ts s) ≤ budget k s
unfolding ticks
ticks-budget k [] s = omega arith
ticks-budget k (t ∷ ts) s =
    let one = storage_tick-budget k t s in
    let rest = ticks-budget k ts (storage_tick t s) in omega (arith, one, rest)

alive_from-bound :
    (i k : ℕ) (ds : List DiskInfo) → (k < i → alive_from i k ds ≡ 0) × (alive_from i k ds ≤ 1)
unfolding alive_from
alive_from-bound i k [] = (λ lt. refl, omega arith)
alive_from-bound i k (d ∷ ds) =
    let (none_more, one) = alive_from-bound (suc i) k ds in
    elim (Bool-cases (i == k)) [
      | inl e ↦
          let rest = none_more (ground (arith, e)) in
          (λ lt. absurd (ground (arith, lt, e)), ground (arith, rest))
      | inr e ↦ (λ lt. ground (arith, e, none_more (omega arith)), ground (arith, e, one))
    ]

-- Over any ticks, whatever the kernel says: the failure of a disk of the table is told at most once
-- more than before, and not at all where the disk is not active at the start; after it was told the
-- disk is no longer active.
pub ticks-told_once :
    (k : ℕ) (ts : List TickInput) (s : Storage)
    → (told k (ticks ts s).events + alive_from 0 k (ticks ts s).disks
        ≤ told k s.events + alive_from 0 k s.disks)
      × (alive_from 0 k s.disks ≤ 1)
ticks-told_once k ts s = (ticks-budget k ts s, (alive_from-bound 0 k s.disks).1)
