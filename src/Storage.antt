-- ===== src/Storage.antt =====
-- components/storage/src: storage_mgr.c, storage_health.c and the hotplug events of storage_hotplug.c. The
-- kernel's messages, as their lines, and what sysfs says are inputs; an event is an entry of a list,
-- newest first, and names the disk by its place in the table.
pub mod Failures
mod Tests
use nt.Prelude.{
  ℕ, zero, suc, ◌+◌, List, [], ◌∷◌, ◌++◌, Bool, true, false, Option, none, some, ltb, ◌==◌, ◌&&◌,
  ◌||◌, not, if◌then◌else◌,
}
use nt.Prelude.Text.{Str, str_eq}
use nt.Recorder.Device.{Dev, is_wrapped}

-- NVR_DISK_UNKNOWN and so on.
pub data DiskState : Type 0 where
  unknown blank foreign ours ours_other active failed offline : DiskState

pub record Health : Type 0 where
  pub ok : Bool
  pub read_only : Bool
  pub reallocated : ℕ
  pub pending : ℕ

pub record DiskInfo : Type 0 where
  pub path : Str
  pub state : DiskState
  pub group_disk_index : ℕ
  pub health : Health

pub data StorageEvent : Type 0 where
  disk_added full_group : StorageEvent
  disk_removed : Option ℕ → StorageEvent
  disk_failed : ℕ → StorageEvent

pub record Storage : Type 0 where
  pub disks : List DiskInfo
  pub events : List StorageEvent

abbrev pub is_active : DiskState → Bool
is_active active = true
is_active unknown = false
is_active blank = false
is_active foreign = false
is_active ours = false
is_active ours_other = false
is_active failed = false
is_active offline = false

abbrev pub is_offline : DiskState → Bool
is_offline offline = true
is_offline unknown = false
is_offline blank = false
is_offline foreign = false
is_offline ours = false
is_offline ours_other = false
is_offline active = false
is_offline failed = false

abbrev pub emit : StorageEvent → Storage → Storage
emit e s = record s { events = e ∷ s.events }

-- What follows a prefix, where the text begins with it.
unfoldable pub strip : Str → Str → Option Str
strip [] s = some s
strip (p ∷ ps) [] = none
strip (p ∷ ps) (c ∷ s) = let rest = strip ps s in if p == c then rest else none

-- strstr: whether the second text holds the first.
unfoldable pub holds : Str → Str → Bool
unfolding strip
holds p [] = str_eq p []
holds p (c ∷ s) = elim (strip p (c ∷ s)) [ some rest ↦ true | none ↦ holds p s ]

pub record Uevent : Type 0 where
  pub action : Option Str
  pub devname : Option Str
  pub subsystem : Option Str
  pub devtype : Option Str

abbrev pub key_action : Str
key_action = b'A' ∷ b'C' ∷ b'T' ∷ b'I' ∷ b'O' ∷ b'N' ∷ b'=' ∷ []

abbrev pub key_devname : Str
key_devname = b'D' ∷ b'E' ∷ b'V' ∷ b'N' ∷ b'A' ∷ b'M' ∷ b'E' ∷ b'=' ∷ []

abbrev pub key_subsystem : Str
key_subsystem = b'S' ∷ b'U' ∷ b'B' ∷ b'S' ∷ b'Y' ∷ b'S' ∷ b'T' ∷ b'E' ∷ b'M' ∷ b'=' ∷ []

abbrev pub key_devtype : Str
key_devtype = b'D' ∷ b'E' ∷ b'V' ∷ b'T' ∷ b'Y' ∷ b'P' ∷ b'E' ∷ b'=' ∷ []

unfoldable pub read_line : Str → Uevent → Uevent
unfolding strip
read_line line u = elim (strip key_action line) [
  | some v ↦ record u { action = some v }
  | none ↦ elim (strip key_devname line) [
    | some v ↦ record u { devname = some v }
    | none ↦ elim (strip key_subsystem line) [
      | some v ↦ record u { subsystem = some v }
      | none ↦ elim (strip key_devtype line) [ some v ↦ record u { devtype = some v } | none ↦ u ]
    ]
  ]
]

unfoldable pub read_lines : List Str → Uevent → Uevent
unfolding read_line
read_lines [] u = u
read_lines (line ∷ lines) u = read_lines lines (read_line line u)

-- The first disk whose path holds the name goes offline; the table from place `i` on.
unfoldable pub take_off : Str → ℕ → List DiskInfo → Option ℕ × List DiskInfo
unfolding holds
take_off name i [] = (none, [])
take_off name i (d ∷ ds) =
    let (hit, ds') = take_off name (suc i) ds in
    if holds name d.path then (some i, record d { state = offline } ∷ ds) else (hit, d ∷ ds')

abbrev pub is_text : Str → Option Str → Bool
is_text t none = false
is_text t (some s) = str_eq s t

-- "block", "disk", "add" and "remove".
abbrev pub text_block : Str
text_block = b'b' ∷ b'l' ∷ b'o' ∷ b'c' ∷ b'k' ∷ []

abbrev pub text_disk : Str
text_disk = b'd' ∷ b'i' ∷ b's' ∷ b'k' ∷ []

abbrev pub text_add : Str
text_add = b'a' ∷ b'd' ∷ b'd' ∷ []

abbrev pub text_remove : Str
text_remove = b'r' ∷ b'e' ∷ b'm' ∷ b'o' ∷ b'v' ∷ b'e' ∷ []

abbrev pub is_whole_disk : Option Str → Bool
is_whole_disk none = true
is_whole_disk (some t) = str_eq t text_disk

unfoldable pub remove_disk : Option Str → Storage → Storage
unfolding take_off
remove_disk none s = emit (disk_removed none) s
remove_disk (some name) s =
    let (hit, ds) = take_off name 0 s.disks in emit (disk_removed hit) (record s { disks = ds })

unfoldable pub parse_uevent : List Str → Storage → Storage
unfolding read_lines remove_disk
parse_uevent lines s =
    let u =
      read_lines lines
        (record { action = none; devname = none; subsystem = none; devtype = none }) in
    if is_text text_block u.subsystem && is_whole_disk u.devtype
    then (if is_text text_add u.action
        then emit disk_added s
        else if is_text text_remove u.action
        then remove_disk u.devname s
        else s)
    else s

-- The messages that wait.
unfoldable pub hotplug_poll : List (List Str) → Storage → Storage
unfolding parse_uevent
hotplug_poll [] s = s
hotplug_poll (msg ∷ msgs) s = hotplug_poll msgs (parse_uevent msg s)

-- `ro` is the kernel's mark, where it can be read; the other values are not collected yet.
unfoldable pub read_health : Option ℕ → Health
read_health ro =
    let read_only : Bool = elim ro [ none ↦ false | some v ↦ not (v == 0) ] in
    record {
      ok = not read_only && (ltb 0 64 && 0 == 0);
      read_only = read_only;
      reallocated = 0;
      pending = 0;
    }

-- One disk of the walk, and whether its failure is told.
unfoldable pub check_disk : Health → DiskInfo → Bool × DiskInfo
check_disk h d =
    let fails = d.health.ok && (not h.ok && is_active d.state) in
    if is_offline d.state
    then (false, d)
    else (fails, record d { health = h; state = if fails then failed else d.state })

unfoldable pub check_from :
    (Str → Option ℕ) → ℕ → List DiskInfo → List StorageEvent → List DiskInfo × List StorageEvent
unfolding check_disk read_health
check_from ro i [] es = ([], es)
check_from ro i (d ∷ ds) es =
    let (fails, d') = check_disk (read_health (ro d.path)) d in
    let (ds', es') = check_from ro (suc i) ds (if fails then disk_failed i ∷ es else es) in
    (d' ∷ ds', es')

-- The full group is told where one of its disks was written all round.
unfoldable pub any_wrapped : List Dev → Bool
unfolding is_wrapped
any_wrapped [] = false
any_wrapped (d ∷ ds) = is_wrapped d || any_wrapped ds

-- What one tick finds: the messages, the marks and the group, which is empty where there is none.
pub record TickInput : Type 0 where
  pub messages : List (List Str)
  pub marks : Str → Option ℕ
  pub group : List Dev

unfoldable pub storage_tick : TickInput → Storage → Storage
unfolding hotplug_poll check_from any_wrapped
storage_tick t s =
    let s1 = hotplug_poll t.messages s in
    let (ds, es) = check_from t.marks 0 s1.disks s1.events in
    let s2 : Storage = record { disks = ds; events = es } in
    if any_wrapped t.group then emit full_group s2 else s2

-- The first disk of the table with the place in the group.
unfoldable pub disk_healthy : List DiskInfo → ℕ → Bool
disk_healthy [] i = false
disk_healthy (d ∷ ds) i =
    let rest = disk_healthy ds i in
    if d.group_disk_index == i then d.health.ok && is_active d.state else rest
