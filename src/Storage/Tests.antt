-- ===== src/Storage/Tests.antt =====
-- A table of two disks, and each theorem of the storage manager at it.
use nt.Prelude.{◌+◌, ◌≤◌, [], ◌∷◌, true, false, some}
use nt.Storage.{DiskInfo, Health, Storage, active, TickInput}
use nt.Storage.Failures.{told, alive_from, ticks, ticks-told_once}

abbrev health0 : Health
health0 = record { ok = true; read_only = false; reallocated = 0; pending = 0 }

abbrev disk0 : DiskInfo
disk0 = record { path = 47 ∷ 97 ∷ []; state = active; group_disk_index = 0; health = health0 }

abbrev disk1 : DiskInfo
disk1 = record { path = 47 ∷ 98 ∷ []; state = active; group_disk_index = 1; health = health0 }

abbrev storage0 : Storage
storage0 = record { disks = disk0 ∷ disk1 ∷ []; events = [] }

-- Every disk is marked read-only.
abbrev tick0 : TickInput
tick0 = record { messages = []; marks = λ path. some 1; group = [] }

ticks-told_once_example :
    (told 1 (ticks (tick0 ∷ tick0 ∷ []) storage0).events
        + alive_from 0 1 (ticks (tick0 ∷ tick0 ∷ []) storage0).disks
      ≤ told 1 storage0.events + alive_from 0 1 storage0.disks)
    × (alive_from 0 1 storage0.disks ≤ 1)
ticks-told_once_example = ticks-told_once 1 (tick0 ∷ tick0 ∷ []) storage0
