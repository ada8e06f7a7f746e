-- ===== src/Nop/Chime.antt =====
-- components/nop/src/services/svc_chime.c: the paired chimes and the pairing window.
-- The slots are a list of the capacity's length; `now` is osal_time_ms.
pub mod Counted
use nt.Prelude.{
  ℕ, zero, suc, ◌+◌, ◌-◌, ◌*◌, ◌/◌, List, [], ◌∷◌, Bool, true, false, Option, none, some, ltb, leb,
  ◌==◌, ◌&&◌, if◌then◌else◌, replicate, set, length,
}
use nt.Prelude.Text.{Str, str_eq}
use nt.Prelude.Int.{ℤ, pos, negsuc}

-- C strings of at most 31 bytes.
abbrev pub ChimeId : Type 0
ChimeId = Str

pub record ChimeEntry : Type 0 where
  pub id : ChimeId
  pub name : List ℕ
  pub volume : ℕ
  pub tone_id : ℕ

pub data PairState : Type 0 where
  pair_idle pairing pair_done : PairState

pub data ChimeStatus : Type 0 where
  chime_ok chime_state chime_notfound : ChimeStatus

-- A slot in use has an entry.
pub record Chime : Type 0 where
  pub slots : List (Option ChimeEntry)
  pub count : ℕ
  pub state : PairState
  pub added_count : ℕ
  pub window_start_ms : ℕ
  pub window_ms : ℕ

unfoldable pub chime_create : ℤ → Option Chime
chime_create (pos (suc n)) = some (record {
  slots = replicate (suc n) none;
  count = 0;
  state = pair_idle;
  added_count = 0;
  window_start_ms = 0;
  window_ms = 0;
})
chime_create (pos zero) = none
chime_create (negsuc n) = none

abbrev pub has_id : Option ChimeEntry → ChimeId → Bool
has_id none id = false
has_id (some e) id = str_eq e.id id

-- The first slot, counted from `i`, with the id.
unfoldable pub find_from : List (Option ChimeEntry) → ChimeId → ℕ → Option ℕ
find_from [] id i = none
find_from (s ∷ ss) id i = if has_id s id then some i else find_from ss id (i + 1)

abbrev pub no_id : ChimeId → Bool
no_id [] = true
no_id (b ∷ id) = false

unfoldable pub chime_find : Chime → ChimeId → Option ℕ
unfolding find_from
chime_find c id = if no_id id then none else find_from c.slots id 0

unfoldable pub chime_refresh : Chime → ℕ → Chime
chime_refresh c now = elim c.state [
  | pairing ↦
      if leb c.window_start_ms now && leb c.window_ms (now - c.window_start_ms)
      then record c { state = pair_done }
      else c
  | pair_idle ↦ c
  | pair_done ↦ c
]

abbrev pub seconds_or : ℤ → ℕ
seconds_or (pos zero) = 60
seconds_or (pos (suc n)) = suc n
seconds_or (negsuc n) = 60

-- The clock is read twice: at the refresh and at the start of the window.
unfoldable pub pair_start : Chime → ℕ → ℕ → ℤ → ChimeStatus × Chime
unfolding chime_refresh
pair_start c now start seconds =
    let c1 = chime_refresh c now in
    let opened : Chime = record c1 {
      state = pairing;
      added_count = 0;
      window_start_ms = start;
      window_ms = seconds_or seconds * 1000;
    } in
    elim c1.state [
      | pairing ↦ (chime_state, c1)
      | pair_idle ↦ (chime_ok, opened)
      | pair_done ↦ (chime_ok, opened)
    ]

unfoldable pub pair_stop : Chime → Chime
pair_stop c = record c { state = pair_idle }

-- The state, the chimes added, the seconds left, and the chimes refreshed.
unfoldable pub pair_status : Chime → ℕ → (PairState × ℕ × ℕ) × Chime
unfolding chime_refresh
pair_status c now =
    let c1 = chime_refresh c now in
    let elapsed = now - c1.window_start_ms in
    let left = if ltb elapsed c1.window_ms then c1.window_ms - elapsed else 0 in
    let secs : ℕ = elim c1.state [ pairing ↦ left / 1000 | pair_idle ↦ 0 | pair_done ↦ 0 ] in
    ((c1.state, c1.added_count, secs), c1)

-- The first slot that is not in use, counted from `i`.
unfoldable pub free_from : List (Option ChimeEntry) → ℕ → Option ℕ
free_from [] i = none
free_from (none ∷ ss) i = some i
free_from (some e ∷ ss) i = free_from ss (i + 1)

abbrev pub put_chime : Chime → ℕ → Option ChimeEntry → Chime
put_chime c i e = record c { slots = set c.slots i e }

-- An entry that is found while the window is open: the slot that it is in, or none.
unfoldable pub admit : Chime → ChimeEntry → Option ℕ × Chime
unfolding chime_find free_from
admit c e = elim (chime_find c e.id) [
  | some i ↦ (some i, put_chime c i (some e))
  | none ↦ elim (free_from c.slots 0) [
    | none ↦ (none, c)
    | some i ↦ (
      some i,
      record (put_chime c i (some e)) { count = c.count + 1; added_count = c.added_count + 1 },
    )
  ]
]

unfoldable pub chime_offer : Chime → ℕ → ChimeEntry → Option ℕ × Chime
unfolding chime_refresh admit
chime_offer c now e =
    let c1 = chime_refresh c now in
    if no_id e.id
    then (none, c)
    else (elim c1.state [ pairing ↦ admit c1 e | pair_idle ↦ (none, c1) | pair_done ↦ (none, c1) ])

unfoldable pub chimes_from : List (Option ChimeEntry) → ℕ → List ChimeEntry
chimes_from [] max = []
chimes_from (s ∷ ss) zero = []
chimes_from (none ∷ ss) (suc max) = chimes_from ss (suc max)
chimes_from (some e ∷ ss) (suc max) = e ∷ chimes_from ss max

unfoldable pub chime_list : Chime → ℤ → List ChimeEntry
unfolding chimes_from
chime_list c (pos max) = chimes_from c.slots max
chime_list c (negsuc n) = []

abbrev pub retune : Option ChimeEntry → ℕ → ℕ → Option ChimeEntry
retune none volume tone = none
retune (some e) volume tone = some (record e { volume = volume; tone_id = tone })

abbrev pub slot_at : List (Option ChimeEntry) → ℕ → Option ChimeEntry
slot_at [] i = none
slot_at (s ∷ ss) zero = s
slot_at (s ∷ ss) (suc i) = slot_at ss i

unfoldable pub chime_set : Chime → ChimeId → ℕ → ℕ → ChimeStatus × Chime
chime_set c id volume tone = elim (chime_find c id) [
  | none ↦ (chime_notfound, c)
  | some i ↦ (chime_ok, put_chime c i (retune (slot_at c.slots i) volume tone))
]

unfoldable pub chime_remove : Chime → ChimeId → ChimeStatus × Chime
chime_remove c id = elim (chime_find c id) [
  | none ↦ (chime_notfound, c)
  | some i ↦ (chime_ok, record (put_chime c i none) { count = c.count - 1 })
]
