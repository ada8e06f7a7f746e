-- ===== src/App/Event.antt =====
-- app/event/nvr_event.c: an event of a channel on its way to the device side's hub, to the recording
-- schedule and to the preview's icons. A type is the number of nop_detect_type_t; a hub or a schedule
-- that is not there is `none`. The calls of the icon callback are kept newest first.
use nt.Prelude.{
  ℕ, zero, suc, ◌+◌, ◌-◌, ◌/◌, List, [], ◌∷◌, Bool, true, false, Option, none, some, ltb, leb, ◌==◌,
  ◌&&◌, not, if◌then◌else◌, bit_or, u32, get_or,
}
use nt.Prelude.Int.{ℤ, pos, negsuc}
use nt.Nop.Event.{Hub, publish}
use nt.App.RecordSched.{Sched, trigger_event}

-- By the type's number: pixelChange, motion, human, vehicle, animal, package, face, pir, doorbellRing,
-- lineCross and fieldIntrusion.
unfoldable pub rectype_of : ℕ → Option ℕ
rectype_of t =
    get_or
      (some 1
        ∷ some 1
        ∷ some 2
        ∷ some 4
        ∷ some 7
        ∷ some 8
        ∷ some 3
        ∷ none
        ∷ some 9
        ∷ some 5
        ∷ some 6
        ∷ [])
      t none

-- NVR_ICON_MOTION is 1, NVR_ICON_HUMAN 2 and NVR_ICON_FACE 4.
unfoldable pub icon_of : ℕ → ℕ
icon_of t = get_or (1 ∷ 1 ∷ 2 ∷ 0 ∷ 0 ∷ 0 ∷ 4 ∷ []) t 0

pub record EvtHub : Type 0 where
  pub nop_hub : Option Hub
  pub rs : Option Sched
  pub bits : ℕ → ℕ
  pub last : ℕ → ℕ
  pub on_icon : List (ℕ × ℕ)

abbrev pub evt_init : Option Hub → Option Sched → EvtHub
evt_init hub rs = record { nop_hub = hub; rs = rs; bits = λ i. 0; last = λ i. 0; on_icon = [] }

unfoldable pub evt_ingest : EvtHub → ℕ → ℤ → ℕ → ℕ → Bool × EvtHub
unfolding rectype_of icon_of
evt_ingest h now (negsuc c) t ts_ms = (false, h)
evt_ingest h now (pos c) t ts_ms =
    let hub : Option Hub = elim h.nop_hub [
      | none ↦ none
      | some k ↦ some (publish k (record { channel = c; kind = t; timestamp_ms = ts_ms })).1
    ] in
    let rs : Option Sched = elim h.rs [
      | none ↦ none
      | some r ↦ elim (rectype_of t) [
        | none ↦ some r
        | some k ↦ some (trigger_event now r (pos c) k (u32 (ts_ms / 1000))).1
      ]
    ] in
    let h1 = record h { nop_hub = hub; rs = rs } in
    let bits = bit_or (h.bits c) (icon_of t) in
    if ltb c 32
    then (
      true,
      if icon_of t == 0 then h1 else record h1 {
        bits = λ i. if c == i then bits else h.bits i;
        last = λ i. if c == i then now else h.last i;
        on_icon = (c, bits) ∷ h.on_icon;
      },
    )
    else (false, h)

-- The channels from `i` on, `n` of them: an icon goes 5 seconds after its last event.
unfoldable pub evt_tick_from : ℕ → EvtHub → ℕ → ℕ → EvtHub
evt_tick_from now h i zero = h
evt_tick_from now h i (suc n) =
    evt_tick_from now
      (if not (h.bits i == 0) && leb 5 (now - h.last i)
        then record h { bits = λ j. if i == j then 0 else h.bits j; on_icon = (i, 0) ∷ h.on_icon }
        else h)
      (i + 1) n

unfoldable pub evt_tick : ℕ → EvtHub → EvtHub
unfolding evt_tick_from
evt_tick now h = evt_tick_from now h 0 32

-- nop_event_msgtype_code of components/nop/src/services/svc_event.c.
unfoldable pub msgtype_code : ℕ → ℕ
msgtype_code t = get_or (0 ∷ 1 ∷ 2 ∷ 30305 ∷ 30316 ∷ 30317 ∷ 3 ∷ 0 ∷ 30312 ∷ 30103 ∷ 30104 ∷ []) t 0
