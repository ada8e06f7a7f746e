-- ===== src/App/Tests.antt =====
-- A channel table, a preview and a schedule, and each theorem of the application at them.
use nt.Prelude.{
  ℕ, ◌+◌, ◌*◌, ◌≤◌, ◌≡◌, refl, arith, List, [], ◌∷◌, true, false, Option, none, some, min, All, ltb,
  if◌then◌else◌, ◌&&◌,
}
use nt.Prelude.Int.{pos}
use nt.Prelude.Text.{Str}
use nt.App.Channel.{
  Desc, blank_desc, blank_slot, StreamState, st_playing, st_fail, Mgr, mgr_init, put_slot,
  install_slot, resolve_url, load_config,
}
use nt.App.Channel.Bind.{chan_get}
use nt.App.Channel.Tick.{World}
use nt.App.Channel.Notices.{told, alternates}
use nt.App.Channel.Histories.{
  Op, op_load_config, op_tick, LoadsOffline, run_ops, run_ops-alternates, run_op,
  chan_get-own_number,
}
use nt.App.Channel.Backoff.{starts, lost_ticks, lost_ticks-rate}
use nt.App.Preview.{Preview, l4, preview_init, to_mhal, set_layout}
use nt.App.Preview.Windows.{IsDistinct, set_layout-windows}
use nt.App.Preview.Distinct.{pv_online, run_pv, run_pv-IsDistinct}
use nt.App.RecordSched.{Sched, sched_init, channel_up, trigger_event}
use nt.App.RecordSched.Burst.{burst, Within, burst-one_event}

-- A camera with a URL on channel 3.
abbrev desc0 : Desc
desc0 = record blank_desc { chn = pos 3; url = 114 ∷ []; enabled = 1 }

abbrev no_url : Desc → Option Str
no_url d = none

abbrev world0 : ℕ → StreamState → World
world0 now st = record { now = now; get_url = no_url; state = λ c. st }

abbrev ops0 : List Op
ops0 =
    op_load_config no_url (desc0 ∷ [])
    ∷ op_tick (world0 10 st_playing)
    ∷ op_tick (world0 11 st_fail)
    ∷ op_tick (world0 12 st_playing)
    ∷ []

run_ops-alternates_example :
    (alternates 3 (run_ops ops0 (mgr_init (pos 0) (pos 0) true true)).calls ≡ true)
    × (told 3 (run_ops ops0 (mgr_init (pos 0) (pos 0) true true)).calls
        ≡ ((run_ops ops0 (mgr_init (pos 0) (pos 0) true true)).slots 3).notified)
unfolding LoadsOffline mgr_init
run_ops-alternates_example = run_ops-alternates ops0 (pos 0) (pos 0) 3 ((λ c. refl), tt)

chan_get-own_number_example : desc0.chn ≡ pos 3
unfolding run_ops run_op load_config install_slot chan_get mgr_init resolve_url
chan_get-own_number_example =
    chan_get-own_number (op_load_config no_url (desc0 ∷ []) ∷ []) (pos 0) (pos 0) true true (pos 3)
      desc0 refl

abbrev lost0 : Mgr
lost0 =
    put_slot (mgr_init (pos 5) (pos 30) true true) 3
      (record blank_slot { d = desc0; in_use = true; backoff = 5; next_retry = 100 })

lost_ticks-rate_example :
    5 * starts (lost_ticks (100 ∷ 103 ∷ 105 ∷ 115 ∷ []) lost0 3).calls + min 100 (115 + 5)
    ≤ 5 * starts lost0.calls + (115 + 5)
unfolding mgr_init
lost_ticks-rate_example =
    lost_ticks-rate (100 ∷ 103 ∷ 105 ∷ 115 ∷ []) lost0 3 5 115 (omega arith) (omega arith)
      (omega arith, (omega arith, (omega arith, (omega arith, tt))))

abbrev preview0 : Preview
preview0 = record (preview_init true false true) { page = 1 }

set_layout-windows_example :
    ((set_layout (λ g. true) preview0 l4).0 ≡ true)
    × ((set_layout (λ g. true) preview0 l4).1.win2chn 2
        ≡ (if ltb 2 4 && ltb (1 * 4 + 2) 32 then some (1 * 4 + 2) else none))
    × ((set_layout (λ g. true) preview0 l4).1.win_count ≡ 4)
unfolding to_mhal
set_layout-windows_example = set_layout-windows (λ g. true) preview0 l4 2

preview0-IsDistinct : IsDistinct preview0
preview0-IsDistinct = record { once = λ v w c x y. ground (arith, x); within = λ v le. refl }

run_pv-IsDistinct_example : IsDistinct (run_pv (λ g. true) (pv_online (pos 17)) preview0)
run_pv-IsDistinct_example =
    run_pv-IsDistinct (λ g. true) (pv_online (pos 17)) preview0 refl preview0-IsDistinct

abbrev sched0 : Sched
sched0 = (channel_up (sched_init (pos 0) true true false) (pos 2) 1).1

burst-one_event_example :
    All
      (λ x. x ≡ (trigger_event 1000 sched0 (pos 2) 4 999).0)
      (burst
        ((1003, 1002) ∷ (1012, 0) ∷ [])
        (trigger_event 1000 sched0 (pos 2) 4 999).1
        (pos 2)
        4).0
    × ((burst
          ((1003, 1002) ∷ (1012, 0) ∷ [])
          (trigger_event 1000 sched0 (pos 2) 4 999).1
          (pos 2)
          4).1.begun
        ≡ (trigger_event 1000 sched0 (pos 2) 4 999).1.begun)
unfolding Within channel_up sched_init
burst-one_event_example =
    burst-one_event ((1003, 1002) ∷ (1012, 0) ∷ []) 1000 999 sched0 (pos 2) 2 4 refl refl refl
      (omega arith, (omega arith, tt))
