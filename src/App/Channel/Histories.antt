-- ===== src/App/Channel/Histories.antt =====
-- Histories of the channel table: any order of its operations, with any answers of the world.
use nt.Prelude.{
  ℕ, ◌≡◌, refl, sym, ap, ◌∙◌, inl, inr, arith, List, [], ◌∷◌, true, false, Option, none, some,
  Option-cases, Bool-cases, Bool,
}
use nt.Prelude.Int.{ℤ}
use nt.Prelude.Text.{Str}
use nt.App.Channel.{
  Desc, Mgr, load_config, stream_start_all, mgr_init, chan_remove, chan_add, slot_of,
}
use nt.App.Channel.Bind.{
  bind_poe, apply_discovery, Cam, run_discovery, start_all, stop_all, chan_get,
}
use nt.App.Channel.Tick.{World, tick}
use nt.App.Channel.Notices.{told, alternates, IsTold, call-IsTold, is_quiet}
use nt.App.Channel.Runs.{
  NoneUp, load_config-IsTold, slot_of-some, chan_add-IsTold, chan_remove-IsTold, bind_poe-IsTold,
  apply_discovery-IsTold, run_discovery-IsTold, stop_all-IsTold,
}
use nt.App.Channel.Ticks.{tick-IsTold}
use nt.App.Channel.Numbers.{
  InPlace, mgr_init-InPlace, load_config-InPlace, chan_add-InPlace, chan_remove-InPlace,
  bind_poe-InPlace, apply_discovery-InPlace, run_discovery-InPlace, stop_all-InPlace, tick-InPlace,
}

-- An operation with the answers that it gets.
pub data Op : Type 0 where
  op_load_config : (Desc → Option Str) → List Desc → Op
  op_add : (Desc → Option Str) → Desc → Op
  op_remove : ℤ → Op
  op_bind_poe :
      (Desc → Option Str) → (ℕ → Str) → Str → ℤ → Option Str → Option Str → Option Str → Op
  op_classify : ℤ → Option (ℕ × ℕ) → Op
  op_discover : (Desc → Option Str) → (ℕ → Str) → Str → List Cam → Op
  op_start_all op_stop_all : Op
  op_tick : World → Op

unfoldable pub run_op : Op → Mgr → Mgr
run_op (op_load_config get_url es) m = (load_config get_url m es).1
run_op (op_add get_url d) m = (chan_add get_url m d).1
run_op (op_remove chn) m = (chan_remove m chn).1
run_op (op_bind_poe get_url text admin p ip user pass) m =
    (bind_poe get_url text admin m p ip user pass).1
run_op (op_classify chn cls) m = (apply_discovery m chn cls).1
run_op (op_discover get_url text admin cams) m = (run_discovery get_url text admin (0, m) cams).1
run_op op_start_all m = start_all m
run_op op_stop_all m = stop_all m
run_op (op_tick e) m = tick e m

unfoldable pub run_ops : List Op → Mgr → Mgr
run_ops [] m = m
run_ops (o ∷ os) m = run_ops os (run_op o m)

-- Every configuration is loaded while no channel is online, as the first operation is.
unfoldable pub LoadsOffline : List Op → Mgr → Type 0
LoadsOffline [] m = Unit {0}
LoadsOffline (op_load_config get_url es ∷ os) m =
    NoneUp m × LoadsOffline os (run_op (op_load_config get_url es) m)
LoadsOffline (o ∷ os) m = LoadsOffline os (run_op o m)

run_ops-IsTold : (os : List Op) (m : Mgr) → LoadsOffline os m → IsTold m → IsTold (run_ops os m)
unfolding run_ops run_op is_quiet LoadsOffline
run_ops-IsTold [] m q v = v
run_ops-IsTold (op_load_config get_url es ∷ os) m q v =
    run_ops-IsTold os _ q.1 (load_config-IsTold get_url m es v q.0)
run_ops-IsTold (op_add get_url d ∷ os) m q v = run_ops-IsTold os _ q (chan_add-IsTold get_url m d v)
run_ops-IsTold (op_remove chn ∷ os) m q v = run_ops-IsTold os _ q (chan_remove-IsTold m chn v)
run_ops-IsTold (op_bind_poe get_url text admin p ip user pass ∷ os) m q v =
    run_ops-IsTold os _ q (bind_poe-IsTold get_url text admin m p ip user pass v)
run_ops-IsTold (op_classify chn cls ∷ os) m q v =
    run_ops-IsTold os _ q (apply_discovery-IsTold m chn cls v)
run_ops-IsTold (op_discover get_url text admin cams ∷ os) m q v =
    run_ops-IsTold os _ q (run_discovery-IsTold get_url text admin cams 0 m v)
run_ops-IsTold (op_start_all ∷ os) m q v =
    run_ops-IsTold os _ q (call-IsTold m stream_start_all v refl)
run_ops-IsTold (op_stop_all ∷ os) m q v = run_ops-IsTold os _ q (stop_all-IsTold m v)
run_ops-IsTold (op_tick e ∷ os) m q v = run_ops-IsTold os _ q (tick-IsTold e m v)

mgr_init-IsTold : (base max : ℤ) → IsTold (mgr_init base max true true)
unfolding mgr_init told alternates
mgr_init-IsTold base max = record {
  online = refl;
  offline = refl;
  each = λ c. record { turns = refl; flag = refl; placed = λ u. ground arith; free = λ u. refl };
}

-- After any sequence of operations on a fresh table whose two callbacks are set, with any answers of
-- the stream manager, the cameras and the clock, in which a configuration is loaded only while no
-- channel is online: for each channel the calls of the online and the offline callback take turns and
-- begin with online, and the slot's flag tells which came last.
pub run_ops-alternates :
    (os : List Op) (base max : ℤ) (c : ℕ)
    → LoadsOffline os (mgr_init base max true true)
    → (alternates c (run_ops os (mgr_init base max true true)).calls ≡ true)
      × (told c (run_ops os (mgr_init base max true true)).calls
          ≡ ((run_ops os (mgr_init base max true true)).slots c).notified)
run_ops-alternates os base max c q =
    let v = (run_ops-IsTold os _ q (mgr_init-IsTold base max)).each c in (v.turns, v.flag)

chan_get-in_use :
    (m : Mgr) (chn : ℤ) (i : ℕ)
    → slot_of chn ≡ some i
    → (m.slots i).in_use ≡ true
    → chan_get m chn ≡ some (m.slots i).d
unfolding chan_get
chan_get-in_use m chn i e u = rw (e, chan_get, u) refl

chan_get-unused :
    (m : Mgr) (chn : ℤ) (i : ℕ)
    → slot_of chn ≡ some i
    → (m.slots i).in_use ≡ false
    → chan_get m chn ≡ none
unfolding chan_get
chan_get-unused m chn i e u = rw (e, chan_get, u) refl

chan_get-outside : (m : Mgr) (chn : ℤ) → slot_of chn ≡ none → chan_get m chn ≡ none
unfolding chan_get
chan_get-outside m chn e = rw (e, chan_get) refl

run_op-InPlace : (o : Op) (m : Mgr) → InPlace m → InPlace (run_op o m)
unfolding run_op
run_op-InPlace (op_load_config get_url es) m v = load_config-InPlace get_url m es v
run_op-InPlace (op_add get_url d) m v = chan_add-InPlace get_url m d v
run_op-InPlace (op_remove chn) m v = chan_remove-InPlace m chn v
run_op-InPlace (op_bind_poe get_url text admin p ip user pass) m v =
    bind_poe-InPlace get_url text admin m p ip user pass v
run_op-InPlace (op_classify chn cls) m v = apply_discovery-InPlace m chn cls v
run_op-InPlace (op_discover get_url text admin cams) m v =
    run_discovery-InPlace get_url text admin cams 0 m v
run_op-InPlace op_start_all m v = v
run_op-InPlace op_stop_all m v = stop_all-InPlace m v
run_op-InPlace (op_tick e) m v = tick-InPlace e m v

run_ops-InPlace : (os : List Op) (m : Mgr) → InPlace m → InPlace (run_ops os m)
unfolding run_ops
run_ops-InPlace [] m v = v
run_ops-InPlace (o ∷ os) m v = run_ops-InPlace os (run_op o m) (run_op-InPlace o m v)

own_number : (m : Mgr) (chn : ℤ) (d : Desc) → InPlace m → chan_get m chn ≡ some d → d.chn ≡ chn
own_number m chn d v h = elim (Option-cases (slot_of chn)) [
  | inl e ↦ absurd (none≢some (sym (chan_get-outside m chn e) ∙ h))
  | inr (i, e) ↦ elim (Bool-cases (m.slots i).in_use) [
    | inl u ↦
        ap (λ o. chn_of o) (sym h ∙ chan_get-in_use m chn i e u)
        ∙ v i u
        ∙ sym (slot_of-some chn i e)
    | inr u ↦ absurd (none≢some (sym (chan_get-unused m chn i e u) ∙ h))
  ]
]
  where
    chn_of : Option Desc → ℤ
    chn_of none = chn
    chn_of (some x) = x.chn

    none≢some : {x : Desc} → none ≡ some x → ⊥
    none≢some e = ground arith

-- After any sequence of operations on a fresh table, configurations that are loaded at any point of it
-- included, whichever callbacks are set: what the table answers for a channel is described under that
-- channel's number.
pub chan_get-own_number :
    (os : List Op) (base max : ℤ) (on off : Bool) (chn : ℤ) (d : Desc)
    → chan_get (run_ops os (mgr_init base max on off)) chn ≡ some d
    → d.chn ≡ chn
chan_get-own_number os base max on off chn d h =
    own_number (run_ops os (mgr_init base max on off)) chn d
      (run_ops-InPlace os _ (mgr_init-InPlace base max on off)) h
