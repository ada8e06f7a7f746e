-- ===== src/App/Channel/Numbers.antt =====
-- Every operation of the channel table, loading a configuration included, leaves each slot in use
-- under the number of its own channel.
use nt.Prelude.{
  ℕ, zero, suc, ◌+◌, ◌≡◌, inl, inr, arith, List, [], ◌∷◌, Bool, true, Option, Option-cases,
  Bool-cases, ℕ_discrete, ◌==◌, ◌&&◌, not, if◌then◌else◌, ltb, leb,
}
use nt.Prelude.Int.{ℤ, pos, negsuc}
use nt.Prelude.Text.{Str, is_empty}
use nt.App.Channel.{
  Desc, Status, nosignal, fail, StreamState, st_idle, st_connecting, st_playing, st_nosignal,
  st_fail, ChanSlot, Mgr, blank_slot, slot_of, put_slot, resolve_url, install_slot, chan_remove,
  chan_add, load_config, max_ch, mgr_init,
}
use nt.App.Channel.Bind.{
  bind_poe, apply_discovery, Cam, on_discovered, run_discovery, stop_all, pick_chn, chn_by_host,
}
use nt.App.Channel.Tick.{
  World, tick_url, tick_playing, tick_lost, tick_retry, tick_state, tick_slot, tick_slots, tick,
  is_disabled,
}
use nt.App.Channel.Runs.{slot_of-some}

abbrev pub InPlace : Mgr → Type 0
InPlace m = (c : ℕ) → (m.slots c).in_use ≡ true → (m.slots c).d.chn ≡ pos c

pub mgr_init-InPlace : (base max : ℤ) (on off : Bool) → InPlace (mgr_init base max on off)
unfolding mgr_init
mgr_init-InPlace base max on off c u = absurd (ground (arith, u))

put_slot-InPlace :
    (m : Mgr) (i : ℕ) (s : ChanSlot)
    → InPlace m
    → (s.in_use ≡ true → s.d.chn ≡ pos i)
    → InPlace (put_slot m i s)
put_slot-InPlace m i s v p c = elim (ℕ_discrete i c) [
  | yes e ↦ ground (arith, e, p)
  | no e ↦ ground (arith, e, v c)
]

install_slot-InPlace :
    (get_url : Desc → Option Str) (m : Mgr) (d : Desc)
    → InPlace m
    → InPlace (install_slot get_url m d).1
unfolding install_slot
install_slot-InPlace get_url m d v = elim (Option-cases (slot_of d.chn)) [
  | inl e ↦ rw (e, install_slot) v
  | inr (i, e) ↦
      let own = slot_of-some d.chn i e in
      elim (Bool-cases (d.enabled == 0)) [
        | inl z ↦ rw (e, install_slot, z) (put_slot-InPlace m i _ v (λ u. own))
        | inr z ↦ elim (Option-cases (resolve_url get_url d)) [
          | inl u ↦ rw (e, install_slot, z, u) (put_slot-InPlace m i _ v (λ u. own))
          | inr (url, u) ↦ rw (e, install_slot, z, u) (put_slot-InPlace m i _ v (λ u. own))
        ]
      ]
]

-- The flag of a configuration's entry is 0 or 1.
abbrev unflagged : Desc → Desc
unflagged e = record e { enabled = if e.enabled == 0 then 0 else 1 }

pub load_config-InPlace :
    (get_url : Desc → Option Str) (m : Mgr) (es : List Desc)
    → InPlace m
    → InPlace (load_config get_url m es).1
unfolding load_config
load_config-InPlace get_url m [] v = v
load_config-InPlace get_url m (e ∷ es) v = elim (Option-cases (slot_of e.chn)) [
  | inl h ↦ rw (load_config, h) (load_config-InPlace get_url m es v)
  | inr (i, h) ↦
      rw (load_config, h)
        (load_config-InPlace get_url (install_slot get_url m (unflagged e)).1 es
          (install_slot-InPlace get_url m (unflagged e) v))
]

blank-placed : (i : ℕ) → blank_slot.in_use ≡ true → blank_slot.d.chn ≡ pos i
blank-placed i u = absurd (ground (arith, u))

pub chan_remove-InPlace : (m : Mgr) (chn : ℤ) → InPlace m → InPlace (chan_remove m chn).1
unfolding chan_remove
chan_remove-InPlace m chn v = elim (Option-cases (slot_of chn)) [
  | inl e ↦ rw (e, chan_remove) v
  | inr (i, e) ↦ elim (Bool-cases (m.slots i).in_use) [
    | inr u ↦ rw (e, chan_remove, u) v
    | inl u ↦ elim (Bool-cases ((m.slots i).notified && m.has_offline)) [
      | inl n ↦ rw (e, chan_remove, u, n) (put_slot-InPlace m i blank_slot v (blank-placed i))
      | inr n ↦ rw (e, chan_remove, u, n) (put_slot-InPlace m i blank_slot v (blank-placed i))
    ]
  ]
]

pub chan_add-InPlace :
    (get_url : Desc → Option Str) (m : Mgr) (d : Desc)
    → InPlace m
    → InPlace (chan_add get_url m d).1
unfolding chan_add
chan_add-InPlace get_url m d v = elim (Option-cases (slot_of d.chn)) [
  | inl e ↦ rw (e, chan_add) v
  | inr (i, e) ↦ elim (Bool-cases (m.slots i).in_use) [
    | inl u ↦
        rw (e, chan_add, u)
          (install_slot-InPlace get_url (chan_remove m d.chn).1 d (chan_remove-InPlace m d.chn v))
    | inr u ↦ rw (e, chan_add, u) (install_slot-InPlace get_url m d v)
  ]
]

pub bind_poe-InPlace :
    (get_url : Desc → Option Str) (text : ℕ → Str) (admin : Str)
    → (m : Mgr) (p : ℤ) (ip user pass : Option Str) → InPlace m
    → InPlace (bind_poe get_url text admin m p ip user pass).1
unfolding bind_poe
bind_poe-InPlace get_url text admin m (negsuc p) ip user pass v = v
bind_poe-InPlace get_url text admin m (pos p) ip user pass v =
    elim (Bool-cases (leb 1 p && leb p 16)) [
      | inl e ↦ rw (e, bind_poe) (chan_add-InPlace get_url m _ v)
      | inr e ↦ rw (e, bind_poe) v
    ]

pub apply_discovery-InPlace :
    (m : Mgr) (chn : ℤ) (cls : Option (ℕ × ℕ)) → InPlace m → InPlace (apply_discovery m chn cls).1
unfolding apply_discovery
apply_discovery-InPlace m chn cls v = elim (Option-cases (slot_of chn)) [
  | inl e ↦ rw (e, apply_discovery) v
  | inr (i, e) ↦ elim (Bool-cases (m.slots i).in_use) [
    | inr u ↦ rw (e, apply_discovery, u) v
    | inl u ↦ elim (Option-cases cls) [
      | inl k ↦ rw (e, apply_discovery, u, k) v
      | inr (k, h) ↦ rw (e, apply_discovery, u, h) (put_slot-InPlace m i _ v (v i))
    ]
  ]
]

on_discovered-InPlace :
    (get_url : Desc → Option Str) (text : ℕ → Str) (admin : Str) (n : ℕ) (m : Mgr) (cam : Cam)
    → InPlace m
    → InPlace (on_discovered get_url text admin (n, m) cam).1
unfolding on_discovered
on_discovered-InPlace get_url text admin n m cam v = elim (Bool-cases (is_empty cam.host)) [
  | inl z ↦ rw (z, on_discovered) v
  | inr z ↦ elim (Option-cases (chn_by_host m cam.host)) [
    | inr (i, e) ↦ rw (z, on_discovered, e) (put_slot-InPlace m i _ v (v i))
    | inl e ↦ elim (Option-cases (pick_chn m cam)) [
      | inl f ↦ rw (z, on_discovered, e, f) v
      | inr (i, f) ↦ elim (Bool-cases (m.slots i).in_use) [
        | inl u ↦ rw (z, on_discovered, e, f, u) v
        | inr u ↦ rw (z, on_discovered, e, f, u) (chan_add-InPlace get_url m _ v)
      ]
    ]
  ]
]

pub run_discovery-InPlace :
    (get_url : Desc → Option Str) (text : ℕ → Str) (admin : Str) (cams : List Cam) (n : ℕ) (m : Mgr)
    → InPlace m
    → InPlace (run_discovery get_url text admin (n, m) cams).1
unfolding run_discovery
run_discovery-InPlace get_url text admin [] n m v = v
run_discovery-InPlace get_url text admin (cam ∷ cams) n m v =
    run_discovery-InPlace get_url text admin cams (on_discovered get_url text admin (n, m) cam).0
      (on_discovered get_url text admin (n, m) cam).1
      (on_discovered-InPlace get_url text admin n m cam v)

pub stop_all-InPlace : (m : Mgr) → InPlace m → InPlace (stop_all m)
unfolding stop_all
stop_all-InPlace m v c = elim (Bool-cases (ltb c 32 && (m.slots c).in_use)) [
  | inl e ↦ ground (arith, e, v c)
  | inr e ↦ ground (arith, e, v c)
]

tick_url-InPlace :
    (get_url : Desc → Option Str) (m : Mgr) (i : ℕ) → InPlace m → InPlace (tick_url get_url m i)
unfolding tick_url
tick_url-InPlace get_url m i v =
    elim (Bool-cases (
      is_empty (m.slots i).d.url
      && not ((m.slots i).d.onvif_auto == 0)
      && not (is_empty (m.slots i).d.onvif_ip))) [
        | inr e ↦ rw (tick_url, e) v
        | inl e ↦ elim (Option-cases (resolve_url get_url (m.slots i).d)) [
          | inl r ↦ rw (tick_url, e, r) v
          | inr (url, r) ↦ rw (tick_url, e, r) (put_slot-InPlace m i _ v (v i))
        ]
      ]

tick_playing-InPlace : (m : Mgr) (i : ℕ) → InPlace m → InPlace (tick_playing m i)
unfolding tick_playing
tick_playing-InPlace m i v = elim (Bool-cases (not (m.slots i).notified && m.has_online)) [
  | inl n ↦ rw (tick_playing, n) (put_slot-InPlace m i _ v (v i))
  | inr n ↦ rw (tick_playing, n) (put_slot-InPlace m i _ v (v i))
]

tick_lost-InPlace : (m : Mgr) (i : ℕ) (st : Status) → InPlace m → InPlace (tick_lost m i st)
unfolding tick_lost
tick_lost-InPlace m i st v = elim (Bool-cases ((m.slots i).notified && m.has_offline)) [
  | inl n ↦ rw (tick_lost, n) (put_slot-InPlace m i _ v (v i))
  | inr n ↦ rw (tick_lost, n) (put_slot-InPlace m i _ v (v i))
]

tick_retry-InPlace : (m : Mgr) (i now : ℕ) → InPlace m → InPlace (tick_retry m i now)
unfolding tick_retry
tick_retry-InPlace m i now v = elim (Bool-cases (leb (m.slots i).next_retry now)) [
  | inl e ↦ rw (tick_retry, e) (put_slot-InPlace m i _ v (v i))
  | inr e ↦ rw (tick_retry, e) v
]

tick_state-InPlace :
    (m : Mgr) (i now : ℕ) (st : StreamState) → InPlace m → InPlace (tick_state m i now st)
unfolding tick_state
tick_state-InPlace m i now st_idle v = v
tick_state-InPlace m i now st_connecting v = put_slot-InPlace m i _ v (v i)
tick_state-InPlace m i now st_playing v = tick_playing-InPlace m i v
tick_state-InPlace m i now st_nosignal v =
    tick_retry-InPlace (tick_lost m i nosignal) i now (tick_lost-InPlace m i nosignal v)
tick_state-InPlace m i now st_fail v =
    tick_retry-InPlace (tick_lost m i fail) i now (tick_lost-InPlace m i fail v)

tick_slot-InPlace : (e : World) (m : Mgr) (i : ℕ) → InPlace m → InPlace (tick_slot e m i)
unfolding tick_slot
tick_slot-InPlace e m i v = elim (Bool-cases (is_disabled (m.slots i).status)) [
  | inl b ↦ rw (tick_slot, b) v
  | inr b ↦
      rw (tick_slot, b)
        (tick_state-InPlace (tick_url e.get_url m i) i e.now (e.state (m.slots i).d.chn)
          (tick_url-InPlace e.get_url m i v))
]

tick_slots-InPlace :
    (e : World) (n : ℕ) (m : Mgr) (i : ℕ) → InPlace m → InPlace (tick_slots e m i n)
unfolding tick_slots
tick_slots-InPlace e zero m i v = v
tick_slots-InPlace e (suc n) m i v =
    tick_slots-InPlace e n (if (m.slots i).in_use then tick_slot e m i else m) (i + 1) one
  where
    one : InPlace (if (m.slots i).in_use then tick_slot e m i else m)
    one = elim (Bool-cases (m.slots i).in_use) [
      | inl u ↦ rw (u) (tick_slot-InPlace e m i v)
      | inr u ↦ rw (u) v
    ]

pub tick-InPlace : (e : World) (m : Mgr) → InPlace m → InPlace (tick e m)
unfolding tick
tick-InPlace e m v = tick_slots-InPlace e max_ch m 0 v
