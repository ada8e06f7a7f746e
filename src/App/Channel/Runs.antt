-- ===== src/App/Channel/Runs.antt =====
-- Every operation of the channel table keeps what the callbacks were told in step with the table.
use nt.Prelude.{
  ℕ, ◌≡◌, refl, sym, ap, ◌∙◌, inl, inr, arith, List, [], ◌∷◌, true, false, Option, some,
  Option-cases, Bool-cases, ℕ_discrete, if◌then◌else◌, ◌==◌, ◌&&◌, ltb, leb,
}
use nt.Prelude.Int.{ℤ, pos, negsuc}
use nt.Prelude.Text.{Str, is_empty}
use nt.App.Channel.{
  Desc, ChanSlot, Mgr, add_channel, stream_stop, on_offline, blank_slot, slot_of, put_slot, call,
  resolve_url, load_config, install_slot, chan_remove, chan_add, stream_stop_all,
}
use nt.App.Channel.Bind.{
  bind_poe, apply_discovery, Cam, on_discovered, run_discovery, stop_all, pick_chn, chn_by_host,
}
use nt.App.Channel.Notices.{
  IsTold, IsPlaced, put_slot-IsTold, call-IsTold, offline-IsTold, is_quiet,
}

pub slot_of-some : (z : ℤ) (i : ℕ) → slot_of z ≡ some i → z ≡ pos i
slot_of-some (pos n) i e = ground arith
slot_of-some (negsuc n) i e = ground arith

-- A slot whose flag is down is filled.
install_slot-IsTold :
    (get_url : Desc → Option Str) (m : Mgr) (d : Desc)
    → IsTold m
    → ((i : ℕ) → slot_of d.chn ≡ some i → (m.slots i).notified ≡ false)
    → IsTold (install_slot get_url m d).1
unfolding install_slot is_quiet
install_slot-IsTold get_url m d v down = elim (Option-cases (slot_of d.chn)) [
  | inl e ↦ rw (e, install_slot) v
  | inr (i, e) ↦ elim (Bool-cases (d.enabled == 0)) [
    | inl z ↦
        rw (e, install_slot, z) (put_slot-IsTold m i _ v (placed i e _ refl refl) (sym (down i e)))
    | inr z ↦ elim (Option-cases (resolve_url get_url d)) [
      | inl u ↦
          rw (e, install_slot, z, u)
            (put_slot-IsTold m i _ v (placed i e _ refl refl) (sym (down i e)))
      | inr (url, u) ↦
          rw (e, install_slot, z, u)
            (call-IsTold _ (add_channel d url)
              (put_slot-IsTold m i _ v (placed i e _ refl refl) (sym (down i e))) refl)
    ]
  ]
]
  where
    placed :
        (i : ℕ)
        → slot_of d.chn ≡ some i
        → (s : ChanSlot) → s.d ≡ d
        → s.notified ≡ false
        → IsPlaced i s
    placed i e s sd sn = record {
      placed = λ u. ap (λ x. x.chn) sd ∙ slot_of-some d.chn i e;
      free = λ u. sn;
    }

-- The flag of no slot is up.
abbrev pub NoneUp : Mgr → Type 0
NoneUp m = (c : ℕ) → (m.slots c).notified ≡ false

put_slot-NoneUp :
    (m : Mgr) (i : ℕ) (s : ChanSlot) → s.notified ≡ false → NoneUp m → NoneUp (put_slot m i s)
put_slot-NoneUp m i s down q c = elim (ℕ_discrete i c) [
  | yes e ↦ ground (arith, e, down)
  | no e ↦ ground (arith, e, q c)
]

install_slot-NoneUp :
    (get_url : Desc → Option Str) (m : Mgr) (d : Desc)
    → NoneUp m
    → NoneUp (install_slot get_url m d).1
unfolding install_slot
install_slot-NoneUp get_url m d q = elim (Option-cases (slot_of d.chn)) [
  | inl e ↦ rw (e, install_slot) q
  | inr (i, e) ↦ elim (Bool-cases (d.enabled == 0)) [
    | inl z ↦ rw (e, install_slot, z) (put_slot-NoneUp m i _ refl q)
    | inr z ↦ elim (Option-cases (resolve_url get_url d)) [
      | inl u ↦ rw (e, install_slot, z, u) (put_slot-NoneUp m i _ refl q)
      | inr (url, u) ↦ rw (e, install_slot, z, u) (put_slot-NoneUp m i _ refl q)
    ]
  ]
]

-- A configuration is loaded over a table of which no slot is online.
pub load_config-IsTold :
    (get_url : Desc → Option Str) (m : Mgr) (es : List Desc)
    → IsTold m
    → NoneUp m
    → IsTold (load_config get_url m es).1
unfolding load_config
load_config-IsTold get_url m [] v q = v
load_config-IsTold get_url m (e ∷ es) v q =
    let d : Desc = record e { enabled = if e.enabled == 0 then 0 else 1 } in
    elim (Option-cases (slot_of e.chn)) [
      | inl h ↦ rw (load_config, h) (load_config-IsTold get_url m es v q)
      | inr (i, h) ↦
          rw (load_config, h)
            (load_config-IsTold get_url (install_slot get_url m d).1 es
              (install_slot-IsTold get_url m d v (λ j k. q j)) (install_slot-NoneUp get_url m d q))
    ]

remove-unused :
    (m : Mgr) (chn : ℤ) (i : ℕ)
    → slot_of chn ≡ some i
    → (m.slots i).in_use ≡ false
    → chan_remove m chn ≡ (negsuc 0, m)
unfolding chan_remove
remove-unused m chn i e u = rw (e, chan_remove, u) refl

remove-up :
    (m : Mgr) (chn : ℤ) (i : ℕ)
    → slot_of chn ≡ some i
    → (m.slots i).in_use ≡ true
    → ((m.slots i).notified && m.has_offline) ≡ true
    → chan_remove m chn
      ≡ (pos 0, call (put_slot (call m (stream_stop chn)) i blank_slot) (on_offline chn))
unfolding chan_remove
remove-up m chn i e u n = rw (e, chan_remove, u, n) refl

remove-down :
    (m : Mgr) (chn : ℤ) (i : ℕ)
    → slot_of chn ≡ some i
    → (m.slots i).in_use ≡ true
    → ((m.slots i).notified && m.has_offline) ≡ false
    → chan_remove m chn ≡ (pos 0, put_slot (call m (stream_stop chn)) i blank_slot)
unfolding chan_remove
remove-down m chn i e u n = rw (e, chan_remove, u, n) refl

blank-IsPlaced : (i : ℕ) → IsPlaced i blank_slot
blank-IsPlaced i = record { placed = λ u. ground arith; free = λ u. refl }

-- A removal tells the callback of a slot that was online, and puts its flag down.
pub chan_remove-IsTold : (m : Mgr) (chn : ℤ) → IsTold m → IsTold (chan_remove m chn).1
unfolding is_quiet
chan_remove-IsTold m chn v = elim (Option-cases (slot_of chn)) [
  | inl e ↦ unfold chan_remove in rw (e, chan_remove) v
  | inr (i, e) ↦ elim (Bool-cases (m.slots i).in_use) [
    | inl u ↦
        let stopped = call-IsTold m (stream_stop chn) v refl in
        elim (Bool-cases ((m.slots i).notified && m.has_offline)) [
          | inl n ↦
              rw (remove-up m chn i e u n, slot_of-some chn i e)
                (offline-IsTold _ i blank_slot (call-IsTold m (stream_stop (pos i)) v refl)
                  (blank-IsPlaced i) (ground (arith, n)) refl)
          | inr n ↦ rw (remove-down m chn i e u n) (
              put_slot-IsTold _ i blank_slot stopped (blank-IsPlaced i)
                (ground (arith, n, v.offline)))
        ]
    | inr u ↦ rw (remove-unused m chn i e u) v
  ]
]

chan_remove-down :
    (m : Mgr) (chn : ℤ) (i : ℕ)
    → IsTold m
    → slot_of chn ≡ some i
    → ((chan_remove m chn).1.slots i).notified ≡ false
chan_remove-down m chn i v e = elim (Bool-cases (m.slots i).in_use) [
  | inl u ↦ elim (Bool-cases ((m.slots i).notified && m.has_offline)) [
    | inl n ↦ rw (remove-up m chn i e u n) (ground arith)
    | inr n ↦ rw (remove-down m chn i e u n) (ground arith)
  ]
  | inr u ↦ rw (remove-unused m chn i e u) ((v.each i).free u)
]

pub chan_add-IsTold :
    (get_url : Desc → Option Str) (m : Mgr) (d : Desc) → IsTold m → IsTold (chan_add get_url m d).1
unfolding chan_add
chan_add-IsTold get_url m d v = elim (Option-cases (slot_of d.chn)) [
  | inl e ↦ rw (e, chan_add) v
  | inr (i, e) ↦ elim (Bool-cases (m.slots i).in_use) [
    | inl u ↦
        rw (e, chan_add, u)
          (install_slot-IsTold get_url (chan_remove m d.chn).1 d (chan_remove-IsTold m d.chn v)
            (λ j h. chan_remove-down m d.chn j v h))
    | inr u ↦
        rw (e, chan_add, u)
          (install_slot-IsTold get_url m d v (λ j h. (v.each j).free (ground (arith, e, h, u))))
  ]
]

pub bind_poe-IsTold :
    (get_url : Desc → Option Str) (text : ℕ → Str) (admin : Str)
    → (m : Mgr) (p : ℤ) (ip user pass : Option Str) → IsTold m
    → IsTold (bind_poe get_url text admin m p ip user pass).1
unfolding bind_poe
bind_poe-IsTold get_url text admin m (negsuc p) ip user pass v = v
bind_poe-IsTold get_url text admin m (pos p) ip user pass v =
    elim (Bool-cases (leb 1 p && leb p 16)) [
      | inl e ↦ rw (e, bind_poe) (chan_add-IsTold get_url m _ v)
      | inr e ↦ rw (e, bind_poe) v
    ]

pub apply_discovery-IsTold :
    (m : Mgr) (chn : ℤ) (cls : Option (ℕ × ℕ)) → IsTold m → IsTold (apply_discovery m chn cls).1
unfolding apply_discovery
apply_discovery-IsTold m chn cls v = elim (Option-cases (slot_of chn)) [
  | inl e ↦ rw (e, apply_discovery) v
  | inr (i, e) ↦ elim (Bool-cases (m.slots i).in_use) [
    | inr u ↦ rw (e, apply_discovery, u) v
    | inl u ↦ elim (Option-cases cls) [
      | inl k ↦ rw (e, apply_discovery, u, k) v
      | inr (k, h) ↦
          rw (e, apply_discovery, u, h)
            (put_slot-IsTold m i _ v (record { placed = (v.each i).placed; free = (v.each i).free })
              refl)
    ]
  ]
]

on_discovered-IsTold :
    (get_url : Desc → Option Str) (text : ℕ → Str) (admin : Str) (n : ℕ) (m : Mgr) (cam : Cam)
    → IsTold m
    → IsTold (on_discovered get_url text admin (n, m) cam).1
unfolding on_discovered
on_discovered-IsTold get_url text admin n m cam v = elim (Bool-cases (is_empty cam.host)) [
  | inl z ↦ rw (z, on_discovered) v
  | inr z ↦ elim (Option-cases (chn_by_host m cam.host)) [
    | inr (i, e) ↦
        rw (z, on_discovered, e)
          (put_slot-IsTold m i _ v (record { placed = (v.each i).placed; free = (v.each i).free })
            refl)
    | inl e ↦ elim (Option-cases (pick_chn m cam)) [
      | inl f ↦ rw (z, on_discovered, e, f) v
      | inr (i, f) ↦ elim (Bool-cases (m.slots i).in_use) [
        | inl u ↦ rw (z, on_discovered, e, f, u) v
        | inr u ↦ rw (z, on_discovered, e, f, u) (chan_add-IsTold get_url m _ v)
      ]
    ]
  ]
]

pub run_discovery-IsTold :
    (get_url : Desc → Option Str) (text : ℕ → Str) (admin : Str) (cams : List Cam) (n : ℕ) (m : Mgr)
    → IsTold m
    → IsTold (run_discovery get_url text admin (n, m) cams).1
unfolding run_discovery
run_discovery-IsTold get_url text admin [] n m v = v
run_discovery-IsTold get_url text admin (cam ∷ cams) n m v =
    run_discovery-IsTold get_url text admin cams (on_discovered get_url text admin (n, m) cam).0
      (on_discovered get_url text admin (n, m) cam).1
      (on_discovered-IsTold get_url text admin n m cam v)

pub stop_all-IsTold : (m : Mgr) → IsTold m → IsTold (stop_all m)
unfolding stop_all is_quiet
stop_all-IsTold m v =
    let k = call-IsTold m stream_stop_all v refl in
    record {
      online = k.online;
      offline = k.offline;
      each = λ c. elim (Bool-cases (ltb c 32 && (m.slots c).in_use)) [
        | inl e ↦ record {
          turns = (k.each c).turns;
          flag = (k.each c).flag ∙ ground (arith, e);
          placed = λ u. ground (arith, e, (k.each c).placed);
          free = λ u. ground (arith, e, u);
        }
        | inr e ↦ record {
          turns = (k.each c).turns;
          flag = (k.each c).flag ∙ ground (arith, e);
          placed = λ u. ground (arith, e, u, (k.each c).placed);
          free = λ u. ground (arith, e, u, (k.each c).free);
        }
      ];
    }
