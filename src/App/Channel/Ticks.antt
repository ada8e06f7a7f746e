-- ===== src/App/Channel/Ticks.antt =====
-- A tick keeps what the callbacks were told in step with the table.
use nt.Prelude.{
  ℕ, zero, suc, ◌+◌, ◌≡◌, refl, sym, ◌∙◌, inl, inr, arith, true, false, Option, Option-cases,
  Bool-cases, ◌==◌, ◌&&◌, not, if◌then◌else◌, leb,
}
use nt.Prelude.Int.{ℤ, pos}
use nt.Prelude.Text.{Str, is_empty}
use nt.App.Channel.{
  Desc, Status, nosignal, fail, StreamState, st_idle, st_connecting, st_playing, st_nosignal,
  st_fail, ChanSlot, Mgr, add_channel, stream_start, stream_stop, on_online, on_offline, put_slot,
  call, resolve_url, max_ch,
}
use nt.App.Channel.Tick.{
  World, tick_url, tick_playing, tick_lost, tick_retry, tick_state, tick_slot, tick_slots, tick,
  is_disabled,
}
use nt.App.Channel.Notices.{
  IsTold, IsPlaced, put_slot-IsTold, call-IsTold, online-IsTold, offline-IsTold, is_quiet,
}

-- A slot in use, with new fields that the callbacks do not see.
kept :
    (m : Mgr) (i : ℕ) (s : ChanSlot)
    → IsTold m
    → s.d.chn ≡ (m.slots i).d.chn
    → s.in_use ≡ (m.slots i).in_use
    → s.notified ≡ (m.slots i).notified
    → IsTold (put_slot m i s)
kept m i s v ed eu en =
    put_slot-IsTold m i s v
      (record {
        placed = λ u. ed ∙ (v.each i).placed (sym eu ∙ u);
        free = λ u. en ∙ (v.each i).free (sym eu ∙ u);
      })
      en

tick_url-IsTold :
    (get_url : Desc → Option Str) (m : Mgr) (i : ℕ)
    → IsTold m
    → IsTold (tick_url get_url m i) × ((tick_url get_url m i).slots i).in_use ≡ (m.slots i).in_use
unfolding tick_url is_quiet
tick_url-IsTold get_url m i v =
    elim (Bool-cases (
      is_empty (m.slots i).d.url
      && not ((m.slots i).d.onvif_auto == 0)
      && not (is_empty (m.slots i).d.onvif_ip))) [
        | inr e ↦ rw (tick_url, e) (v, refl)
        | inl e ↦ elim (Option-cases (resolve_url get_url (m.slots i).d)) [
          | inl r ↦ rw (tick_url, e, r) (v, refl)
          | inr (url, r) ↦
              rw (tick_url, e, r)
                (
                  call-IsTold _ (stream_start (m.slots i).d.chn)
                      (call-IsTold _ (add_channel (m.slots i).d url) (kept m i _ v refl refl refl)
                        refl)
                      refl,
                  ground arith,
                )
        ]
      ]

online_at :
    (m : Mgr) (i : ℕ) (s : ChanSlot) (z : ℤ)
    → z ≡ pos i
    → IsTold m
    → IsPlaced i s
    → (m.slots i).notified ≡ false
    → s.notified ≡ true
    → IsTold (call (put_slot m i s) (on_online z))
online_at m i s z e v p was now = rw (e) (online-IsTold m i s v p was now)

offline_at :
    (m : Mgr) (i : ℕ) (s : ChanSlot) (z : ℤ)
    → z ≡ pos i
    → IsTold m
    → IsPlaced i s
    → (m.slots i).notified ≡ true
    → s.notified ≡ false
    → IsTold (call (put_slot m i s) (on_offline z))
offline_at m i s z e v p was now = rw (e) (offline-IsTold m i s v p was now)

-- A slot in use keeps its place, whatever its flag.
in_place :
    (m : Mgr) (i : ℕ) (s : ChanSlot)
    → IsTold m
    → (m.slots i).in_use ≡ true
    → s.d.chn ≡ (m.slots i).d.chn
    → s.in_use ≡ (m.slots i).in_use
    → IsPlaced i s
in_place m i s v u ed eu = record {
  placed = λ x. ed ∙ (v.each i).placed u;
  free = λ x. absurd (ground (arith, x, eu, u));
}

tick_playing-IsTold :
    (m : Mgr) (i : ℕ) → IsTold m → (m.slots i).in_use ≡ true → IsTold (tick_playing m i)
unfolding tick_playing
tick_playing-IsTold m i v u = elim (Bool-cases (not (m.slots i).notified && m.has_online)) [
  | inl n ↦
      rw (tick_playing, n)
        (online_at m i _ _ ((v.each i).placed u) v (in_place m i _ v u refl refl)
          (ground (arith, n)) refl)
  | inr n ↦ rw (tick_playing, n) (kept m i _ v refl refl (ground (arith, n, v.online)))
]

tick_lost-IsTold :
    (m : Mgr) (i : ℕ) (st : Status)
    → IsTold m
    → (m.slots i).in_use ≡ true
    → IsTold (tick_lost m i st)
unfolding tick_lost
tick_lost-IsTold m i st v u = elim (Bool-cases ((m.slots i).notified && m.has_offline)) [
  | inl n ↦
      rw (tick_lost, n)
        (offline_at m i _ _ ((v.each i).placed u) v (in_place m i _ v u refl refl)
          (ground (arith, n)) refl)
  | inr n ↦ rw (tick_lost, n) (kept m i _ v refl refl (ground (arith, n, v.offline)))
]

tick_retry-IsTold : (m : Mgr) (i now : ℕ) → IsTold m → IsTold (tick_retry m i now)
unfolding tick_retry is_quiet
tick_retry-IsTold m i now v = elim (Bool-cases (leb (m.slots i).next_retry now)) [
  | inl e ↦
      rw (tick_retry, e)
        (call-IsTold _ (stream_start (m.slots i).d.chn)
          (call-IsTold _ (stream_stop (m.slots i).d.chn) (kept m i _ v refl refl refl) refl) refl)
  | inr e ↦ rw (tick_retry, e) v
]

tick_state-IsTold :
    (m : Mgr) (i now : ℕ) (st : StreamState)
    → IsTold m
    → (m.slots i).in_use ≡ true
    → IsTold (tick_state m i now st)
unfolding tick_state
tick_state-IsTold m i now st_idle v u = v
tick_state-IsTold m i now st_connecting v u = kept m i _ v refl refl refl
tick_state-IsTold m i now st_playing v u = tick_playing-IsTold m i v u
tick_state-IsTold m i now st_nosignal v u =
    tick_retry-IsTold _ i now (tick_lost-IsTold m i nosignal v u)
tick_state-IsTold m i now st_fail v u = tick_retry-IsTold _ i now (tick_lost-IsTold m i fail v u)

tick_slot-IsTold :
    (e : World) (m : Mgr) (i : ℕ) → IsTold m → (m.slots i).in_use ≡ true → IsTold (tick_slot e m i)
unfolding tick_slot
tick_slot-IsTold e m i v u =
    let r = tick_url-IsTold e.get_url m i v in
    elim (Bool-cases (is_disabled (m.slots i).status)) [
      | inl b ↦ rw (tick_slot, b) v
      | inr b ↦
          rw (tick_slot, b) (tick_state-IsTold _ i e.now (e.state (m.slots i).d.chn) r.0 (r.1 ∙ u))
    ]

tick_slots-IsTold : (e : World) (n : ℕ) (m : Mgr) (i : ℕ) → IsTold m → IsTold (tick_slots e m i n)
unfolding tick_slots
tick_slots-IsTold e zero m i v = v
tick_slots-IsTold e (suc n) m i v = tick_slots-IsTold e n _ (i + 1) one
  where
    one : IsTold (if (m.slots i).in_use then tick_slot e m i else m)
    one = elim (Bool-cases (m.slots i).in_use) [
      | inl u ↦ rw (u) (tick_slot-IsTold e m i v u)
      | inr u ↦ rw (u) v
    ]

pub tick-IsTold : (e : World) (m : Mgr) → IsTold m → IsTold (tick e m)
unfolding tick
tick-IsTold e m v = tick_slots-IsTold e max_ch m 0 v
