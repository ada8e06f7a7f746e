-- ===== src/App/Channel/Backoff.antt =====
-- app/channel/nvr_channel.c: how long the reconnections of a slot wait.
use nt.Prelude.{
  ℕ, ◌+◌, ◌*◌, ◌≤◌, ◌<◌, ◌≡◌, refl, ap, ◌∙◌, inl, inr, arith, List, [], ◌∷◌, true, false, min, All,
  ap₂, subst, Bool-cases, ◌&&◌, leb,
}
use nt.App.Channel.{st_fail, Mgr, fail, Call, stream_start}
use nt.App.Channel.Tick.{tick_lost, tick_retry, tick_state, next_backoff}

-- The ticks of one slot while its stream stays lost, one for each reading of the clock.
unfoldable pub lost_ticks : List ℕ → Mgr → ℕ → Mgr
lost_ticks [] m i = m
lost_ticks (now ∷ later) m i = lost_ticks later (tick_state m i now st_fail) i

-- How often the calls so far, newest first, ask the stream manager to start a stream.
unfoldable pub starts : List Call → ℕ
starts [] = 0
starts (stream_start chn ∷ cs) = starts cs + 1
starts (c ∷ cs) = starts cs

tick_lost-fields :
    (m : Mgr) (i : ℕ)
    → (((tick_lost m i fail).slots i).backoff ≡ (m.slots i).backoff)
      × (((tick_lost m i fail).slots i).next_retry ≡ (m.slots i).next_retry)
      × ((tick_lost m i fail).max_s ≡ m.max_s)
      × (starts (tick_lost m i fail).calls ≡ starts m.calls)
unfolding tick_lost starts
tick_lost-fields m i = elim (Bool-cases ((m.slots i).notified && m.has_offline)) [
  | inl e ↦ rw (tick_lost, e) (ground arith, ground arith, refl, refl)
  | inr e ↦ rw (tick_lost, e) (ground arith, ground arith, refl, refl)
]

retry_now :
    (m : Mgr) (i now : ℕ)
    → leb (m.slots i).next_retry now ≡ true
    → (((tick_retry m i now).slots i).backoff ≡ next_backoff m.max_s (m.slots i).backoff)
      × (((tick_retry m i now).slots i).next_retry ≡ now + (m.slots i).backoff)
      × ((tick_retry m i now).max_s ≡ m.max_s)
      × (starts (tick_retry m i now).calls ≡ starts m.calls + 1)
unfolding tick_retry starts
retry_now m i now e = rw (tick_retry, e) (ground arith, ground arith, refl, refl)

retry_later :
    (m : Mgr) (i now : ℕ)
    → leb (m.slots i).next_retry now ≡ false
    → (((tick_retry m i now).slots i).backoff ≡ (m.slots i).backoff)
      × (((tick_retry m i now).slots i).next_retry ≡ (m.slots i).next_retry)
      × ((tick_retry m i now).max_s ≡ m.max_s)
      × (starts (tick_retry m i now).calls ≡ starts m.calls)
unfolding tick_retry starts
retry_later m i now e = rw (tick_retry, e) (refl, refl, refl, refl)

-- What one tick of a lost slot does to its times, and whether it starts the stream.
data Lost (m m' : Mgr) (i now : ℕ) : Type 0 where
  retried :
      (m.slots i).next_retry ≤ now
      → (m'.slots i).backoff ≡ next_backoff m.max_s (m.slots i).backoff
      → (m'.slots i).next_retry ≡ now + (m.slots i).backoff
      → m'.max_s ≡ m.max_s
      → starts m'.calls ≡ starts m.calls + 1
      → Lost m m' i now
  waited :
      now < (m.slots i).next_retry
      → (m'.slots i).backoff ≡ (m.slots i).backoff
      → (m'.slots i).next_retry ≡ (m.slots i).next_retry
      → m'.max_s ≡ m.max_s
      → starts m'.calls ≡ starts m.calls
      → Lost m m' i now

tick_state-Lost : (m : Mgr) (i now : ℕ) → Lost m (tick_state m i now st_fail) i now
unfolding tick_state
tick_state-Lost m i now =
    let f = tick_lost-fields m i in
    let l = tick_lost m i fail in
    elim (Bool-cases (leb (l.slots i).next_retry now)) [
      | inl e ↦
          let r = retry_now l i now e in
          retried (ground (arith, e, f.1)) (r.0 ∙ ap₂ next_backoff f.2 f.0)
            (r.1 ∙ ap (λ b. now + b) f.0) (r.2 ∙ f.2) (r.3 ∙ ap (λ n. n + 1) f.3)
      | inr e ↦
          let r = retry_later l i now e in
          waited (ground (arith, e, f.1)) (r.0 ∙ f.0) (r.1 ∙ f.1) (r.2 ∙ f.2) (r.3 ∙ f.3)
    ]

rate_step :
    (b f r next next' t now : ℕ)
    → next ≤ now
    → now ≤ t
    → now + b ≤ next'
    → b * f + min next' (t + b) ≤ b * (r + 1) + (t + b)
    → b * f + min next (t + b) ≤ b * r + (t + b)
rate_step b f r next next' t now h1 h2 h3 h4 = omega arith

-- While a stream stays lost, the ticks of its slot do not start it more often than once in `b`
-- seconds, where `b` is at most the present backoff and the configured maximum: whatever the clock
-- reads, if no reading is later than `t`, then `b` seconds for each start of a stream that these ticks
-- call for but the first, from the time the slot waits for, end by `t`.
pub lost_ticks-rate :
    (clock : List ℕ) (m : Mgr) (i b t : ℕ)
    → b ≤ (m.slots i).backoff
    → b ≤ m.max_s
    → All (λ now. now ≤ t) clock
    → b * starts (lost_ticks clock m i).calls + min (m.slots i).next_retry (t + b)
      ≤ b * starts m.calls + (t + b)
unfolding lost_ticks
lost_ticks-rate [] m i b t hb hm c = omega arith
lost_ticks-rate (now ∷ later) m i b t hb hm c =
    let m' = tick_state m i now st_fail in
    let last = starts (lost_ticks later m' i).calls in
    elim (tick_state-Lost m i now) [
      | retried r e1 e2 e3 e4 ↦
          let rest =
            lost_ticks-rate later m' i b t (ground (arith, e1, hb, hm)) (omega (arith, e3)) c.1 in
          rate_step b last (starts m.calls) _ (m'.slots i).next_retry t now r c.0
            (omega (arith, e2))
            (subst (λ n. b * last + min (m'.slots i).next_retry (t + b) ≤ b * n + (t + b)) e4 rest)
      | waited r e1 e2 e3 e4 ↦
          let rest = lost_ticks-rate later m' i b t (omega (arith, e1)) (omega (arith, e3)) c.1 in
          subst (λ x. b * last + min x (t + b) ≤ b * starts m.calls + (t + b)) e2
            (subst (λ n. b * last + min (m'.slots i).next_retry (t + b) ≤ b * n + (t + b)) e4 rest)
    ]
