-- ===== src/App/RecordSched/Burst.antt =====
-- app/record_sched/nvr_record_sched.c: triggers that come while an event goes on.
use nt.Prelude.{
  ℕ, ◌+◌, ◌<◌, ◌≡◌, refl, sym, ap, subst, ◌∙◌, inl, inr, arith, List, [], ◌∷◌, Bool, true, false,
  Bool-cases, ltb, ◌==◌, ◌&&◌, if◌then◌else◌, All, some, u32, ◌%◌,
}
use nt.Prelude.Int.{ℤ}
use nt.App.RecordSched.{
  Sched, RecChn, CloudEvent, put_ch, register, make_event_id, trigger_chn, trigger_event,
  sched_tick, expire, ch_of,
}

-- At each time the tick of that second runs, then a trigger comes, with the time that its caller says
-- the event began, 0 for now: the ids that are answered.
unfoldable pub burst : List (ℕ × ℕ) → Sched → ℤ → ℕ → List ℕ × Sched
burst [] r chn rectype = ([], r)
burst ((now, start) ∷ times) r chn rectype =
    let (id, r1) = trigger_event now (sched_tick now r) chn rectype start in
    let (ids, r2) = burst times r1 chn rectype in (id ∷ ids, r2)

-- Each time comes before the window that the one before it opened, of `post` seconds, has passed.
unfoldable pub Within : ℕ → ℕ → List (ℕ × ℕ) → Type 0
Within post until [] = Unit {0}
Within post until ((now, start) ∷ times) = (now < until) × Within post (now + post) times

-- An event of type `rectype` and id `id` goes on until `until`.
record Open (c : RecChn) (rectype id until : ℕ) : Type 0 where
  pub used : c.in_use ≡ true
  pub active : c.evt_active ≡ true
  pub kind : c.evt_rectype ≡ rectype
  pub same : c.evt_id ≡ id
  pub till : c.evt_until ≡ until

-- A tick before the end of the window leaves the channel alone.
tick-Open :
    (r : Sched) (now i rectype id until : ℕ)
    → now < until
    → Open (r.ch i) rectype id until
    → (sched_tick now r).ch i ≡ r.ch i
unfolding sched_tick
tick-Open r now i rectype id until lt o = elim (Bool-cases (ltb i 32)) [
  | inl e ↦ rw (sched_tick, e) (kept (r.ch i) o)
  | inr e ↦ rw (sched_tick, e) refl
]
  where
    kept : (c : RecChn) → Open c rectype id until → expire now c ≡ c
    kept c o = ground (arith, o.active, o.till, lt)

true_branch {ℓ} : {A : Type ℓ} (b : Bool) (x y : A) → b ≡ true → (if b then x else y) ≡ x
true_branch true x y e = refl
true_branch false x y e = absurd (ground (arith, e))

false_branch {ℓ} : {A : Type ℓ} (b : Bool) (x y : A) → b ≡ false → (if b then x else y) ≡ y
false_branch true x y e = absurd (ground (arith, e))
false_branch false x y e = refl

-- A trigger of the same type answers the same id, registers nothing and moves the window's end.
trigger-Open :
    (r : Sched) (chn : ℤ) (now start i rectype id until : ℕ)
    → ch_of chn ≡ some i
    → Open (r.ch i) rectype id until
    → trigger_event now r chn rectype start
      ≡ (id, put_ch r i (record (r.ch i) { evt_until = now + r.post_record_s }))
unfolding trigger_event trigger_chn
trigger-Open r chn now start i rectype id until e o =
    rw (trigger_event, e) (true_branch _ _ _ o.used ∙ true_branch _ _ _ both ∙ pair o.same)
  where
    both : ((r.ch i).evt_active && (r.ch i).evt_rectype == rectype) ≡ true
    both = ground (arith, o.active, o.kind)

    pair :
        (r.ch i).evt_id ≡ id
        → ◌≡◌ {A = ℕ × Sched}
            ((r.ch i).evt_id, put_ch r i (record (r.ch i) { evt_until = now + r.post_record_s }))
            (id, put_ch r i (record (r.ch i) { evt_until = now + r.post_record_s }))
    pair h =
        ap {A = ℕ} {B = ℕ × Sched}
          (λ n. (n, put_ch r i (record (r.ch i) { evt_until = now + r.post_record_s }))) h

extended :
    (c : RecChn) (rectype id until new : ℕ)
    → Open c rectype id until
    → Open (record c { evt_until = new }) rectype id new
extended c rectype id until new o = record {
  used = o.used;
  active = o.active;
  kind = o.kind;
  same = o.same;
  till = refl;
}

put_ch_self : (r : Sched) (i : ℕ) (c : RecChn) → (put_ch r i c).ch i ≡ c
put_ch_self r i c = ground arith

burst-cons :
    (now start : ℕ) (times : List (ℕ × ℕ)) (r r1 : Sched) (chn : ℤ) (rectype id : ℕ)
    → trigger_event now (sched_tick now r) chn rectype start ≡ (id, r1)
    → burst ((now, start) ∷ times) r chn rectype
      ≡ (id ∷ (burst times r1 chn rectype).0, (burst times r1 chn rectype).1)
unfolding burst
burst-cons now start times r r1 chn rectype id e =
    ap {A = ℕ × Sched} {B = List ℕ × Sched}
      (λ x. (x.0 ∷ (burst times x.1 chn rectype).0, (burst times x.1 chn rectype).1)) e

burst-Open :
    (times : List (ℕ × ℕ)) (r : Sched) (chn : ℤ) (i rectype id until : ℕ)
    → ch_of chn ≡ some i
    → Open (r.ch i) rectype id until
    → Within r.post_record_s until times
    → All (λ x. x ≡ id) (burst times r chn rectype).0
      × ((burst times r chn rectype).1.begun ≡ r.begun)
unfolding Within sched_tick
burst-Open [] r chn i rectype id until e o w = unfold burst in (tt, refl)
burst-Open ((now, start) ∷ times) r chn i rectype id until e o w =
    let o1 =
      subst (λ c. Open c rectype id until) (sym (tick-Open r now i rectype id until w.0 o)) o in
    let r1 =
      put_ch (sched_tick now r) i
        (record ((sched_tick now r).ch i) { evt_until = now + r.post_record_s }) in
    let rest = burst-Open times r1 chn i rectype id (now + r.post_record_s) e (own o1) w.1 in
    rw
      (burst-cons now start times r r1 chn rectype id
        (trigger-Open (sched_tick now r) chn now start i rectype id until e o1))
      ((refl, rest.0), rest.1)
  where
    own :
        Open ((sched_tick now r).ch i) rectype id until
        → Open
            ((put_ch
                (sched_tick now r)
                i
                (record ((sched_tick now r).ch i) { evt_until = now + r.post_record_s })).ch
              i)
            rectype
            id
            (now + r.post_record_s)
    own o1 =
        subst (λ c. Open c rectype id (now + r.post_record_s))
          (sym (put_ch_self (sched_tick now r) i _))
          (extended _ rectype id until (now + r.post_record_s) o1)

-- What a first trigger makes of its channel.
record Opened (r1 : Sched) (i rectype id until post : ℕ) : Type 0 where
  pub evt : Open (r1.ch i) rectype id until
  pub post_s : r1.post_record_s ≡ post

trigger-Opened :
    (r : Sched) (chn : ℤ) (now start i rectype : ℕ)
    → ch_of chn ≡ some i
    → (r.ch i).in_use ≡ true
    → (r.ch i).evt_active ≡ false
    → Opened
        (trigger_event now r chn rectype start).1
        i
        rectype
        (trigger_event now r chn rectype start).0
        (now + r.post_record_s)
        r.post_record_s
unfolding trigger_event trigger_chn
trigger-Opened r chn now start i rectype e u a =
    subst (λ x. Opened x.1 i rectype x.0 (now + r.post_record_s) r.post_record_s) (sym first) opened
  where
    began : ℕ
    began = if start == 0 then u32 now else start

    id : ℕ
    id = make_event_id i began rectype (now % 65536)

    r1 : Sched
    r1 = register r (record { event_id = id; chn = i; rectype = rectype; starttime = began })

    c1 : RecChn
    c1 = record (r.ch i) {
      evt_active = true;
      evt_rectype = rectype;
      evt_id = id;
      evt_start = began;
      evt_until = now + r.post_record_s;
    }

    off : ((r.ch i).evt_active && (r.ch i).evt_rectype == rectype) ≡ false
    off = ground (arith, a)

    first : trigger_event now r chn rectype start ≡ (id, put_ch r1 i c1)
    first = rw (trigger_event, e) (true_branch _ _ _ u ∙ false_branch _ _ _ off)

    post_kept :
        (b : Bool) (e : CloudEvent)
        → (if b then record r { begun = e ∷ r.begun } else r).post_record_s ≡ r.post_record_s
    post_kept true e = refl
    post_kept false e = refl

    opened : Opened (put_ch r1 i c1) i rectype id (now + r.post_record_s) r.post_record_s
    opened = record {
      evt =
          subst (λ c. Open c rectype id (now + r.post_record_s)) (sym (put_ch_self r1 i c1))
            (record { used = u; active = refl; kind = refl; same = refl; till = refl });
      post_s = post_kept _ _;
    }

-- A channel in use with no event going on is triggered, and again and again by events of the same
-- type, the tick of that time before each, never later than the post-record window that the trigger
-- before it opened: each trigger answers the id of the first, and only the first may register a cloud
-- event. What the callers say of when the events began does not matter.
pub burst-one_event :
    (times : List (ℕ × ℕ)) (now start : ℕ) (r : Sched) (chn : ℤ) (i rectype : ℕ)
    → ch_of chn ≡ some i
    → (r.ch i).in_use ≡ true
    → (r.ch i).evt_active ≡ false
    → Within r.post_record_s (now + r.post_record_s) times
    → All
        (λ x. x ≡ (trigger_event now r chn rectype start).0)
        (burst times (trigger_event now r chn rectype start).1 chn rectype).0
      × ((burst times (trigger_event now r chn rectype start).1 chn rectype).1.begun
          ≡ (trigger_event now r chn rectype start).1.begun)
burst-one_event times now start r chn i rectype e u a w =
    let o = trigger-Opened r chn now start i rectype e u a in
    burst-Open times (trigger_event now r chn rectype start).1 chn i rectype _
      (now + r.post_record_s) e o.evt
      (subst (λ p. Within p (now + r.post_record_s) times) (sym o.post_s) w)
