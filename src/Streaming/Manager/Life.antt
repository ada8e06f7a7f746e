-- ===== src/Streaming/Manager/Life.antt =====
-- components/streaming/src/stream_mgr.cpp: what holds of every channel, whatever is called on the manager.
use nt.Prelude.{
  true, sym, ap, ◌∙◌, ==_iff, ◌||◌, ◌&&◌, if_both, if_split, ℕ, zero, suc, ◌≤◌, ◌<◌, ◌≡◌, refl,
  subst, take, inl, inr, arith, List, [], ◌∷◌, Bool, false, Option, none, some, Option-cases,
  Bool-cases, ltb, ◌==◌, if◌then◌else◌,
}
use nt.Prelude.Text.{Str}
use nt.Recorder.Types.{Err}
use nt.Streaming.Router.{ChanCfg, Chan}
use nt.Streaming.Manager.{
  World, Manager, max_ch, slot, put, Callback, call_back, puller_start, puller_stop, add_channel,
  stream_start, stream_stop, start_from, stop_from, start_all, stop_all, switch_stream, set_record,
  fresh_chan, mgr_init, same,
}
use nt.Streaming.Manager.Tidy.{
  IsTidy, puller_start-IsTidy, puller_stop-IsTidy, call_back-IsTidy, fresh-IsTidy,
  configured-IsTidy,
}

-- A call on the manager, or what a client calls back.
pub data Op : Type 0 where
  op_add : ChanCfg → Op
  op_start op_stop : ℕ → Op
  op_start_all op_stop_all : Op
  op_switch : ℕ → ℕ → Option Str → Op
  op_record : ℕ → Bool → Op
  op_back : ℕ → Callback → Op

-- The manager, and the channels of which a client goes on that the manager has forgotten: a channel
-- that is added again while its client runs. Such a client is never stopped.
pub record Scene (G W : Type 0) : Type 0 where
  pub mgr : Manager G W
  pub leaked : ℕ → Bool

module _ {G W : Type 0} where
  abbrev pub runs : Manager G W → ℕ → Bool
  runs m chn = elim (slot m chn) [ none ↦ false | some c ↦ c.puller ]

  abbrev pub leaks : Manager G W → (ℕ → Bool) → ℕ → ℕ → Bool
  leaks m l chn i = l i || i == chn && runs m chn

module _ {G W : Type 0} (world : World G W) where
  -- A channel without a client is not called back, unless by one that was forgotten.
  unfoldable pub deliver : Callback → ℕ → (ℕ → Bool) → Manager G W → Manager G W
  deliver b chn leaked m = elim (slot m chn) [
    | none ↦ m
    | some c ↦ if c.puller || leaked chn then put m chn (call_back world b c m.group) else m
  ]

  unfoldable pub run_op : Op → Scene G W → Scene G W
  unfolding deliver
  run_op (op_add cfg) s = record {
    mgr = (add_channel s.mgr cfg).1;
    leaked = leaks s.mgr s.leaked cfg.chn;
  }
  run_op (op_start chn) s = record s { mgr = (stream_start world s.mgr chn).1 }
  run_op (op_stop chn) s = record s { mgr = (stream_stop world s.mgr chn).1 }
  run_op op_start_all s = record s { mgr = start_all world s.mgr }
  run_op op_stop_all s = record s { mgr = stop_all world s.mgr }
  run_op (op_switch chn stream url) s = record s {
    mgr = (switch_stream world s.mgr chn stream url).1;
  }
  run_op (op_record chn on) s = record s { mgr = (set_record world s.mgr chn on).1 }
  run_op (op_back chn b) s = record s { mgr = deliver b chn s.leaked s.mgr }

  unfoldable pub run_ops : List Op → Scene G W → Scene G W
  run_ops [] s = s
  run_ops (op ∷ ops) s = run_ops ops (run_op op s)

-- A channel is tidy, unless it was forgotten or never added.
pub HoldsTidy : {W : Type 0} → Bool → Option (Chan W) → Type 0
HoldsTidy true o = Unit {0}
HoldsTidy false none = Unit {0}
HoldsTidy false (some c) = IsTidy c

-- Every channel that was added, and not added again while its client ran, is tidy, and none is there
-- from the sixteenth on.
pub record AllTidy {G W : Type 0} (leaked : ℕ → Bool) (m : Manager G W) : Type 0 where
  pub tidy : (i : ℕ) → HoldsTidy (leaked i) (m.ch i)
  pub inside : (i : ℕ) → max_ch ≤ i → m.ch i ≡ none

abbrev SecondTidy : {G W : Type 0} → (ℕ → Bool) → Err × Manager G W → Type 0
SecondTidy l p = AllTidy l p.1

HoldsTidy-some :
    {W : Type 0} (b : Bool) (c : Chan W) → (b ≡ false → IsTidy c) → HoldsTidy b (some c)
unfolding HoldsTidy
HoldsTidy-some true c t = tt
HoldsTidy-some false c t = t refl

module _ {G W : Type 0} (l : ℕ → Bool) where
  put-AllTidy :
      (m : Manager G W) (chn : ℕ) (p : Chan W × G)
      → chn < max_ch
      → (l chn ≡ false → IsTidy p.0)
      → AllTidy l m
      → AllTidy l (put m chn p)
  put-AllTidy m chn p lt t a = record {
    tidy = λ i.
        if_split (HoldsTidy (l i)) (i == chn)
          (λ e. HoldsTidy-some (l i) p.0 (λ f. t (ap l (sym ((==_iff i chn).0 e)) ∙ f)))
          (λ e. a.tidy i);
    inside = λ i le.
        let apart : (i == chn) ≡ false = ground (arith, lt, le) in rw (apart) (a.inside i le);
  }

  slot-IsTidy :
      (m : Manager G W) (chn : ℕ) (c : Chan W)
      → slot m chn ≡ some c
      → AllTidy l m
      → (chn < max_ch) × (l chn ≡ false → IsTidy c)
  unfolding HoldsTidy
  slot-IsTidy m chn c e a = elim (Bool-cases (ltb chn max_ch)) [
    | inl lt ↦
        let there : m.ch chn ≡ some c = ground (arith, e, lt) in
        (
          ground (arith, lt),
          λ f. subst (λ b. HoldsTidy b (some c)) f (subst (HoldsTidy (l chn)) there (a.tidy chn)),
        )
    | inr ge ↦ absurd (ground (arith, e, ge))
  ]

module _ {G W : Type 0} (world : World G W) (l : ℕ → Bool) where
  stream_start-AllTidy :
      (m : Manager G W) (chn : ℕ) → AllTidy l m → AllTidy l (stream_start world m chn).1
  unfolding stream_start
  stream_start-AllTidy m chn a = elim (Option-cases (slot m chn)) [
    | inl e ↦ rw (stream_start, e) a
    | inr (c, e) ↦
        let (lt, t) = slot-IsTidy l m chn c e a in
        let (fine, c', g) = puller_start world c m.group in
        rw (stream_start, e)
          (if_split (SecondTidy l) c.puller (λ p. a)
            (λ p.
              put-AllTidy l m chn (c', g) lt (λ f. puller_start-IsTidy world c m.group p (t f)) a))
  ]

  stream_stop-AllTidy :
      (m : Manager G W) (chn : ℕ) → AllTidy l m → AllTidy l (stream_stop world m chn).1
  unfolding stream_stop
  stream_stop-AllTidy m chn a = elim (Option-cases (slot m chn)) [
    | inl e ↦ rw (stream_stop, e) a
    | inr (c, e) ↦
        let (lt, t) = slot-IsTidy l m chn c e a in
        rw (stream_stop, e)
          (put-AllTidy l m chn (puller_stop world c m.group) lt
            (λ f. puller_stop-IsTidy world c m.group (t f)) a)
  ]

  start_from-AllTidy :
      (i n : ℕ) (m : Manager G W) → AllTidy l m → AllTidy l (start_from world i n m)
  unfolding start_from
  start_from-AllTidy i zero m a = a
  start_from-AllTidy i (suc n) m a =
      start_from-AllTidy (suc i) n (stream_start world m i).1 (stream_start-AllTidy m i a)

  stop_from-AllTidy : (i n : ℕ) (m : Manager G W) → AllTidy l m → AllTidy l (stop_from world i n m)
  unfolding stop_from
  stop_from-AllTidy i zero m a = a
  stop_from-AllTidy i (suc n) m a =
      stop_from-AllTidy (suc i) n (stream_stop world m i).1 (stream_stop-AllTidy m i a)

  switch_stream-AllTidy :
      (m : Manager G W) (chn stream : ℕ) (url : Option Str)
      → AllTidy l m
      → AllTidy l (switch_stream world m chn stream url).1
  unfolding switch_stream
  switch_stream-AllTidy m chn stream url a = elim (Option-cases (slot m chn)) [
    | inl e ↦ rw (switch_stream, e) a
    | inr (c, e) ↦ elim (Option-cases url) [
      | inl f ↦ rw (switch_stream, e, f) a
      | inr (u, f) ↦
          let (lt, t) = slot-IsTidy l m chn c e a in
          let (c', g) = puller_stop world c m.group in
          let cfg = record c'.cfg { stream = stream; url = take 255 u } in
          let t' : l chn ≡ false → IsTidy (record c' { cfg = cfg }) =
            λ f. configured-IsTidy c' cfg (puller_stop-IsTidy world c m.group (t f)) in
          rw (switch_stream, e, f)
            (stream_start-AllTidy (put m chn (record c' { cfg = cfg }, g)) chn
              (put-AllTidy l m chn (record c' { cfg = cfg }, g) lt t' a))
    ]
  ]

  set_record-AllTidy :
      (m : Manager G W) (chn : ℕ) (on : Bool)
      → AllTidy l m
      → AllTidy l (set_record world m chn on).1
  unfolding set_record
  set_record-AllTidy m chn on a = elim (Option-cases (slot m chn)) [
    | inl e ↦ rw (set_record, e) a
    | inr (c, e) ↦
        let (lt, t) = slot-IsTidy l m chn c e a in
        let c1 = record c { cfg = record c.cfg { recording = on } } in
        let t1 : l chn ≡ false → IsTidy c1 = λ f. configured-IsTidy c c1.cfg (t f) in
        let stopped = puller_stop world c1 m.group in
        rw (set_record, e)
          (if_both (SecondTidy l) (same c.cfg.recording on) a (
            if_both (SecondTidy l) c.puller
              (stream_start-AllTidy (put m chn stopped) chn (
                put-AllTidy l m chn stopped lt (λ f. puller_stop-IsTidy world c1 m.group (t1 f)) a))
              (put-AllTidy l m chn (c1, m.group) lt t1 a)))
  ]

  deliver-AllTidy :
      (b : Callback) (chn : ℕ) (m : Manager G W) → AllTidy l m → AllTidy l (deliver world b chn l m)
  unfolding deliver
  deliver-AllTidy b chn m a = elim (Option-cases (slot m chn)) [
    | inl e ↦ rw (deliver, e) a
    | inr (c, e) ↦
        let (lt, t) = slot-IsTidy l m chn c e a in
        rw (deliver, e)
          (if_split (AllTidy l) (c.puller || l chn)
            (λ p.
              put-AllTidy l m chn (call_back world b c m.group) lt
                (λ f. call_back-IsTidy world b c m.group (ground (arith, p, f)) (t f)) a)
            (λ p. a))
  ]

-- A channel that is added is fresh, and forgotten where its client ran.
add-AllTidy :
    {G W : Type 0} (l : ℕ → Bool) (m : Manager G W) (cfg : ChanCfg)
    → AllTidy l m
    → AllTidy (leaks m l cfg.chn) (add_channel m cfg).1
unfolding add_channel
add-AllTidy l m cfg a =
    if_split (SecondTidy (leaks m l cfg.chn)) (ltb cfg.chn max_ch)
      (λ lt.
        put-AllTidy (leaks m l cfg.chn) m cfg.chn (fresh_chan cfg, m.group) (ground (arith, lt))
          (λ f. fresh-IsTidy cfg) more)
      (λ ge. more)
  where
    weaker : {W : Type 0} (x y : Bool) (o : Option (Chan W)) → HoldsTidy x o → HoldsTidy (x || y) o
    weaker true y o t = unfold HoldsTidy in tt
    weaker false true o t = unfold HoldsTidy in tt
    weaker false false o t = t

    more : AllTidy (leaks m l cfg.chn) m
    more = record { tidy = λ i. weaker (l i) _ (m.ch i) (a.tidy i); inside = a.inside }

module _ {G W : Type 0} (world : World G W) where
  run_op-AllTidy :
      (op : Op) (s : Scene G W)
      → AllTidy s.leaked s.mgr
      → AllTidy (run_op world op s).leaked (run_op world op s).mgr
  unfolding run_op start_all stop_all
  run_op-AllTidy (op_add cfg) s a = add-AllTidy s.leaked s.mgr cfg a
  run_op-AllTidy (op_start chn) s a = stream_start-AllTidy world s.leaked s.mgr chn a
  run_op-AllTidy (op_stop chn) s a = stream_stop-AllTidy world s.leaked s.mgr chn a
  run_op-AllTidy op_start_all s a = start_from-AllTidy world s.leaked 0 max_ch s.mgr a
  run_op-AllTidy op_stop_all s a = stop_from-AllTidy world s.leaked 0 max_ch s.mgr a
  run_op-AllTidy (op_switch chn stream url) s a =
      switch_stream-AllTidy world s.leaked s.mgr chn stream url a
  run_op-AllTidy (op_record chn on) s a = set_record-AllTidy world s.leaked s.mgr chn on a
  run_op-AllTidy (op_back chn b) s a = deliver-AllTidy world s.leaked b chn s.mgr a

  run_ops-go :
      (ops : List Op) (s : Scene G W)
      → AllTidy s.leaked s.mgr
      → AllTidy (run_ops world ops s).leaked (run_ops world ops s).mgr
  unfolding run_ops
  run_ops-go [] s a = a
  run_ops-go (op ∷ ops) s a = run_ops-go ops (run_op world op s) (run_op-AllTidy op s a)

unfoldable pub scene0 : {G W : Type 0} → G → Scene G W
scene0 g = record { mgr = mgr_init g; leaked = λ i. false }

scene0-AllTidy : {G W : Type 0} (g : G) → AllTidy (scene0 {W = W} g).leaked (scene0 {W = W} g).mgr
unfolding scene0 mgr_init HoldsTidy
scene0-AllTidy g = record { tidy = λ i. tt; inside = λ i le. refl }

-- From a fresh manager on, after any calls and any callbacks of running clients, of those that the
-- manager has forgotten too, whatever the decoder's driver, the client and the recorder answer: of
-- every channel that was never added again while its client ran, one without a client has neither a
-- decoder nor a writer and is idle or failed, one that records has a writer, and one whose decoding
-- was denied has no decoder; no channel is there from the sixteenth on.
pub run_ops-AllTidy :
    {G W : Type 0} (world : World G W) (ops : List Op) (g : G)
    → AllTidy (run_ops world ops (scene0 g)).leaked (run_ops world ops (scene0 g)).mgr
run_ops-AllTidy world ops g = run_ops-go world ops (scene0 g) (scene0-AllTidy g)
