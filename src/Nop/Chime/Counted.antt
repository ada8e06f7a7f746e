-- ===== src/Nop/Chime/Counted.antt =====
-- components/nop/src/services/svc_chime.c: the number of chimes is the number of slots in use.
use nt.Prelude.{
  ℕ, zero, suc, ◌+◌, ◌-◌, ◌≤◌, ◌<◌, ◌≡◌, refl, ap, subst, ◌∙◌, ◌⊎◌, ◌&&◌, leb, inl, inr, arith,
  List, [], ◌∷◌, Bool, true, false, Option, none, some, Option-cases, Bool-cases, if◌then◌else◌,
  length, set,
}
use nt.Prelude.Int.{ℤ}
use nt.Nop.Chime.{
  Chime, ChimeEntry, ChimeId, PairState, pair_idle, pairing, pair_done, find_from, chime_find,
  free_from, has_id, admit, chime_offer, chime_refresh, pair_start, pair_stop, pair_status,
  chime_set, chime_remove, retune, slot_at, no_id,
}

abbrev pub is_used : Option ChimeEntry → Bool
is_used none = false
is_used (some e) = true

-- The number of slots in use.
abbrev pub used : List (Option ChimeEntry) → ℕ
used [] = 0
used (s ∷ ss) = (if is_used s then 1 else 0) + used ss

pub record IsCounted (c : Chime) : Type 0 where
  pub counted : c.count ≡ used c.slots

used-set :
    (ss : List (Option ChimeEntry)) (j : ℕ) (s : Option ChimeEntry)
    → j < length ss
    → used (set ss j s) + (if is_used (slot_at ss j) then 1 else 0)
      ≡ used ss + (if is_used s then 1 else 0)
used-set [] j s h = absurd (omega arith)
used-set (t ∷ ss) zero s h = omega arith
used-set (t ∷ ss) (suc j) s h = omega (arith, used-set ss j s (omega arith))

used-length : (ss : List (Option ChimeEntry)) → used ss ≤ length ss
used-length [] = omega arith
used-length (none ∷ ss) = omega (arith, used-length ss)
used-length (some e ∷ ss) = omega (arith, used-length ss)

-- What a search finds is a slot in use.
record Found (ss : List (Option ChimeEntry)) (i k : ℕ) (b : Bool) : Type 0 where
  pub at : ℕ
  pub place : k ≡ i + at
  pub inside : at < length ss
  pub kind : is_used (slot_at ss at) ≡ b

later :
    (s : Option ChimeEntry) (ss : List (Option ChimeEntry)) (i k : ℕ) (b : Bool)
    → Found ss (i + 1) k b
    → Found (s ∷ ss) i k b
later s ss i k b f = record {
  at = suc f.at;
  place = omega (arith, f.place);
  inside = omega (arith, f.inside);
  kind = f.kind;
}

find_from-Found :
    (ss : List (Option ChimeEntry)) (id : ChimeId) (i k : ℕ)
    → find_from ss id i ≡ some k
    → Found ss i k true
unfolding find_from
find_from-Found [] id i k e = absurd (ground arith)
find_from-Found (none ∷ ss) id i k e = later none ss i k true (find_from-Found ss id (i + 1) k e)
find_from-Found (some x ∷ ss) id i k e = elim (Bool-cases (has_id (some x) id)) [
  | inl h ↦ record { at = 0; place = ground (arith, e, h); inside = omega arith; kind = refl }
  | inr h ↦ later (some x) ss i k true (find_from-Found ss id (i + 1) k (ground (arith, e, h)))
]

free_from-Found :
    (ss : List (Option ChimeEntry)) (i k : ℕ) → free_from ss i ≡ some k → Found ss i k false
unfolding free_from
free_from-Found [] i k e = absurd (ground arith)
free_from-Found (none ∷ ss) i k e = record {
  at = 0;
  place = ground (arith, e);
  inside = omega arith;
  kind = refl;
}
free_from-Found (some x ∷ ss) i k e = later (some x) ss i k false (free_from-Found ss (i + 1) k e)

-- A slot that was found is filled, emptied or changed.
refilled :
    (ss : List (Option ChimeEntry)) (k : ℕ) (b : Bool) (s : Option ChimeEntry)
    → Found ss 0 k b
    → used (set ss k s) + (if b then 1 else 0) ≡ used ss + (if is_used s then 1 else 0)
refilled ss k b s f =
    subst (λ j. used (set ss j s) + (if b then 1 else 0) ≡ used ss + (if is_used s then 1 else 0))
      (omega (arith, f.place))
      (subst
        (λ c. used (set ss f.at s) + (if c then 1 else 0) ≡ used ss + (if is_used s then 1 else 0))
        f.kind (used-set ss f.at s f.inside))

chime_find-Found :
    (c : Chime) (id : ChimeId) (i : ℕ) → chime_find c id ≡ some i → Found c.slots 0 i true
unfolding chime_find
chime_find-Found c id i e = elim (Bool-cases (no_id id)) [
  | inl n ↦ absurd (ground (arith, e, n))
  | inr n ↦ find_from-Found c.slots id 0 i (ground (arith, e, n))
]

admit-IsCounted : (c : Chime) (e : ChimeEntry) → IsCounted c → IsCounted (admit c e).1
unfolding admit
admit-IsCounted c e v = elim (Option-cases (chime_find c e.id)) [
  | inr (i, f) ↦
      rw (admit, f)
        (record {
          counted =
              omega
                (arith, v.counted, refilled c.slots i true (some e) (chime_find-Found c e.id i f));
        })
  | inl f ↦ elim (Option-cases (free_from c.slots 0)) [
    | inl g ↦ rw (admit, f, g) v
    | inr (i, g) ↦
        rw (admit, f, g)
          (record {
            counted = omega (
              arith,
              v.counted,
              refilled c.slots i false (some e) (free_from-Found c.slots 0 i g),
            );
          })
  ]
]

State-cases : (s : PairState) → (s ≡ pair_idle) ⊎ (s ≡ pairing) ⊎ (s ≡ pair_done)
State-cases pair_idle = inl refl
State-cases pairing = inr (inl refl)
State-cases pair_done = inr (inr refl)

refresh-IsCounted : (c : Chime) (now : ℕ) → IsCounted c → IsCounted (chime_refresh c now)
unfolding chime_refresh
refresh-IsCounted c now v = elim (State-cases c.state) [
  | inl e ↦ rw (chime_refresh, e) v
  | inr (inr e) ↦ rw (chime_refresh, e) v
  | inr (inl e) ↦
      elim (Bool-cases (leb c.window_start_ms now && leb c.window_ms (now - c.window_start_ms))) [
        | inl b ↦ rw (chime_refresh, e, b) (record { counted = v.counted })
        | inr b ↦ rw (chime_refresh, e, b) v
      ]
]

-- An operation of the registry at a time, with the second reading of the clock where there is one.
pub data ChimeOp : Type 0 where
  op_pair_start : ℕ → ℕ → ℤ → ChimeOp
  op_pair_stop : ChimeOp
  op_pair_status : ℕ → ChimeOp
  op_offer : ℕ → ChimeEntry → ChimeOp
  op_set : ChimeId → ℕ → ℕ → ChimeOp
  op_chime_remove : ChimeId → ChimeOp

unfoldable pub run_chime : ChimeOp → Chime → Chime
run_chime (op_pair_start now start secs) c = (pair_start c now start secs).1
run_chime op_pair_stop c = pair_stop c
run_chime (op_pair_status now) c = (pair_status c now).1
run_chime (op_offer now e) c = (chime_offer c now e).1
run_chime (op_set id volume tone) c = (chime_set c id volume tone).1
run_chime (op_chime_remove id) c = (chime_remove c id).1

pair_start-IsCounted :
    (c : Chime) (now start : ℕ) (secs : ℤ) → IsCounted c → IsCounted (pair_start c now start secs).1
unfolding pair_start
pair_start-IsCounted c now start secs v =
    let r = refresh-IsCounted c now v in
    elim (State-cases (chime_refresh c now).state) [
      | inl e ↦ rw (pair_start, e) (record { counted = r.counted })
      | inr (inr e) ↦ rw (pair_start, e) (record { counted = r.counted })
      | inr (inl e) ↦ rw (pair_start, e) r
    ]

chime_offer-IsCounted :
    (c : Chime) (now : ℕ) (e : ChimeEntry) → IsCounted c → IsCounted (chime_offer c now e).1
unfolding chime_offer
chime_offer-IsCounted c now e v =
    let r = refresh-IsCounted c now v in
    elim (Bool-cases (no_id e.id)) [
      | inl n ↦ rw (chime_offer, n) v
      | inr n ↦ elim (State-cases (chime_refresh c now).state) [
        | inl s ↦ rw (chime_offer, n, s) r
        | inr (inr s) ↦ rw (chime_offer, n, s) r
        | inr (inl s) ↦ rw (chime_offer, n, s) (admit-IsCounted (chime_refresh c now) e r)
      ]
    ]

chime_set-IsCounted :
    (c : Chime) (id : ChimeId) (volume tone : ℕ)
    → IsCounted c
    → IsCounted (chime_set c id volume tone).1
unfolding chime_set
chime_set-IsCounted c id volume tone v = elim (Option-cases (chime_find c id)) [
  | inl f ↦ rw (chime_set, f) v
  | inr (i, f) ↦
      let k = chime_find-Found c id i f in
      rw (chime_set, f)
        (record {
          counted =
              v.counted
              ∙ same (used (set c.slots i (retune (slot_at c.slots i) volume tone))) (used c.slots)
                  _ (refilled c.slots i true _ k) (still k);
        })
]
  where
    retuned : (s : Option ChimeEntry) → is_used (retune s volume tone) ≡ is_used s
    retuned none = refl
    retuned (some e) = refl

    still :
        {i : ℕ} → Found c.slots 0 i true → is_used (retune (slot_at c.slots i) volume tone) ≡ true
    still {i} k =
        retuned (slot_at c.slots i)
        ∙ ap (λ j. is_used (slot_at c.slots j)) (omega (arith, k.place))
        ∙ k.kind

    same : (a b : ℕ) (t : Bool) → a + 1 ≡ b + (if t then 1 else 0) → t ≡ true → b ≡ a
    same a b t h e = ground (arith, h, e)

chime_remove-IsCounted : (c : Chime) (id : ChimeId) → IsCounted c → IsCounted (chime_remove c id).1
unfolding chime_remove
chime_remove-IsCounted c id v = elim (Option-cases (chime_find c id)) [
  | inl f ↦ rw (chime_remove, f) v
  | inr (i, f) ↦
      rw (chime_remove, f)
        (record {
          counted =
              omega (arith, v.counted, refilled c.slots i true none (chime_find-Found c id i f));
        })
]

-- Every operation of the chime registry, at any time, keeps it true that the count is the number of
-- slots in use.
pub run_chime-IsCounted : (o : ChimeOp) (c : Chime) → IsCounted c → IsCounted (run_chime o c)
unfolding run_chime pair_stop pair_status
run_chime-IsCounted (op_pair_start now start secs) c v = pair_start-IsCounted c now start secs v
run_chime-IsCounted op_pair_stop c v = record { counted = v.counted }
run_chime-IsCounted (op_pair_status now) c v = refresh-IsCounted c now v
run_chime-IsCounted (op_offer now e) c v = chime_offer-IsCounted c now e v
run_chime-IsCounted (op_set id volume tone) c v = chime_set-IsCounted c id volume tone v
run_chime-IsCounted (op_chime_remove id) c v = chime_remove-IsCounted c id v
