-- ===== src/Recorder/Group/Pick.antt =====
-- components/recorder/src/rsdk_balance.c: which disk a segment goes to.
use native.Mathlib.Nat.{mod-lt}
use nt.Prelude.{
  ℕ, zero, suc, ◌+◌, ◌%◌, ◌<◌, ◌≡◌, ◌⊎◌, refl, sym, subst, ap, ◌∙◌, inl, inr, arith, List, [], ◌∷◌,
  Bool, true, false, Option, none, some, Bool-cases, ◌==◌, if_split, length, get_elem?, take, All,
}
use nt.Recorder.Device.{Dev}
use nt.Recorder.Group.{Loads, dev_load, best_load, candidates, balance_pick}

module _ {F : Type 0} (l : Loads F) where
  -- A disk of the list, at place `k`, has this load.
  Loaded : List Dev → F → Type 0
  Loaded ds x = (k : ℕ) × (d : Dev) × (get_elem? ds k ≡ some d) × (dev_load l d ≡ x)

  later : (d : Dev) (ds : List Dev) (x : F) → Loaded ds x → Loaded (d ∷ ds) x
  unfolding Loaded
  later d ds x (k, e, at, same) = (suc k, e, at, same)

  -- The best load is the bound or that of a disk.
  best_load-attained :
      (ds : List Dev) (b : F) → (best_load l ds b ≡ b) ⊎ Loaded ds (best_load l ds b)
  unfolding best_load Loaded
  best_load-attained [] b = inl refl
  best_load-attained (d ∷ ds) b = elim (Bool-cases (l.less (dev_load l d) b)) [
    | inl e ↦
        rw (best_load, e)
          (elim (best_load-attained ds (dev_load l d)) [
            | inl same ↦ inr (zero, d, refl, sym same)
            | inr there ↦ inr (later d ds _ there)
          ])
    | inr e ↦
        rw (best_load, e)
          (elim (best_load-attained ds b) [
            | inl same ↦ inl same
            | inr there ↦ inr (later d ds _ there)
          ])
  ]

  -- A candidate is the place of a disk that is as good as the best.
  IsGood : F → List Dev → ℕ → ℕ → Type 0
  IsGood best ds i c =
      (k : ℕ) × (d : Dev) × (c ≡ i + k)
      × (get_elem? ds k ≡ some d)
      × (l.at_most (dev_load l d) (l.add_eps best) ≡ true)

  later-IsGood :
      (best : F) (d : Dev) (ds : List Dev) (i : ℕ) (cs : List ℕ)
      → All (IsGood best ds (suc i)) cs
      → All (IsGood best (d ∷ ds) i) cs
  unfolding IsGood
  later-IsGood best d ds i [] a = tt
  later-IsGood best d ds i (c ∷ cs) ((k, e, same, at, good), a) =
      ((suc k, e, omega arith, at, good), later-IsGood best d ds i cs a)

  here :
      (best : F) (d : Dev) (ds : List Dev) (i : ℕ)
      → l.at_most (dev_load l d) (l.add_eps best) ≡ true
      → IsGood best (d ∷ ds) i i
  unfolding IsGood
  here best d ds i e = (zero, d, omega arith, refl, e)

  candidates-IsGood :
      (best : F) (ds : List Dev) (i : ℕ) → All (IsGood best ds i) (candidates l best ds i)
  unfolding candidates
  candidates-IsGood best [] i = tt
  candidates-IsGood best (d ∷ ds) i =
      let rest = later-IsGood best d ds i _ (candidates-IsGood best ds (suc i)) in
      if_split (All (IsGood best (d ∷ ds) i)) (l.at_most (dev_load l d) (l.add_eps best))
        (λ e. (here best d ds i e, rest)) (λ e. rest)

  candidates-some :
      (best : F) (ds : List Dev) (i k : ℕ) (d : Dev)
      → get_elem? ds k ≡ some d
      → l.at_most (dev_load l d) (l.add_eps best) ≡ true
      → 0 < length (candidates l best ds i)
  unfolding candidates
  candidates-some best [] i k d at good = absurd (ground (arith, at))
  candidates-some best (e ∷ ds) i zero d at good =
      let same : l.at_most (dev_load l e) (l.add_eps best) ≡ true = ap good_of at ∙ good in
      rw (candidates, same) (omega arith)
    where
      good_of : Option Dev → Bool
      good_of none = true
      good_of (some x) = l.at_most (dev_load l x) (l.add_eps best)
  candidates-some best (e ∷ ds) i (suc k) d at good =
      let rest = candidates-some best ds (suc i) k d at good in
      elim (Bool-cases (l.at_most (dev_load l e) (l.add_eps best))) [
        | inl x ↦ rw (candidates, x) (omega arith)
        | inr x ↦ rw (candidates, x) rest
      ]

  -- No disk of the list has a load below this one.
  abbrev pub NoneBelow : List Dev → F → Type 0
  NoneBelow ds m = All (λ d. l.less (dev_load l d) m ≡ false) ds

  module _ (order : (x a b : F) → l.less x b ≡ false → l.less a b ≡ true → l.less x a ≡ false)
      (irreflexive : (x : F) → l.less x x ≡ false) where
    best_load-below :
        (ds : List Dev) (b x : F) → l.less x b ≡ false → l.less x (best_load l ds b) ≡ false
    unfolding best_load
    best_load-below [] b x h = h
    best_load-below (d ∷ ds) b x h = elim (Bool-cases (l.less (dev_load l d) b)) [
      | inl e ↦
          rw (best_load, e) (best_load-below ds (dev_load l d) x (order x (dev_load l d) b h e))
      | inr e ↦ rw (best_load, e) (best_load-below ds b x h)
    ]

    best_load-least : (ds : List Dev) (b : F) → NoneBelow ds (best_load l ds b)
    unfolding best_load
    best_load-least [] b = tt
    best_load-least (d ∷ ds) b = elim (Bool-cases (l.less (dev_load l d) b)) [
      | inl e ↦
          let step : best_load l (d ∷ ds) b ≡ best_load l ds (dev_load l d) =
            rw (best_load, e) refl in
          subst (NoneBelow (d ∷ ds)) (sym step) (
            best_load-below ds (dev_load l d) (dev_load l d) (irreflexive (dev_load l d)),
            best_load-least ds (dev_load l d),
          )
      | inr e ↦
          let step : best_load l (d ∷ ds) b ≡ best_load l ds b = rw (best_load, e) refl in
          subst (NoneBelow (d ∷ ds)) (sym step)
            (best_load-below ds b (dev_load l d) e, best_load-least ds b)
    ]

take-All : (P : ℕ → Type 0) (n : ℕ) (cs : List ℕ) → All P cs → All P (take n cs)
take-All P zero cs a = tt
take-All P (suc n) [] a = tt
take-All P (suc n) (c ∷ cs) (p, a) = (p, take-All P n cs a)

elem-All :
    (P : ℕ → Type 0) (cs : List ℕ) (j : ℕ)
    → j < length cs
    → All P cs
    → (c : ℕ) × (get_elem? cs j ≡ some c) × P c
elem-All P [] j lt a = absurd (omega arith)
elem-All P (c ∷ cs) zero lt (p, a) = (c, refl, p)
elem-All P (c ∷ cs) (suc j) lt (p, a) = elem-All P cs j (omega arith) a

zero_plus : (j : ℕ) → 0 + j ≡ j
zero_plus j = omega arith

not_zero : (n : ℕ) → 0 < n → (n == 0) ≡ false
not_zero n pos = ground (arith, pos)

length-take_64 : (cs : List ℕ) → 0 < length cs → 0 < length (take 64 cs)
length-take_64 [] pos = absurd (omega arith)
length-take_64 (c ∷ cs) pos = omega arith

remainder-less : (n m : ℕ) → 0 < m → n % m < m
remainder-less n m pos = mod-lt n pos

-- A group whose first disk's load is below the bound 2.0, with loads that are ordered: a disk is
-- picked, it is one of the group, and its load is at most the smallest in the group and the margin.
-- Of the order of the numbers it is used that adding the margin gives no less, that no number is
-- below itself, and that what is not below a number is not below a smaller one.
pub balance_pick-least :
    {F : Type 0} (l : Loads F) (d : Dev) (ds : List Dev) (rr : ℕ)
    → ((x : F) → l.at_most x (l.add_eps x) ≡ true)
    → ((x a b : F) → l.less x b ≡ false → l.less a b ≡ true → l.less x a ≡ false)
    → ((x : F) → l.less x x ≡ false)
    → l.less (dev_load l d) l.two ≡ true
    → (c : ℕ) × (e : Dev) × (m : F) × ((balance_pick l (record { devs = d ∷ ds; rr = rr })).0
        ≡ some c)
      × (get_elem? (d ∷ ds) c ≡ some e)
      × NoneBelow l (d ∷ ds) m
      × (l.at_most (dev_load l e) (l.add_eps m) ≡ true)
unfolding balance_pick Loaded IsGood best_load
balance_pick-least {F} l d ds rr more order irreflexive low =
    let best = best_load l (d ∷ ds) l.two in
    let first : best ≡ best_load l ds (dev_load l d) = rw (best_load, low) refl in
    let there : Loaded l (d ∷ ds) best = elim (best_load-attained l ds (dev_load l d)) [
      | inl same ↦ (zero, d, refl, sym (first ∙ same))
      | inr (k, x, at, same) ↦ (suc k, x, at, same ∙ sym first)
    ] in
    let (k, x, at, same) = there in
    let good : l.at_most (dev_load l x) (l.add_eps best) ≡ true =
      ap (λ y. l.at_most y (l.add_eps best)) same ∙ more best in
    let cand = take 64 (candidates l best (d ∷ ds) 0) in
    let some_left : 0 < length cand =
      length-take_64 (candidates l best (d ∷ ds) 0)
        (candidates-some l best (d ∷ ds) 0 k x at good) in
    let all =
      take-All (IsGood l best (d ∷ ds) 0) 64 (candidates l best (d ∷ ds) 0)
        (candidates-IsGood l best (d ∷ ds) 0) in
    let (c, found, (j, e, place, at_place, fine)) =
      elem-All (IsGood l best (d ∷ ds) 0) cand (rr % length cand)
        (remainder-less rr (length cand) some_left) all in
    (
      c,
      e,
      best,
      rw (balance_pick, not_zero (length cand) some_left) found,
      ap (get_elem? (d ∷ ds)) (place ∙ zero_plus j) ∙ at_place,
      best_load-least l order irreflexive (d ∷ ds) l.two,
      fine,
    )
