-- ===== src/Nop/Ring.antt =====
-- The two rings of components/nop/src/services/svc_record.c, the closed segments and the frames before
-- an event: `head` is the slot that is written next, and so the oldest one once the ring is full.
use nt.Prelude.{
  ◌⊎◌, subst, ltb→lt, take-min, drop-get_or, ℕ, zero, suc, ◌+◌, ◌-◌, ◌%◌, ◌≤◌, ◌<◌, ◌≡◌, ◌≢◌, refl,
  sym, ap, ap₂, ◌∙◌, inl, inr, arith, List, [], ◌∷◌, Bool-cases, ltb, ◌==◌, length, get_or, take,
  drop, min, if◌then◌else◌,
}
use native.Mathlib.Nat.{mod-lt, mod-eq_of_lt, add-mod_right, mod_self}

pub record Ring {ℓ} (A : Type ℓ) : Type ℓ where
  pub slots : ℕ → A
  pub capacity : ℕ
  pub count : ℕ
  pub head : ℕ

abbrev pub ring_of {ℓ} : {A : Type ℓ} → A → ℕ → Ring A
ring_of blank capacity = record { slots = λ i. blank; capacity = capacity; count = 0; head = 0 }

-- The next element; the oldest one gives way where the ring is full.
unfoldable pub ring_put {ℓ} : {A : Type ℓ} → Ring A → A → Ring A
ring_put r x = record r {
  slots = λ i. if r.head == i then x else r.slots i;
  count = if r.count == r.capacity then r.count else r.count + 1;
  head = (r.head + 1) % r.capacity;
}

-- The element that is the `i`-th newest, from 0 on.
abbrev pub newest {ℓ} : {A : Type ℓ} → Ring A → ℕ → A
newest r i = r.slots ((r.head + r.capacity - 1 - i) % r.capacity)

-- From the `i`-th newest on, `n` elements and room for `max`.
unfoldable pub newest_from {ℓ} : {A : Type ℓ} → Ring A → ℕ → ℕ → ℕ → List A
newest_from r i zero max = []
newest_from r i (suc n) zero = []
newest_from r i (suc n) (suc max) = newest r i ∷ newest_from r (i + 1) n max

-- What the ring holds when the elements of a list were put, of which the first came last.
pub record Holds {ℓ} {A : Type ℓ} (blank : A) (r : Ring A) (xs : List A) : Type ℓ where
  pub room : 0 < r.capacity
  pub counted : r.count ≡ min r.capacity (length xs)
  pub headed : r.head < r.capacity
  pub at : (i : ℕ) → i < r.count → newest r i ≡ get_or xs i blank

next_small : (c h : ℕ) → suc h < c → (h + 1) % c ≡ h + 1
next_small c h lt = mod-eq_of_lt (omega arith)

next_end : (c h : ℕ) → suc h ≡ c → (h + 1) % c ≡ 0
next_end c h e = subst (λ k. (h + 1) % k ≡ 0) (omega (arith, e)) (mod_self (h + 1))

next-cases : (c h : ℕ) → h < c → (suc h < c) ⊎ (suc h ≡ c)
next-cases c h lt = omega arith

back_below : (c h i : ℕ) → h < c → i < h → (h + c - 1 - i) % c ≡ h - 1 - i
back_below c h i lt below =
    ap (λ k. k % c) (omega arith) ∙ add-mod_right (h - 1 - i) c ∙ mod-eq_of_lt (omega arith)

back_above : (c h i : ℕ) → h < c → i < c → h ≤ i → (h + c - 1 - i) % c ≡ h + c - 1 - i
back_above c h i lt room above = mod-eq_of_lt (omega arith)

back-next :
    (c h i : ℕ) → h < c → suc i < c → ((h + 1) % c + c - 1 - suc i) % c ≡ (h + c - 1 - i) % c
back-next c h i lt room = elim (next-cases c h lt) [
  | inl small ↦ ap (λ k. k % c) (omega (arith, next_small c h small))
  | inr end ↦
      ap (λ k. k % c) (omega (arith, next_end c h end))
      ∙ sym (add-mod_right (c - 2 - i) c)
      ∙ ap (λ k. k % c) (omega (arith, end))
]

back_newest : (c h : ℕ) → h < c → ((h + 1) % c + c - 1 - 0) % c ≡ h
back_newest c h lt = elim (next-cases c h lt) [
  | inl small ↦
      ap (λ k. k % c) (omega (arith, next_small c h small)) ∙ add-mod_right h c ∙ mod-eq_of_lt lt
  | inr end ↦ ap (λ k. k % c) (omega (arith, next_end c h end, end)) ∙ mod-eq_of_lt lt
]

back_other : (c h i : ℕ) → h < c → suc i < c → h ≢ (h + c - 1 - i) % c
back_other c h i lt room e = elim (Bool-cases (ltb i h)) [
  | inl b ↦ ground (arith, back_below c h i lt (ltb→lt i h b), b)
  | inr b ↦ omega (arith, back_above c h i lt (omega arith) (ground (arith, b)), e)
]

pub oldest_at_head : (c h : ℕ) → h < c → (h + c - 1 - (c - 1)) % c ≡ h
oldest_at_head c h lt = ap (λ k. k % c) (omega arith) ∙ mod-eq_of_lt lt

module _ {ℓ} {A : Type ℓ} where
  pub ring_of-Holds :
      (blank : A) (capacity : ℕ) → 0 < capacity → Holds blank (ring_of blank capacity) []
  ring_of-Holds blank capacity room = record {
    room = room;
    counted = omega arith;
    headed = room;
    at = λ i lt. absurd (omega arith);
  }

  put-same : (r : Ring A) (x : A) (j : ℕ) → j ≡ r.head → (ring_put r x).slots j ≡ x
  unfolding ring_put
  put-same r x j e = ground (arith, e)

  put-other : (r : Ring A) (x : A) (j : ℕ) → r.head ≢ j → (ring_put r x).slots j ≡ r.slots j
  unfolding ring_put
  put-other r x j ne = ground (arith, ne)

  pub ring_put-Holds :
      (blank : A) (r : Ring A) (x : A) (xs : List A)
      → Holds blank r xs
      → Holds blank (ring_put r x) (x ∷ xs)
  unfolding ring_put
  ring_put-Holds blank r x xs v = record {
    room = v.room;
    counted = counts;
    headed = mod-lt (r.head + 1) v.room;
    at = slot;
  }
    where
      counts : (ring_put r x).count ≡ min r.capacity (suc (length xs))
      counts = ground (arith, v.counted)

      slot : (i : ℕ) → i < (ring_put r x).count → newest (ring_put r x) i ≡ get_or (x ∷ xs) i blank
      slot zero lt = put-same r x _ (back_newest r.capacity r.head v.headed)
      slot (suc i) lt =
          let small : suc i < r.capacity = omega (arith, lt, counts) in
          let kept : i < r.count = omega (arith, v.counted, lt, counts) in
          ap (ring_put r x).slots (back-next r.capacity r.head i v.headed small)
          ∙ put-other r x _ (back_other r.capacity r.head i v.headed small)
          ∙ v.at i kept

  pub newest_from-take :
      (blank : A) (r : Ring A) (xs : List A) (i n max : ℕ)
      → ((k : ℕ) → k < n → newest r (i + k) ≡ get_or xs k blank)
      → n ≤ length xs
      → newest_from r i n max ≡ take max (take n xs)
  unfolding newest_from
  newest_from-take blank r xs i zero zero at le = refl
  newest_from-take blank r xs i zero (suc max) at le = refl
  newest_from-take blank r xs i (suc n) zero at le = refl
  newest_from-take blank r [] i (suc n) (suc max) at le = absurd (omega arith)
  newest_from-take blank r (x ∷ xs) i (suc n) (suc max) at le =
      ap₂ (λ x xs. x ∷ xs) (ap (newest r) (omega arith) ∙ at 0 (omega arith))
        (newest_from-take blank r xs (i + 1) n max
          (λ k lt. ap (newest r) (omega arith) ∙ at (suc k) (omega arith)) (omega arith))

  -- What `max` elements asked for are: the newest of the list, as many as the ring holds of it.
  pub newest_from-Holds :
      (blank : A) (r : Ring A) (xs : List A) (max : ℕ)
      → Holds blank r xs
      → newest_from r 0 r.count max ≡ take max (take r.capacity xs)
  newest_from-Holds blank r xs max v =
      newest_from-take blank r xs 0 r.count max (λ k lt. ap (newest r) (omega arith) ∙ v.at k lt)
        (omega (arith, v.counted))
      ∙ ap (λ n. take max (take n xs)) v.counted
      ∙ ap (take max) (take-min r.capacity xs)

  -- Where the ring is full, its head is what is left out next.
  pub head-Holds :
      (blank : A) (r : Ring A) (xs : List A)
      → Holds blank r xs
      → r.count ≡ r.capacity
      → drop (r.capacity - 1) xs ≡ r.slots r.head ∷ drop r.capacity xs
  head-Holds blank r xs v full =
      let room : suc (r.capacity - 1) ≡ r.capacity = omega (arith, v.room) in
      drop-get_or blank xs (r.capacity - 1) (omega (arith, v.counted, full, v.room))
      ∙ ap₂ (λ y ys. y ∷ ys)
          (sym (v.at (r.capacity - 1) (omega (arith, full, v.room)))
            ∙ ap r.slots (oldest_at_head r.capacity r.head v.headed))
          (ap (λ n. drop n xs) room)
