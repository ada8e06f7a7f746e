-- ===== src/Nop/Event/Recent.antt =====
-- The ring of the recent events against the list of all events.
use nt.Prelude.{
  ℕ, zero, suc, ◌+◌, ◌-◌, ◌%◌, ◌≤◌, ◌<◌, ◌≡◌, ◌≢◌, refl, ap, ap₂, ◌∙◌, inl, inr, arith, List, [],
  ◌∷◌, Bool-cases, ltb, length, get_or, take, min,
}
use nt.Nop.Event.{
  Hub, EventRec, hub_create, no_event, publish_begin, publish, recent, recent_from, store_size,
}

-- The events of the list, published one after the other; the list begins with the last.
unfoldable pub published : List EventRec → Hub
published [] = hub_create
published (e ∷ es) = (publish (published es) e).1

-- What the ring holds when the list was published.
record Holds (h : Hub) (es : List EventRec) : Type 0 where
  pub count : h.store_count ≡ min store_size (length es)
  pub head : h.store_head ≡ length es % store_size
  pub at :
      (i : ℕ)
      → i < h.store_count
      → h.store ((h.store_head + store_size - 1 - i) % store_size) ≡ get_or es i no_event

publish-Holds :
    (h : Hub) (e : EventRec) (es : List EventRec) → Holds h es → Holds (publish h e).1 (e ∷ es)
unfolding publish publish_begin
publish-Holds h e es v = record {
  count = ground (arith, v.count);
  head = omega (arith, v.head);
  at = λ i lt. slot i lt;
}
  where
    head_small : h.store_head < 64
    head_small = omega (arith, v.head)

    in_ring : (i : ℕ) → suc i < (publish h e).1.store_count → i < h.store_count
    in_ring i lt = ground (arith, lt)

    others : (j : ℕ) → h.store_head ≢ j → (publish h e).1.store j ≡ h.store j
    others j ne = ground (arith, ne)

    small : (i : ℕ) → suc i < (publish h e).1.store_count → i < 63
    small i lt = ground (arith, lt, v.count)

    back :
        (i : ℕ)
        → i < 63
        → ((h.store_head + 1) % 64 + 64 - 1 - suc i) % 64 ≡ (h.store_head + 64 - 1 - i) % 64
    back i lt = omega (arith, v.head)

    slot :
        (i : ℕ)
        → i < (publish h e).1.store_count
        → (publish h e).1.store (((publish h e).1.store_head + 64 - 1 - i) % 64)
          ≡ get_or (e ∷ es) i no_event
    slot zero lt = let k = head_small in ground arith
    slot (suc i) lt =
        let f = in_ring i lt in
        let j = ((h.store_head + 1) % 64 + 64 - 1 - suc i) % 64 in
        others j (omega (arith, small i lt, head_small))
        ∙ ap h.store (back i (small i lt))
        ∙ v.at i f

published-Holds : (es : List EventRec) → Holds (published es) es
unfolding published
published-Holds [] = record { count = refl; head = refl; at = λ i lt. absurd (omega arith) }
published-Holds (e ∷ es) = publish-Holds (published es) e es (published-Holds es)

recent_from-take :
    (h : Hub) (es : List EventRec) (i n max : ℕ)
    → ((k : ℕ)
        → k < n
        → h.store ((h.store_head + store_size - 1 - (i + k)) % store_size) ≡ get_or es k no_event)
    → n ≤ length es
    → recent_from h i n max ≡ take max (take n es)
unfolding recent_from
recent_from-take h es i zero zero at le = refl
recent_from-take h es i zero (suc max) at le = refl
recent_from-take h es i (suc n) zero at le = refl
recent_from-take h [] i (suc n) (suc max) at le = absurd (omega arith)
recent_from-take h (e ∷ es) i (suc n) (suc max) at le =
    ap₂ (λ x xs. x ∷ xs)
      (ap (λ j. h.store ((h.store_head + store_size - 1 - j) % store_size)) (omega arith)
        ∙ at 0 (omega arith))
      (recent_from-take h es (i + 1) n max
        (λ k lt.
          ap (λ j. h.store ((h.store_head + store_size - 1 - j) % store_size)) (omega arith)
          ∙ at (suc k) (omega arith))
        (omega arith))

take-long : (es : List EventRec) (n : ℕ) → length es ≤ n → take (length es) es ≡ take n es
take-long [] zero h = refl
take-long [] (suc n) h = refl
take-long (e ∷ es) zero h = absurd (omega arith)
take-long (e ∷ es) (suc n) h = ap (λ r. e ∷ r) (take-long es n (omega arith))

take-all : (es : List EventRec) (n : ℕ) → take (min n (length es)) es ≡ take n es
take-all es n = elim (Bool-cases (ltb n (length es))) [
  | inl e ↦ ap (λ m. take m es) (ground (arith, e))
  | inr e ↦ ap (λ m. take m es) (ground (arith, e)) ∙ take-long es n (ground (arith, e))
]

-- After any events were published, a query for `max` of them gives the newest first, as many as were
-- asked for and the ring of 64 holds.
pub recent-published :
    (es : List EventRec) (max : ℕ) → recent (published es) max ≡ take max (take store_size es)
unfolding recent
recent-published es max =
    let v = published-Holds es in
    recent_from-take (published es) es 0 (published es).store_count max
      (λ k lt.
        ap
          (λ j.
            (published es).store (((published es).store_head + store_size - 1 - j) % store_size))
          (omega arith)
        ∙ v.at k lt)
      (omega (arith, v.count))
    ∙ ap (λ n. take max (take n es)) v.count
    ∙ ap (take max) (take-all es store_size)
