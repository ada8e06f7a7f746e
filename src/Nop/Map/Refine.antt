-- ===== src/Nop/Map/Refine.antt =====
-- components/nop/src/base/nop_map.c against the list of all puts.
use nt.Prelude.{
  ℕ, ◌+◌, ◌≡◌, refl, sym, ap, ◌∙◌, inl, inr, arith, List, [], ◌∷◌, true, false, Option, none, some,
  Option-cases, Bool-cases, ◌==◌, ==_iff, if◌then◌else◌, ℕ_discrete,
}
use nt.Prelude.Text.{Str, str_eq, str_eq_refl, str_eq_sound}
use nt.Nop.Map.{
  HashMap, Nodes, map_create, bucket_of, node_find, node_replace, put_bucket, map_put, map_get,
}

str_eq_cast : (j k q : Str) → str_eq j k ≡ true → str_eq j q ≡ str_eq k q
str_eq_cast j k q e = ap (λ s. str_eq s q) (str_eq_sound j k e)

-- A key that is not `k` but `q` shows that `k` is not `q`.
str_eq_apart : (j k q : Str) → str_eq j k ≡ false → str_eq j q ≡ true → str_eq k q ≡ false
str_eq_apart j k q ne e = elim (Bool-cases (str_eq k q)) [
  | inr h ↦ h
  | inl h ↦
      let j_q = str_eq_sound j q e in
      let k_q = str_eq_sound k q h in
      absurd (ground (arith, sym ne ∙ ap (λ s. str_eq s k) j_q ∙ ap (str_eq q) k_q ∙ str_eq_refl q))
]

module _ {ℓ} {V : Type ℓ} where
  -- The puts of the list, made one after the other; the list begins with the last.
  unfoldable pub stored : ℕ → List (Str × V) → HashMap V
  stored n [] = map_create n
  stored n ((k, v) ∷ es) = map_put (stored n es) k v

  -- What the puts say last of a key.
  unfoldable pub assoc : List (Str × V) → Str → Option V
  assoc [] q = none
  assoc ((k, v) ∷ es) q = if str_eq k q then some v else assoc es q

  -- The number of keys that they name.
  unfoldable pub distinct : List (Str × V) → ℕ
  unfolding assoc
  distinct [] = 0
  distinct ((k, v) ∷ es) = elim (assoc es k) [ none ↦ distinct es + 1 | some w ↦ distinct es ]

  node_find-replace :
      (ns : Nodes V) (k : Str) (v : V) (q : Str) (w : V)
      → node_find ns k ≡ some w
      → node_find (node_replace ns k v) q ≡ (if str_eq k q then some v else node_find ns q)
  unfolding node_find node_replace
  node_find-replace [] k v q w h = absurd (ground (arith, h))
  node_find-replace ((j, u) ∷ ns) k v q w h = elim (Bool-cases (str_eq j k)) [
    | inl e ↦ rw (e, node_replace) (ground (arith, str_eq_cast j k q e))
    | inr e ↦
        let rest = node_find-replace ns k v q w (ground (arith, e, h)) in
        rw (e, node_replace) (ground (arith, rest, str_eq_apart j k q e))
  ]

  map_put-found :
      (m : HashMap V) (k : Str) (v w : V)
      → node_find (m.buckets (bucket_of m k)) k ≡ some w
      → map_put m k v ≡ put_bucket m (bucket_of m k) (node_replace (m.buckets (bucket_of m k)) k v)
  unfolding map_put
  map_put-found m k v w e = rw (e, map_put) refl

  map_put-new :
      (m : HashMap V) (k : Str) (v : V)
      → node_find (m.buckets (bucket_of m k)) k ≡ none
      → map_put m k v ≡ record (put_bucket m (bucket_of m k) ((k, v) ∷ m.buckets (bucket_of m k))) {
        entry_count = m.entry_count + 1;
      }
  unfolding map_put
  map_put-new m k v e = rw (e, map_put) refl

  -- A lookup after a put.
  map_get-put :
      (m : HashMap V) (k : Str) (v : V) (q : Str)
      → map_get (map_put m k v) q ≡ (if str_eq k q then some v else map_get m q)
  unfolding map_get node_find
  map_get-put m k v q = elim (Option-cases (node_find (m.buckets (bucket_of m k)) k)) [
    | inl e ↦ rw (map_put-new m k v e) (placed ((k, v) ∷ m.buckets (bucket_of m k)) refl)
    | inr (w, e) ↦ rw (map_put-found m k v w e) (
        placed (node_replace (m.buckets (bucket_of m k)) k v)
          (node_find-replace (m.buckets (bucket_of m k)) k v q w e))
  ]
    where
      placed :
          (ns : Nodes V)
          → node_find ns q
            ≡ (if str_eq k q then some v else node_find (m.buckets (bucket_of m k)) q)
          → node_find (if bucket_of m k == bucket_of m q then ns else m.buckets (bucket_of m q)) q
            ≡ (if str_eq k q then some v else map_get m q)
      placed ns h = elim (ℕ_discrete (bucket_of m k) (bucket_of m q)) [
        | yes e ↦
            rw ((==_iff (bucket_of m k) (bucket_of m q)).1 e)
              (h ∙ ap (λ i. if str_eq k q then some v else node_find (m.buckets i) q) e)
        | no ne ↦
            let other : str_eq k q ≡ false = elim (Bool-cases (str_eq k q)) [
              | inl x ↦ absurd (ne (ap (bucket_of m) (str_eq_sound k q x)))
              | inr x ↦ x
            ] in
            let test : (bucket_of m k == bucket_of m q) ≡ false = ground (arith, ne) in
            rw (test, other) refl
      ]

  map_put-entry_count :
      (m : HashMap V) (k : Str) (v : V)
      → (map_put m k v).entry_count
        ≡ elim (map_get m k) as (λ o. ℕ) [ none ↦ m.entry_count + 1 | some w ↦ m.entry_count ]
  unfolding map_get
  map_put-entry_count m k v = elim (Option-cases (node_find (m.buckets (bucket_of m k)) k)) [
    | inl e ↦ rw (map_put-new m k v e, e) refl
    | inr (w, e) ↦ rw (map_put-found m k v w e, e) refl
  ]

  stored-get : (n : ℕ) (es : List (Str × V)) (q : Str) → map_get (stored n es) q ≡ assoc es q
  unfolding stored assoc
  stored-get n [] q = unfold map_get map_create node_find in refl
  stored-get n ((k, v) ∷ es) q =
      map_get-put (stored n es) k v q
      ∙ ap (λ o. if str_eq k q then some v else o) (stored-get n es q)

  stored-size : (n : ℕ) (es : List (Str × V)) → (stored n es).entry_count ≡ distinct es
  unfolding stored distinct
  stored-size n [] = unfold map_create in refl
  stored-size n ((k, v) ∷ es) =
      map_put-entry_count (stored n es) k v
      ∙ ap
          (λ o. elim o as (λ x. ℕ) [
            | none ↦ (stored n es).entry_count + 1
            | some w ↦ (stored n es).entry_count
          ])
          (stored-get n es k)
      ∙ ap (λ c. elim (assoc es k) as (λ x. ℕ) [ none ↦ c + 1 | some w ↦ c ]) (stored-size n es)

-- A table of any number of buckets into which entries were put, the same key several times or not:
-- a lookup gives the value that was put last under the key, or none, and the size is the number of
-- different keys.
pub stored-lem {ℓ} :
    {V : Type ℓ} (n : ℕ) (es : List (Str × V)) (q : Str)
    → (map_get (stored n es) q ≡ assoc es q) × ((stored n es).entry_count ≡ distinct es)
stored-lem n es q = (stored-get n es q, stored-size n es)
