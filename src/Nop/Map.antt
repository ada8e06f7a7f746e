-- ===== src/Nop/Map.antt =====
-- components/nop/src/base/nop_map.c: a hash table of chains, keyed by strings.
-- The chains are a function of the bucket's number; memory does not run out.
pub mod Refine
use nt.Prelude.{
  ℕ, zero, suc, ◌+◌, ◌*◌, ◌%◌, List, [], ◌∷◌, ◌++◌, Bool, true, false, Option, none, some, ltb,
  ◌==◌, if◌then◌else◌, u64,
}
use nt.Prelude.Text.{Str, str_eq}

-- A chain of nodes, from the bucket's head on.
abbrev pub Nodes {ℓ} : Type ℓ → Type ℓ
Nodes V = List (Str × V)

pub record HashMap {ℓ} (V : Type ℓ) : Type ℓ where
  pub buckets : ℕ → Nodes V
  pub bucket_count : ℕ
  pub entry_count : ℕ

-- The loop of the hash, from `hash` on; `hash << 5` and the sums are in unsigned long, of 64 bits.
unfoldable pub djb2_from : ℕ → Str → ℕ
djb2_from hash [] = hash
djb2_from hash (c ∷ s) = djb2_from (u64 (hash * 32 + hash + c)) s

unfoldable pub hash_djb2 : Str → ℕ
unfolding djb2_from
hash_djb2 s = djb2_from 5381 s

module _ {ℓ} {V : Type ℓ} where
  unfoldable pub map_create : ℕ → HashMap V
  map_create n = record {
    buckets = λ i. [];
    bucket_count = if n == 0 then 64 else n;
    entry_count = 0;
  }

  abbrev pub bucket_of : HashMap V → Str → ℕ
  bucket_of m key = hash_djb2 key % m.bucket_count

  -- The value of the first node with the key.
  unfoldable pub node_find : Nodes V → Str → Option V
  node_find [] key = none
  node_find ((k, v) ∷ ns) key = if str_eq k key then some v else node_find ns key

  -- The first node with the key takes the value.
  unfoldable pub node_replace : Nodes V → Str → V → Nodes V
  node_replace [] key value = []
  node_replace ((k, v) ∷ ns) key value =
      if str_eq k key then (k, value) ∷ ns else (k, v) ∷ node_replace ns key value

  abbrev pub put_bucket : HashMap V → ℕ → Nodes V → HashMap V
  put_bucket m i ns = record m { buckets = λ j. if i == j then ns else m.buckets j }

  unfoldable pub map_put : HashMap V → Str → V → HashMap V
  unfolding node_replace
  map_put m key value =
      let i = bucket_of m key in
      elim (node_find (m.buckets i) key) [
        | some old ↦ put_bucket m i (node_replace (m.buckets i) key value)
        | none ↦ record (put_bucket m i ((key, value) ∷ m.buckets i)) {
          entry_count = m.entry_count + 1;
        }
      ]

  unfoldable pub map_get : HashMap V → Str → Option V
  map_get m key = node_find (m.buckets (bucket_of m key)) key

  -- The entries in the order of a walk: the buckets from `i` on, `n` of them.
  unfoldable pub map_entries : HashMap V → ℕ → ℕ → Nodes V
  map_entries m i zero = []
  map_entries m i (suc n) = m.buckets i ++ map_entries m (i + 1) n

  -- `nop_map_foreach`: the callback's state, and the walk's end where the callback says so.
  unfoldable pub foreach_nodes {κ} : {S : Type κ} → (Str → V → S → Bool × S) → S → Nodes V → S
  foreach_nodes callback s [] = s
  foreach_nodes callback s ((k, v) ∷ ns) =
      let (stop, s') = callback k v s in
      let rest = foreach_nodes callback s' ns in if stop then s' else rest

  unfoldable pub map_foreach {κ} : {S : Type κ} → HashMap V → (Str → V → S → Bool × S) → S → S
  unfolding map_entries foreach_nodes
  map_foreach m callback s = foreach_nodes callback s (map_entries m 0 m.bucket_count)
