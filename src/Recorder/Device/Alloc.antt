-- ===== src/Recorder/Device/Alloc.antt =====
-- Which chunks and which metadata ranges a device hands out, under both full-disk policies.
use nt.Prelude.{
  dec_lt, ℕ_discrete, subst, ap, ap₂, sym, ◌⊎◌, inl, inr, ℕ, zero, suc, ◌+◌, ◌-◌, ◌*◌, ◌%◌, ◌≤◌,
  ◌<◌, ◌≡◌, ◌≢◌, refl, ◌∙◌, arith, List, [], ◌∷◌, false, ltb, if◌then◌else◌,
}
use nt.Recorder.Types.{Err, ok, nospace}
use nt.Recorder.Layout.{sec, seal_st}
use nt.Recorder.Device.{Dev, alloc_chunk, is_wrapped, meta_alloc}

-- `n` allocations in a row: the status and the chunk of each, and the device after them.
unfoldable pub alloc_many : ℕ → Dev → List (Err × ℕ) × Dev
alloc_many zero d = ([], d)
alloc_many (suc n) d =
    let (e, c, off, d') = alloc_chunk d in let (rs, d'') = alloc_many n d' in ((e, c) ∷ rs, d'')

-- What a ring of `size` chunks gives, from `at` on.
pub ring_from : ℕ → ℕ → ℕ → List (Err × ℕ)
ring_from size at zero = []
ring_from size at (suc n) = (ok, at) ∷ ring_from size ((at + 1) % size) n

-- What the same chunks give when they are used once: then nothing more.
pub once_from : ℕ → ℕ → ℕ → List (Err × ℕ)
once_from size at zero = []
once_from size at (suc n) =
    (if ltb at size then (ok, at) else (nospace, 0))
    ∷ once_from size (if ltb at size then at + 1 else at) n

-- One allocation that overwrites.
alloc_over :
    (d : Dev)
    → d.sb.hdd_full ≢ 1
    → d.sb.write_ptr_chunk < d.data_chunks
    → ((alloc_chunk d).0 ≡ ok)
      × ((alloc_chunk d).1 ≡ d.sb.write_ptr_chunk)
      × ((alloc_chunk d).3.sb.write_ptr_chunk ≡ (d.sb.write_ptr_chunk + 1) % d.data_chunks)
      × ((alloc_chunk d).3.data_chunks ≡ d.data_chunks)
      × ((alloc_chunk d).3.sb.hdd_full ≡ d.sb.hdd_full)
unfolding alloc_chunk
alloc_over d over lt = grind arith

-- Under the overwriting policy a device with chunks, whose write pointer is on one of them, never
-- refuses: any number of allocations gives the chunks of the ring in order, round and round.
pub alloc_many-ring :
    (n : ℕ) (d : Dev)
    → d.sb.hdd_full ≢ 1
    → d.sb.write_ptr_chunk < d.data_chunks
    → (alloc_many n d).0 ≡ ring_from d.data_chunks d.sb.write_ptr_chunk n
unfolding alloc_many ring_from
alloc_many-ring zero d over lt = refl
alloc_many-ring (suc n) d over lt =
    ap₂ (λ e r. e ∷ r) (ap₂ (λ a b. (a, b)) a.0 a.1)
      (rw (a.2, a.3) at
        (alloc_many-ring n (alloc_chunk d).3 (λ e. over (sym a.4 ∙ e))
          (rw (a.2, a.3) (omega arith))))
  where
    a :
        ((alloc_chunk d).0 ≡ ok)
        × ((alloc_chunk d).1 ≡ d.sb.write_ptr_chunk)
        × ((alloc_chunk d).3.sb.write_ptr_chunk ≡ (d.sb.write_ptr_chunk + 1) % d.data_chunks)
        × ((alloc_chunk d).3.data_chunks ≡ d.data_chunks)
        × ((alloc_chunk d).3.sb.hdd_full ≡ d.sb.hdd_full)
    a = alloc_over d over lt

-- One allocation that stops at the end.
alloc_stop :
    (d : Dev)
    → d.sb.hdd_full ≡ 1
    → (◌≡◌ {A = Err × ℕ}
        ((alloc_chunk d).0, (alloc_chunk d).1)
        (if ltb d.sb.write_ptr_chunk d.data_chunks
          then (ok, d.sb.write_ptr_chunk)
          else (nospace, 0)))
      × ((alloc_chunk d).3.sb.write_ptr_chunk ≡ (
          if ltb d.sb.write_ptr_chunk d.data_chunks
          then d.sb.write_ptr_chunk + 1
          else d.sb.write_ptr_chunk))
      × ((alloc_chunk d).3.data_chunks ≡ d.data_chunks)
      × ((alloc_chunk d).3.sb.hdd_full ≡ 1)
      × ((alloc_chunk d).3.sb.seq_epoch ≡ d.sb.seq_epoch)
unfolding alloc_chunk
alloc_stop d stop = ground arith

-- Under the stopping policy the chunks from the write pointer on are given once, in order, and every
-- later allocation is refused for lack of space.
alloc_many-once :
    (n : ℕ) (d : Dev)
    → d.sb.hdd_full ≡ 1
    → (alloc_many n d).0 ≡ once_from d.data_chunks d.sb.write_ptr_chunk n
unfolding alloc_many once_from
alloc_many-once zero d stop = refl
alloc_many-once (suc n) d stop =
    let a = alloc_stop d stop in
    ap₂ (λ e r. e ∷ r) a.0 (rw (a.1, a.2) at (alloc_many-once n (alloc_chunk d).3 a.3))

-- Under the stopping policy no number of allocations, refused ones included, makes a device count as
-- wrapped that did not before.
pub alloc_many-not_wrapped :
    (n : ℕ) (d : Dev)
    → d.sb.hdd_full ≡ 1
    → is_wrapped d ≡ false
    → is_wrapped (alloc_many n d).1 ≡ false
unfolding alloc_many is_wrapped
alloc_many-not_wrapped zero d stop w = w
alloc_many-not_wrapped (suc n) d stop w =
    let a = alloc_stop d stop in alloc_many-not_wrapped n (alloc_chunk d).3 a.3 (rw a.4 w)

chunk_in_ring : (c n b : ℕ) → c < n → c * b + b ≤ n * b
chunk_in_ring c n b h = grind arith

-- What an allocation leaves of the device's places.
HasPlaces : Dev → Dev → Type 0
HasPlaces d d' =
    (d'.data_chunks ≡ d.data_chunks)
    × (d'.chunk_bytes ≡ d.chunk_bytes)
    × (d'.meta_base ≡ d.meta_base)
    × (d'.sb.data_start_sec ≡ d.sb.data_start_sec)

alloc_places : (d : Dev) → HasPlaces d (alloc_chunk d).3
unfolding alloc_chunk HasPlaces
alloc_places d = grind arith

alloc_many-places : (n : ℕ) (d : Dev) → HasPlaces d (alloc_many n d).1
unfolding alloc_many HasPlaces
alloc_many-places zero d = (refl, refl, refl, refl)
alloc_many-places (suc n) d =
    let (a, b, c, e) = alloc_places d in
    let (a', b', c', e') = alloc_many-places n (alloc_chunk d).3 in (a' ∙ a, b' ∙ b, c' ∙ c, e' ∙ e)

-- The write pointer stays on a chunk, or, where the policy is to stop, goes behind the last.
abbrev InRing : Dev → Type 0
InRing d =
    ((d.sb.hdd_full ≡ 1) × (d.sb.write_ptr_chunk ≤ d.data_chunks))
    ⊎ ((d.sb.hdd_full ≢ 1) × (d.sb.write_ptr_chunk < d.data_chunks))

alloc_chunk-InRing : (d : Dev) → InRing d → InRing (alloc_chunk d).3
alloc_chunk-InRing d (inl (stop, at)) =
    let a = alloc_stop d stop in inl (a.3, rw (a.1, a.2) (ground (arith, at)))
alloc_chunk-InRing d (inr (over, lt)) =
    let a = alloc_over d over lt in inr (λ e. over (sym a.4 ∙ e), rw (a.2, a.3) (grind (arith, lt)))

alloc_many-InRing : (n : ℕ) (d : Dev) → InRing d → InRing (alloc_many n d).1
unfolding alloc_many
alloc_many-InRing zero d h = h
alloc_many-InRing (suc n) d h = alloc_many-InRing n (alloc_chunk d).3 (alloc_chunk-InRing d h)

-- Where a chunk of the ring that is handed out lies.
given_chunk :
    (d : Dev) {c off : ℕ} {d' : Dev}
    → InRing d
    → d.sb.data_start_sec * sec + d.data_chunks * d.chunk_bytes < 18446744073709551616
    → alloc_chunk d ≡ (ok, c, off, d')
    → (c < d.data_chunks)
      × (d.sb.data_start_sec * sec ≤ off)
      × (off + d.chunk_bytes ≤ d.sb.data_start_sec * sec + d.data_chunks * d.chunk_bytes)
unfolding alloc_chunk
given_chunk d (inr (over, lt)) room e =
    ground (arith, over, lt, chunk_in_ring d.sb.write_ptr_chunk d.data_chunks d.chunk_bytes lt)
given_chunk d (inl (stop, at)) room e = elim (dec_lt d.sb.write_ptr_chunk d.data_chunks) [
  | yes lt ↦
      ground (arith, stop, lt, chunk_in_ring d.sb.write_ptr_chunk d.data_chunks d.chunk_bytes lt)
  | no ge ↦ absurd (ground (arith, stop, ge, e))
]

-- After any number of allocations, refused ones included, on a device whose write pointer was on a
-- chunk of the data ring: a chunk that the next allocation hands out is one of the ring, and its bytes
-- lie between the start of the data and the metadata region. The metadata region must start behind
-- the data chunks, and below 2^64.
pub alloc_chunk-in_data :
    (n : ℕ) (d : Dev) {c off : ℕ} {d' : Dev}
    → d.sb.write_ptr_chunk < d.data_chunks
    → d.meta_base ≡ d.sb.data_start_sec * sec + d.data_chunks * d.chunk_bytes
    → d.meta_base < 18446744073709551616
    → alloc_chunk (alloc_many n d).1 ≡ (ok, c, off, d')
    → (c < d.data_chunks) × (d.sb.data_start_sec * sec ≤ off) × (off + d.chunk_bytes ≤ d.meta_base)
unfolding HasPlaces
alloc_chunk-in_data n d {c} {off} lt base room e =
    let (chunks, bytes, metas, starts) = alloc_many-places n d in
    let start : InRing d = elim (ℕ_discrete d.sb.hdd_full 1) [
      | yes stop ↦ inl (stop, omega arith)
      | no over ↦ inr (over, lt)
    ] in
    let d1 = (alloc_many n d).1 in
    let whole : d1.sb.data_start_sec * sec + d1.data_chunks * d1.chunk_bytes
        ≡ d.sb.data_start_sec * sec + d.data_chunks * d.chunk_bytes =
      ap₂ (λ x y. x + y) (ap (λ x. x * sec) starts) (ap₂ (λ x y. x * y) chunks bytes) in
    let (a, b, k) =
      given_chunk d1 (alloc_many-InRing n d start)
        (subst (λ x. x < 18446744073709551616) (base ∙ sym whole) room) e in
    (
      subst (λ x. c < x) chunks a,
      subst (λ x. x * sec ≤ off) starts b,
      subst (λ x. off + x ≤ d.meta_base) bytes
          (subst (λ x. off + d1.chunk_bytes ≤ x) (whole ∙ sym base) k),
    )

-- A range of the metadata region that is handed out holds the bytes that were asked for, starts at a
-- multiple of 16 in the region, and ends inside the region; the next position is again a multiple of
-- 16. The position before it must be one, and the size and the region's end below 2^63.
meta_alloc-in_region :
    (d : Dev) (size : ℕ) {off : ℕ} {d' : Dev}
    → size < 9223372036854775808
    → d.meta_base + d.st.meta_bytes < 9223372036854775808
    → d.st.meta_next_off < 9223372036854775808
    → d.st.meta_next_off % 16 ≡ 0
    → meta_alloc d size ≡ (ok, off, d')
    → (d.meta_base ≤ off)
      × (off + size ≤ d.meta_base + d'.st.meta_next_off)
      × (d'.st.meta_next_off ≤ d.st.meta_bytes)
      × ((off - d.meta_base) % 16 ≡ 0)
      × (d'.st.meta_next_off % 16 ≡ 0)
unfolding meta_alloc seal_st
meta_alloc-in_region d size fits room at al e = ground arith
