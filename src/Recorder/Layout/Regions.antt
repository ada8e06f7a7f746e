-- ===== src/Recorder/Layout/Regions.antt =====
-- The regions that `compute_layout` lays out do not overlap and lie on the disk, as long as its
-- uint64_t sums do not wrap.
use nt.Prelude.{
  ◌-◌, ℕ, zero, suc, ◌+◌, ◌*◌, ◌/◌, ◌%◌, ◌≤◌, ◌<◌, ◌≡◌, sym, ap, ◌∙◌, arith, u64, subst, refl,
}
use nt.Recorder.Util.{align_up, align_up64, align_up64_exact, align_up_bounds}
use nt.Recorder.Layout.{
  Layout, layout_round, layout_loop, compute_layout, chunk_bytes_of, bitmap_sec, sec, sub64,
}

-- A multiple of a whole number of MiB is a whole number of sectors.
sectors_of_chunk : (q mib : ℕ) → q * chunk_bytes_of mib / 512 * 512 ≡ q * chunk_bytes_of mib
sectors_of_chunk q mib =
    let e : q * chunk_bytes_of mib ≡ q * mib * 2048 * 512 = omega arith in rw e (omega arith)

-- A disk of fewer than 2^64 bytes has fewer than 2^44 chunks of a MiB or more.
count_small :
    (x mib : ℕ) → 0 < mib → x < 18446744073709551616 → x / chunk_bytes_of mib < 17592186044416
count_small x mib pos small = bound (x / chunk_bytes_of mib) whole
  where
    whole : x / chunk_bytes_of mib * (mib * 1048576) ≤ x
    whole = grind arith

    bound : (q : ℕ) → q * (mib * 1048576) ≤ x → q < 17592186044416
    bound q h =
        let least : q * 1 ≤ q * mib = grind arith in
        let e : q * (mib * 1048576) ≡ q * mib * 1048576 = omega arith in omega arith

abbrev pub reserved_end : ℕ → ℕ → ℕ
reserved_end slots cc =
    (bitmap_sec
      + align_up64 ((cc * 2 + 7) % 18446744073709551616 / 8 * 2) sec / sec
      + align_up64 (cc * slots * 64 % 18446744073709551616) sec / sec)
    * sec

index_small :
    (cc slots : ℕ) → cc < 17592186044416 → slots ≤ 8192 → cc * slots * 64 ≤ 9223372036854775808
index_small cc slots few limit = let a : cc * slots ≤ cc * 8192 = grind arith in omega arith

-- With at most 8192 slots per chunk the reserved sectors end before 2^63 + 2^44.
pub reserved-small :
    (cc slots : ℕ)
    → cc < 17592186044416
    → slots ≤ 8192
    → (0 < reserved_end slots cc) × (reserved_end slots cc < 9223389629040820224)
reserved-small cc slots few limit = bound (cc * slots * 64) (index_small cc slots few limit)
  where
    bound :
        (x : ℕ)
        → x ≤ 9223372036854775808
        → (0 < (
            (bitmap_sec
              + align_up64 ((cc * 2 + 7) % 18446744073709551616 / 8 * 2) sec / sec
              + align_up64 (x % 18446744073709551616) sec / sec)
            * sec))
          × ((bitmap_sec
                  + align_up64 ((cc * 2 + 7) % 18446744073709551616 / 8 * 2) sec / sec
                  + align_up64 (x % 18446744073709551616) sec / sec)
                * sec
              < 9223389629040820224)
    bound x h = (omega arith, omega arith)

-- Then the start of the data is the reserved end, rounded up.
pub layout_round-start :
    (total mib slots cc : ℕ)
    → 0 < mib
    → mib < 4294967296
    → cc < 17592186044416
    → slots ≤ 8192
    → (layout_round total (chunk_bytes_of mib) slots cc).data_start_sec * sec
      ≡ align_up (reserved_end slots cc) (chunk_bytes_of mib)
unfolding layout_round
layout_round-start total mib slots cc pos fits few limit =
    ap (λ x. align_up64 x chunk / 512 * 512) same
    ∙ ap (λ x. x / 512 * 512) (align_up64_exact end chunk (omega arith) (omega (arith, small)))
    ∙ sectors_of_chunk ((end + chunk - 1) / chunk) mib
  where
    chunk : ℕ
    chunk = chunk_bytes_of mib

    end : ℕ
    end = reserved_end slots cc

    small : (0 < end) × (end < 9223389629040820224)
    small = reserved-small cc slots few limit

    wraps_not : (x : ℕ) → x < 9223389629040820224 → x % 18446744073709551616 ≡ x
    wraps_not x h = omega arith

    same : u64 end ≡ end
    same = wraps_not end (small.1)

layout_round-count :
    (total mib slots cc : ℕ)
    → 0 < mib
    → (layout_round total (chunk_bytes_of mib) slots cc).chunk_count < 17592186044416
unfolding layout_round
layout_round-count total mib slots cc pos = count_small (sub64 total _) mib pos (omega arith)

layout_loop-last :
    (n total mib slots : ℕ) (l : Layout)
    → 0 < mib
    → l.chunk_count < 17592186044416
    → (c : ℕ) × (c < 17592186044416)
      × (layout_loop (suc n) total (chunk_bytes_of mib) slots l
          ≡ layout_round total (chunk_bytes_of mib) slots c)
unfolding layout_loop
layout_loop-last zero total mib slots l pos few = (l.chunk_count, few, refl)
layout_loop-last (suc n) total mib slots l pos few =
    layout_loop-last n total mib slots (layout_round total (chunk_bytes_of mib) slots l.chunk_count)
      pos (layout_round-count total mib slots l.chunk_count pos)

-- The layout is that of one round of the loop.
pub compute_layout-round :
    (sectors mib slots : ℕ)
    → 0 < mib
    → sectors * sec < 18446744073709551616
    → (c : ℕ) × (c < 17592186044416)
      × (compute_layout sectors mib slots
          ≡ layout_round (sectors * sec) (chunk_bytes_of mib) slots c)
unfolding compute_layout
compute_layout-round sectors mib slots pos small =
    let same : u64 (sectors * sec) ≡ sectors * sec = omega arith in
    let (c, few, e) =
      layout_loop-last 3 (u64 (sectors * sec)) mib slots
        (record {
          chunk_count = u64 (sectors * sec) / chunk_bytes_of mib;
          bitmap_sectors = 0;
          index_sectors = 0;
          data_start_sec = 0;
        })
        pos (count_small (u64 (sectors * sec)) mib pos (omega arith)) in
    (c, few, e ∙ ap (λ t. layout_round t (chunk_bytes_of mib) slots c) same)

pub record Regions (total_sectors chunk : ℕ) (l : Layout) : Type 0 where
  pub index_before_data :
      (bitmap_sec + l.bitmap_sectors + l.index_sectors) * sec ≤ l.data_start_sec * sec
  pub data_aligned : l.data_start_sec * sec % chunk ≡ 0
  pub data_on_disk : l.data_start_sec * sec + l.chunk_count * chunk ≤ total_sectors * sec

room :
    (total at chunk : ℕ)
    → 0 < chunk
    → total < 18446744073709551616
    → at ≤ total
    → at + sub64 total at / chunk * chunk ≤ total
room total at chunk pos small on =
    let e : sub64 total at ≡ total - at = omega arith in rw e (grind arith)

layout_round-Regions :
    (sectors mib slots cc : ℕ)
    → 0 < mib
    → mib < 4294967296
    → cc < 17592186044416
    → slots ≤ 8192
    → sectors * sec < 18446744073709551616
    → (layout_round (sectors * sec) (chunk_bytes_of mib) slots cc).data_start_sec * sec
      ≤ sectors * sec
    → Regions sectors
        (chunk_bytes_of mib)
        (layout_round (sectors * sec) (chunk_bytes_of mib) slots cc)
unfolding layout_round
layout_round-Regions sectors mib slots cc pos fits few limit small on =
    let start = layout_round-start (sectors * sec) mib slots cc pos fits few limit in
    let (above, below, aligned) =
      align_up_bounds (reserved_end slots cc) (chunk_bytes_of mib) (omega arith) in
    record {
      index_before_data = subst (λ x. reserved_end slots cc ≤ x) (sym start) above;
      data_aligned = ap (λ x. x % chunk_bytes_of mib) start ∙ aligned;
      data_on_disk = room (sectors * sec) _ (chunk_bytes_of mib) (omega arith) small on;
    }

-- On a disk of fewer than 2^64 bytes, for a chunk size that is not 0 and at most 8192 index slots per
-- chunk: the reserved sectors, the bitmap and the index end before the first chunk, the first chunk
-- starts at a multiple of the chunk size, and all chunks lie on the disk, provided that the start of
-- the first does.
pub compute_layout-Regions :
    (sectors mib slots : ℕ)
    → 0 < mib
    → mib < 4294967296
    → slots ≤ 8192
    → sectors * sec < 18446744073709551616
    → (compute_layout sectors mib slots).data_start_sec * sec ≤ sectors * sec
    → Regions sectors (chunk_bytes_of mib) (compute_layout sectors mib slots)
compute_layout-Regions sectors mib slots pos fits limit small on =
    let (c, few, e) = compute_layout-round sectors mib slots pos small in
    subst (Regions sectors (chunk_bytes_of mib)) (sym e) (
      layout_round-Regions sectors mib slots c pos fits few limit small
        (subst (λ l. l.data_start_sec * sec ≤ sectors * sec) e on))
