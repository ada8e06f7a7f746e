-- ===== src/Recorder/Index/Sort.antt =====
-- The exchange sort at the end of a query: the same slots, in the order of their start times.
use mathlib.Core.List.{Perm}
use mathlib.Core.List.Perm
use nt.Prelude.{
  inl, inr, ℕ, zero, suc, ◌≤◌, ◌≡◌, refl, arith, List, [], ◌∷◌, ltb, Bool-cases, if◌then◌else◌,
  length, All,
}
use nt.Recorder.Types.{Slot}
use nt.Recorder.Index.{sweep, sort_by_start}

-- Each slot starts no later than those behind it.
abbrev pub IsSorted : List Slot → Type 0
IsSorted [] = Unit {0}
IsSorted (x ∷ xs) = All (λ y. x.start_time ≤ y.start_time) xs × IsSorted xs

length-sweep : (x : Slot) (ys : List Slot) → length (sweep x ys).1 ≡ length ys
unfolding sweep
length-sweep x [] = refl
length-sweep x (y ∷ ys) =
    omega (arith, length-sweep (if ltb y.start_time x.start_time then y else x) ys)

sweep-perm : (x : Slot) (ys : List Slot) → Perm (x ∷ ys) ((sweep x ys).0 ∷ (sweep x ys).1)
unfolding sweep
sweep-perm x [] = Perm.refl (x ∷ [])
sweep-perm x (y ∷ ys) = elim (Bool-cases (ltb y.start_time x.start_time)) [
  | inl e ↦ rw e (Perm.trans (Perm.cons x (sweep-perm y ys)) (Perm.swap _ x _))
  | inr e ↦
      rw e (
        Perm.trans (Perm.swap y x ys)
          (Perm.trans (Perm.cons y (sweep-perm x ys)) (Perm.swap _ y _)))
]

sweep-All {κ} :
    (P : Slot → Type κ) (x : Slot) (ys : List Slot)
    → P x
    → All P ys
    → P (sweep x ys).0 × All P (sweep x ys).1
unfolding sweep
sweep-All P x [] p ps = (p, tt)
sweep-All P x (y ∷ ys) p ps = elim (Bool-cases (ltb y.start_time x.start_time)) [
  | inl e ↦ rw e (let r = sweep-All P y ys ps.0 ps.1 in (r.0, (p, r.1)))
  | inr e ↦ rw e (let r = sweep-All P x ys p ps.1 in (r.0, (ps.0, r.1)))
]

All-mono {κ λ'} :
    (P : Slot → Type κ) (Q : Slot → Type λ') (xs : List Slot)
    → ((s : Slot) → P s → Q s)
    → All P xs
    → All Q xs
All-mono P Q [] f h = tt
All-mono P Q (x ∷ xs) f h = (f x h.0, All-mono P Q xs f h.1)

-- The sweep leaves a least element in front.
sweep_least :
    (x : Slot) (ys : List Slot)
    → ((sweep x ys).0.start_time ≤ x.start_time)
      × All (λ y. (sweep x ys).0.start_time ≤ y.start_time) (sweep x ys).1
unfolding sweep
sweep_least x [] = (omega arith, tt)
sweep_least x (y ∷ ys) =
    let r = sweep_least (if ltb y.start_time x.start_time then y else x) ys in
    (ground (arith, r.0), (ground (arith, r.0), r.1))

sort-perm : (n : ℕ) (xs : List Slot) → Perm (sort_by_start n xs) xs
unfolding sort_by_start
sort-perm zero xs = Perm.refl xs
sort-perm (suc n) [] = Perm.refl []
sort-perm (suc n) (x ∷ xs) =
    Perm.trans (Perm.cons (sweep x xs).0 (sort-perm n (sweep x xs).1)) (Perm.symm (sweep-perm x xs))

sort-All {κ} : (P : Slot → Type κ) (n : ℕ) (xs : List Slot) → All P xs → All P (sort_by_start n xs)
unfolding sort_by_start
sort-All P zero xs h = h
sort-All P (suc n) [] h = tt
sort-All P (suc n) (x ∷ xs) h =
    let r = sweep-All P x xs h.0 h.1 in (r.0, sort-All P n (sweep x xs).1 r.1)

sort-IsSorted : (n : ℕ) (xs : List Slot) → length xs ≤ n → IsSorted (sort_by_start n xs)
unfolding sort_by_start
sort-IsSorted zero [] h = tt
sort-IsSorted zero (x ∷ xs) h = absurd (omega arith)
sort-IsSorted (suc n) [] h = tt
sort-IsSorted (suc n) (x ∷ xs) h = (
  sort-All (λ y. (sweep x xs).0.start_time ≤ y.start_time) n (sweep x xs).1 (sweep_least x xs).1,
  sort-IsSorted n (sweep x xs).1 (omega (arith, length-sweep x xs)),
)

pub length-sort_by_start : (n : ℕ) (xs : List Slot) → length (sort_by_start n xs) ≡ length xs
unfolding sort_by_start
length-sort_by_start zero xs = refl
length-sort_by_start (suc n) [] = refl
length-sort_by_start (suc n) (x ∷ xs) =
    omega (arith, length-sort_by_start n (sweep x xs).1, length-sweep x xs)

-- The sort returns the same slots, each as often, in the order of their start times, for as many
-- rounds as there are slots.
pub sort_by_start-sorts :
    (xs : List Slot)
    → Perm (sort_by_start (length xs) xs) xs × IsSorted (sort_by_start (length xs) xs)
sort_by_start-sorts xs = (sort-perm (length xs) xs, sort-IsSorted (length xs) xs (omega arith))
