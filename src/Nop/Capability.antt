-- ===== src/Nop/Capability.antt =====
-- components/nop/src/capability/cap_registry.c: which capabilities are enabled. The mask is the
-- function of its bits; names and the JSON summary are left to the code.
use nt.Prelude.{
  ℕ, ◌≡◌, refl, ap, arith, ◌<◌, ◌∙◌, inl, inr, List, [], ◌∷◌, Bool, true, false, Bool-cases, ltb,
  ◌==◌, ◌&&◌, ◌||◌, if◌then◌else◌,
}
use nt.Prelude.Int.{ℤ, pos, negsuc}

abbrev pub cap_max : ℕ
cap_max = 17

-- CAP_DEVICE, CAP_AUTH, CAP_SYSTEM, CAP_AI, CAP_PUSH, CAP_NETWORK, CAP_NOTIFY and CAP_MISC.
abbrev pub always_on : ℕ → Bool
always_on i = i == 0 || i == 1 || i == 2 || i == 6 || i == 12 || i == 13 || i == 15 || i == 16

pub record CapRegistry : Type 0 where
  pub enabled_mask : ℕ → Bool

unfoldable pub registry_create : CapRegistry
registry_create = record { enabled_mask = always_on }

-- The status is whether the capability exists.
unfoldable pub enable : CapRegistry → ℤ → Bool → Bool × CapRegistry
enable r (negsuc c) on = (false, r)
enable r (pos c) on =
    if ltb c cap_max
    then (
      true,
      record { enabled_mask = λ i. (if c == i then on else r.enabled_mask i) || always_on i },
    )
    else (false, r)

unfoldable pub is_enabled : CapRegistry → ℤ → Bool
is_enabled r (negsuc c) = false
is_enabled r (pos c) = ltb c cap_max && r.enabled_mask c

-- Switches in their order.
unfoldable pub enable_all : List (ℤ × Bool) → CapRegistry → CapRegistry
enable_all [] r = r
enable_all ((c, on) ∷ cs) r = enable_all cs (enable r c on).1

-- What the switches say last of capability `k`, or what was said before them.
unfoldable pub last_switch : List (ℤ × Bool) → ℕ → Bool → Bool
last_switch [] k was = was
last_switch ((pos c, on) ∷ cs) k was = last_switch cs k (if c == k then on else was)
last_switch ((negsuc c, on) ∷ cs) k was = last_switch cs k was

enable-bit :
    (r : CapRegistry) (c k : ℕ) (on : Bool)
    → ltb k cap_max ≡ true
    → always_on k ≡ false
    → (enable r (pos c) on).1.enabled_mask k ≡ (if c == k then on else r.enabled_mask k)
unfolding enable
enable-bit r c k on lt al = elim (Bool-cases (ltb c 17)) [
  | inl e ↦ rw (enable, e) (ground (arith, al))
  | inr e ↦ rw (enable, e) (ground (arith, e, lt))
]

enable-core :
    (r : CapRegistry) (c : ℤ) (k : ℕ) (on : Bool)
    → always_on k ≡ true
    → r.enabled_mask k ≡ true
    → (enable r c on).1.enabled_mask k ≡ true
unfolding enable
enable-core r (negsuc c) k on al m = m
enable-core r (pos c) k on al m = elim (Bool-cases (ltb c 17)) [
  | inl e ↦ rw (enable, e) (ground (arith, al))
  | inr e ↦ rw (enable, e) m
]

enable_all-core :
    (cs : List (ℤ × Bool)) (r : CapRegistry) (k : ℕ)
    → always_on k ≡ true
    → r.enabled_mask k ≡ true
    → (enable_all cs r).enabled_mask k ≡ true
unfolding enable_all
enable_all-core [] r k al m = m
enable_all-core ((c, on) ∷ cs) r k al m =
    enable_all-core cs (enable r c on).1 k al (enable-core r c k on al m)

enable_all-bit :
    (cs : List (ℤ × Bool)) (r : CapRegistry) (k : ℕ)
    → ltb k cap_max ≡ true
    → always_on k ≡ false
    → (enable_all cs r).enabled_mask k ≡ last_switch cs k (r.enabled_mask k)
unfolding enable_all last_switch enable
enable_all-bit [] r k lt al = refl
enable_all-bit ((pos c, on) ∷ cs) r k lt al =
    enable_all-bit cs (enable r (pos c) on).1 k lt al
    ∙ ap (last_switch cs k) (enable-bit r c k on lt al)
enable_all-bit ((negsuc c, on) ∷ cs) r k lt al = enable_all-bit cs r k lt al

-- After any switches of a fresh registry, those of numbers that are no capability included, a
-- capability is enabled exactly where it is one of the core, or the last switch of it was on.
pub enable_all-last :
    (cs : List (ℤ × Bool)) (k : ℕ)
    → k < cap_max
    → is_enabled (enable_all cs registry_create) (pos k)
      ≡ (if always_on k then true else last_switch cs k false)
unfolding is_enabled registry_create
enable_all-last cs k lt = elim (Bool-cases (always_on k)) [
  | inl a ↦ ground (arith, a, lt, enable_all-core cs registry_create k a a)
  | inr a ↦ ground (arith, a, lt, enable_all-bit cs registry_create k (ground (arith, lt)) a)
]
