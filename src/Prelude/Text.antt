-- ===== src/Prelude/Text.antt =====
-- C strings as lists of bytes, without the zero at their end.
use Prim.Native.Nat.{ℕ}
use mathlib.Core.Path.{◌≡◌, refl, ap₂}
use mathlib.Core.Bool.{Bool, true, false, ◌&&◌}
use mathlib.Core.List.{List, [], ◌∷◌}
use native.Mathlib.Omega.{arith}
use nt.Prelude.Tests.{◌==◌}

abbrev pub Str : Type 0
Str = List ℕ

abbrev pub is_empty : Str → Bool
is_empty [] = true
is_empty (c ∷ s) = false

-- strcmp(s, t) == 0.
abbrev pub str_eq : Str → Str → Bool
str_eq [] [] = true
str_eq [] (b ∷ t) = false
str_eq (a ∷ s) [] = false
str_eq (a ∷ s) (b ∷ t) = a == b && str_eq s t

pub str_eq_refl : (s : Str) → str_eq s s ≡ true
str_eq_refl [] = refl
str_eq_refl (a ∷ s) = ground (arith, str_eq_refl s)

pub str_eq_sound : (s t : Str) → str_eq s t ≡ true → s ≡ t
str_eq_sound [] [] h = refl
str_eq_sound [] (b ∷ t) h = absurd (ground (arith, h))
str_eq_sound (a ∷ s) [] h = absurd (ground (arith, h))
str_eq_sound (a ∷ s) (b ∷ t) h =
    ap₂ (λ x xs. x ∷ xs) (ground (arith, h)) (str_eq_sound s t (ground (arith, h)))
