-- ===== src/Prelude/Strings.antt =====
-- C strings as lists of bytes, compared as strcmp compares them.
use Prim.Native.Char.{code}
use Prim.Native.Nat.{ℕ}
use Prim.Native.String.{String}
use mathlib.Core.Path.{◌≡◌, refl}
use mathlib.Core.Logic.{◌↔◌}
use mathlib.Core.Bool.{Bool, true, false, ◌&&◌}
use mathlib.Core.List.{List, [], ◌∷◌}
use native.Mathlib.Omega.{arith}
use beaver_mq.Prelude.Tests.{◌==◌}

abbrev pub Bytes : Type 0
Bytes = List ℕ

-- The bytes of an ASCII literal.
abbrev pub codes : String → Bytes
codes String.[] = []
codes (String.◌∷◌ c s) = code c ∷ codes s

-- strcmp(a, b) == 0
unfoldable pub str_eq : Bytes → Bytes → Bool
str_eq [] [] = true
str_eq (a ∷ r) (b ∷ s) = (a == b) && str_eq r s
str_eq _ _ = false

pub str_eq_refl : (a : Bytes) → str_eq a a ≡ true
unfolding str_eq
str_eq_refl [] = refl
str_eq_refl (x ∷ xs) = ground (arith, str_eq_refl xs)

pub str_eq→eq : (a b : Bytes) → str_eq a b ≡ true → a ≡ b
unfolding str_eq
str_eq→eq [] [] h = refl
str_eq→eq [] (b ∷ s) h = cc
str_eq→eq (a ∷ r) [] h = cc
str_eq→eq (a ∷ r) (b ∷ s) h = ground (arith, str_eq→eq r s)

pub str_eq_iff : (a b : Bytes) → (str_eq a b ≡ true) ↔ (a ≡ b)
str_eq_iff a b = (str_eq→eq a b, λ e. rw e (str_eq_refl b))
