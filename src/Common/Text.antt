-- ===== src/Common/Text.antt =====
-- C strings: a `char *` is the list of the bytes before the terminating NUL. The library calls
-- that the programs make on them: strcmp, strncmp, strchr and strtok.
mod Strtok
pub mod Words
unfoldable pub use Strtok.*
use Prim.Native.Char.{code}
use Prim.Native.String.{String}
use linux_systemprogramming.Common.Tests.{◌==◌, ==_iff}
use Prim.Native.Nat.{ℕ, zero, suc}
use mathlib.Core.Path.{◌≡◌, refl}
use mathlib.Core.Bool.{Bool, true, false, ◌&&◌}
use mathlib.Core.List.{List, [], ◌∷◌}
use native.Mathlib.Omega.{arith}

abbrev pub CString : Type 0
CString = List ℕ

-- The bytes of a literal of the source.
abbrev pub codes : String → CString
codes String.[] = []
codes (String.◌∷◌ c s) = code c ∷ codes s

-- `strcmp(a, b) == 0`
abbrev pub str_eq : CString → CString → Bool
str_eq [] [] = true
str_eq (x ∷ xs) (y ∷ ys) = x == y && str_eq xs ys
str_eq _ _ = false

-- `strncmp(a, b, n) == 0`
abbrev pub strn_eq : ℕ → CString → CString → Bool
strn_eq zero xs ys = true
strn_eq (suc n) [] [] = true
strn_eq (suc n) (x ∷ xs) (y ∷ ys) = x == y && strn_eq n xs ys
strn_eq (suc n) _ _ = false

pub str_eq_refl : (s : CString) → str_eq s s ≡ true
str_eq_refl [] = refl
str_eq_refl (x ∷ xs) = ground (arith, str_eq_refl xs)

pub str_eq→eq : (s t : CString) → str_eq s t ≡ true → s ≡ t
str_eq→eq [] [] h = refl
str_eq→eq [] (y ∷ ys) h = cc
str_eq→eq (x ∷ xs) [] h = cc
str_eq→eq (x ∷ xs) (y ∷ ys) h = ground (arith, str_eq→eq xs ys)
