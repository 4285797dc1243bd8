-- ===== src/Common/Text/Strtok.antt =====
-- strtok(3): skip the delimiters in front, cut the token at the next delimiter, and keep the
-- place behind it for the next call.
use linux_systemprogramming.Common.Tests.{◌==◌, if◌then◌else◌}
use Prim.Native.Nat.{ℕ}
use mathlib.Core.Bool.{Bool, false, ◌||◌}
use mathlib.Core.Option.{Option, none, some}
use mathlib.Core.List.{List, [], ◌∷◌}

abbrev pub contains : List ℕ → ℕ → Bool
contains [] c = false
contains (d ∷ ds) c = c == d || contains ds c

-- The text from the first byte on that is no delimiter.
unfoldable pub skip_delims : List ℕ → List ℕ → List ℕ
skip_delims ds [] = []
skip_delims ds (c ∷ s) = if contains ds c then skip_delims ds s else c ∷ s

-- The token at the head of the text, and the text behind the delimiter that ends it.
unfoldable pub cut_token : List ℕ → List ℕ → List ℕ × List ℕ
cut_token ds [] = ([], [])
cut_token ds (c ∷ s) =
    let (t, rest) = cut_token ds s in if contains ds c then ([], s) else (c ∷ t, rest)

-- `strtok`, with the saved place passed in and returned.
unfoldable pub strtok : List ℕ → List ℕ → Option (List ℕ × List ℕ)
unfolding skip_delims cut_token
strtok ds s = elim (skip_delims ds s) [ [] ↦ none | c ∷ r ↦ some (cut_token ds (c ∷ r)) ]
