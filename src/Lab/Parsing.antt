-- ===== src/Lab/Parsing.antt =====
-- lab/parsing.c: the line of input as an argument array, and its release.
pub mod Laws
use linux_systemprogramming.Common.{ℕ, zero, suc, Option, none, some, List, [], ◌∷◌, length}
use linux_systemprogramming.Common.Text.{CString, codes, strtok}

-- A `char **`: the cells from the pointer's target to the end of the allocation. `none` is NULL.
abbrev pub Args : Type 0
Args = List (Option CString)

abbrev pub delims : CString
delims = codes " \t\n"

-- The `while` loop: from the token found last, and the place that strtok keeps. The fuel is the
-- length of the line.
collect : ℕ → Option (CString × CString) → Args
collect fuel none = none ∷ []
collect zero (some _) = []
collect (suc fuel) (some (token, rest)) = some token ∷ collect fuel (strtok delims rest)

-- `none` is the returned NULL.
unfoldable pub command_parse : Option CString → Option Args
unfolding collect strtok
command_parse none = none
command_parse (some line) = elim (strtok delims line) [
  | none ↦ none
  | some first ↦ some (collect (length line) (some first))
]

-- The strings that are freed: those in front of the first NULL. `none` is a read past the array.
unfoldable pub command_freelist : Args → Option (List CString)
command_freelist [] = none
command_freelist (none ∷ r) = some []
command_freelist (some s ∷ r) = elim (command_freelist r) [ none ↦ none | some l ↦ some (s ∷ l) ]
