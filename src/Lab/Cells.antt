-- ===== src/Lab/Cells.antt =====
-- Arrays of strings that end with NULL, as command_parse of lab/parsing.c makes them.
use linux_systemprogramming.Common.{
  ℕ, zero, suc, ◌+◌, ◌-◌, ◌<◌, ◌≡◌, ◌≢◌, refl, Bool, true, false, Option, none, some, [], ◌∷◌,
  length, get_elem?, set, drop, all, ℕ_discrete, arith, get_elem?-drop, get_elem?-set_ne,
  length-set, length-drop,
}
use linux_systemprogramming.Common.Text.{CString}
use linux_systemprogramming.Lab.Parsing.{Args}
use linux_systemprogramming.Lab.OpType.{last_char}

-- The last cell is NULL.
abbrev pub Terminated : Args → Type 0
Terminated args = get_elem? args (length args - 1) ≡ some none

-- A string with a byte in it, or NULL.
abbrev pub is_filled : Option CString → Bool
is_filled none = true
is_filled (some []) = false
is_filled (some (c ∷ s)) = true

abbrev pub IsFilled : Args → Type 0
IsFilled args = all is_filled args ≡ true

pub get_elem?-lt :
    (args : Args) (i : ℕ) (c : Option CString) → get_elem? args i ≡ some c → i < length args
get_elem?-lt [] i c h = cc
get_elem?-lt (d ∷ r) zero c h = omega arith
get_elem?-lt (d ∷ r) (suc i) c h = omega (arith, get_elem?-lt r i c h)

pub Terminated-pos : (args : Args) → Terminated args → 0 < length args
Terminated-pos args h = omega (arith, get_elem?-lt args (length args - 1) none h)

pub Terminated-drop :
    (k : ℕ) (args : Args) → Terminated args → k < length args → Terminated (drop k args)
Terminated-drop k args h lt =
    let e : k + (length args - k - 1) ≡ length args - 1 = omega arith in
    rw (length-drop k args, get_elem?-drop k (length args - k - 1) args, e) h

pub Terminated-set :
    (args : Args) (i : ℕ) (v : Option CString)
    → Terminated args
    → i + 1 < length args
    → Terminated (set args i v)
Terminated-set args i v h lt =
    rw (length-set args i v, get_elem?-set_ne args i (length args - 1) v (omega arith)) h

pub IsFilled-set :
    (args : Args) (i : ℕ) (v : Option CString)
    → IsFilled args
    → is_filled v ≡ true
    → IsFilled (set args i v)
IsFilled-set [] i v h e = h
IsFilled-set (c ∷ r) zero v h e = ground arith
IsFilled-set (c ∷ r) (suc i) v h e = ground (arith, IsFilled-set r i v)

pub IsFilled-get_elem? :
    (args : Args) (i : ℕ) (c : Option CString)
    → IsFilled args
    → get_elem? args i ≡ some c
    → is_filled c ≡ true
IsFilled-get_elem? [] i c h e = cc
IsFilled-get_elem? (d ∷ r) zero c h e = ground arith
IsFilled-get_elem? (d ∷ r) (suc i) c h e = ground (arith, IsFilled-get_elem? r i c)

pub last_char-ne-none : (s : CString) → is_filled (some s) ≡ true → last_char s ≢ none
last_char-ne-none [] f e = cc
last_char-ne-none (c ∷ []) f e = cc
last_char-ne-none (c ∷ d ∷ s) f e = last_char-ne-none (d ∷ s) refl e

pub get_elem?-ne-none : (args : Args) (i : ℕ) → i < length args → get_elem? args i ≢ none
get_elem?-ne-none [] i lt e = absurd (omega arith)
get_elem?-ne-none (d ∷ r) zero lt e = cc
get_elem?-ne-none (d ∷ r) (suc i) lt e = get_elem?-ne-none r i (omega arith) e

pub some_ne_none : {s : CString} → ◌≢◌ {A = Option (Option CString)} (some (some s)) (some none)
some_ne_none e = cc

-- Behind a string there is another cell.
pub next_cell :
    (args : Args) (i : ℕ) (s : CString)
    → Terminated args
    → get_elem? args i ≡ some (some s)
    → i + 1 < length args
next_cell args i s h e = elim (ℕ_discrete i (length args - 1)) [
  | yes q ↦ absurd_cell (rw q at e)
  | no q ↦ omega (arith, get_elem?-lt args i (some s) e)
]
  where
    absurd_cell : get_elem? args (length args - 1) ≡ some (some s) → i + 1 < length args
    absurd_cell e' = cc
