-- ===== src/Lab2/Plan.antt =====
-- lab2/is_executable.c: the trailing `&` and the first operator of a line.
use linux_systemprogramming.Common.{
  ℕ, zero, suc, ◌-◌, ◌≡◌, refl, ap, Bool, true, false, Option, none, some, List, [], ◌∷◌, ◌++◌, not,
  ◌||◌, all, length-append, &&-left, &&-right, length, get_elem?, set, if◌then◌else◌, arith,
}
use linux_systemprogramming.Common.Text.{CString, codes, str_eq}
use linux_systemprogramming.Lab.Parsing.{Args}

-- `for (index = 0; args[index] != NULL; index++);` `none` is a read past the array.
unfoldable pub index_of_null : Args → Option ℕ
index_of_null [] = none
index_of_null (none ∷ r) = some 0
index_of_null (some s ∷ r) = elim (index_of_null r) [ none ↦ none | some n ↦ some (suc n) ]

-- The test of the last argument: the result (true for 1, the foreground) and the array.
unfoldable pub check_last : Args → ℕ → Option (Bool × Args)
check_last args index = elim (get_elem? args (index - 1)) [
  | none ↦ none
  | some none ↦ none
  | some (some s) ↦
      some (if str_eq s (codes "&") then (false, set args (index - 1) none) else (true, args))
]

unfoldable pub is_background : Args → Option (Bool × Args)
unfolding index_of_null check_last
is_background args = elim (index_of_null args) [
  | none ↦ none
  | some zero ↦ some (true, args)
  | some (suc n) ↦ check_last args (suc n)
]

-- What the child is to do: `args1` and `args2` with the operator between them.
pub data Plan : Type 0 where
  simple : Args → Plan
  piped : Args → Args → Plan
  redirected : Args → Args → Plan

-- One more cell in front of `args1`.
abbrev pub behind : CString → Plan → Plan
behind s (simple a) = simple (some s ∷ a)
behind s (piped a b) = piped (some s ∷ a) b
behind s (redirected a b) = redirected (some s ∷ a) b

-- The loop over the arguments, which ends at the first operator. It overwrites the operator by
-- NULL, so that `args1` ends there.
unfoldable pub find_operator : Args → Option Plan
find_operator [] = none
find_operator (none ∷ r) = some (simple (none ∷ r))
find_operator (some s ∷ r) =
    let rest = find_operator r in
    if str_eq s (codes "|")
    then some (piped (none ∷ r) r)
    else if str_eq s (codes ">")
    then some (redirected (none ∷ r) r)
    else elim rest [ none ↦ none | some p ↦ some (behind s p) ]

-- The strings in front of the first NULL: what execvp passes on.
abbrev pub argv : Args → List CString
argv [] = []
argv (none ∷ r) = []
argv (some s ∷ r) = s ∷ argv r

-- An array with these strings, a NULL behind them, and further cells.
abbrev pub cells : List CString → Args → Args
cells [] r = none ∷ r
cells (s ∷ ws) r = some s ∷ cells ws r

abbrev pub is_operator : CString → Bool
is_operator s = str_eq s (codes "|") || str_eq s (codes ">")

pub argv-cells : (ws : List CString) (r : Args) → argv (cells ws r) ≡ ws
argv-cells [] r = refl
argv-cells (w ∷ ws) r = ap (λ l. w ∷ l) (argv-cells ws r)

first_test : (a b : Bool) → not (a || b) ≡ true → a ≡ false
first_test a b h = ground arith

second_test : (a b : Bool) → not (a || b) ≡ true → b ≡ false
second_test a b h = ground arith

-- The words in front of the first operator become the first command; those behind it are the
-- second command of a pipe, or begin with the file of a redirection, further operators included.
pub find_operator_lem :
    (ws vs : List CString) (r : Args)
    → all (λ s. not (is_operator s)) ws ≡ true
    → (find_operator (cells ws r) ≡ some (simple (cells ws r)))
      × (find_operator (cells (ws ++ codes "|" ∷ vs) r)
          ≡ some (piped (cells ws (cells vs r)) (cells vs r)))
      × (find_operator (cells (ws ++ codes ">" ∷ vs) r)
          ≡ some (redirected (cells ws (cells vs r)) (cells vs r)))
unfolding find_operator
find_operator_lem [] vs r h = (refl, refl, refl)
find_operator_lem (w ∷ ws) vs r h =
    let (simple_rest, pipe_rest, into_rest) = find_operator_lem ws vs r (&&-right _ _ h) in
    rw (not_pipe, not_into, simple_rest, pipe_rest, into_rest) (refl, refl, refl)
  where
    not_pipe : str_eq w (codes "|") ≡ false
    not_pipe = first_test (str_eq w (codes "|")) (str_eq w (codes ">")) (&&-left _ _ h)

    not_into : str_eq w (codes ">") ≡ false
    not_into = second_test (str_eq w (codes "|")) (str_eq w (codes ">")) (&&-left _ _ h)

index_of_null-cells : (ws : List CString) (r : Args) → index_of_null (cells ws r) ≡ some (length ws)
unfolding index_of_null
index_of_null-cells [] r = refl
index_of_null-cells (w ∷ ws) r = rw (index_of_null-cells ws r) refl

get_elem?-last :
    (ws : List CString) (w : CString) (r : Args)
    → get_elem? (cells (ws ++ w ∷ []) r) (length ws) ≡ some (some w)
get_elem?-last [] w r = refl
get_elem?-last (v ∷ ws) w r = get_elem?-last ws w r

set-last :
    (ws : List CString) (w : CString) (r : Args)
    → set (cells (ws ++ w ∷ []) r) (length ws) none ≡ cells ws (none ∷ r)
set-last [] w r = refl
set-last (v ∷ ws) w r = ap (λ l. some v ∷ l) (set-last ws w r)

-- A last argument `&` is cut off and puts the command in the background; with any other last
-- argument the array stays as it is and the shell waits.
pub is_background_lem :
    (ws : List CString) (w : CString) (r : Args)
    → is_background (cells (ws ++ w ∷ []) r)
      ≡ some (
          if str_eq w (codes "&")
          then (false, cells ws (none ∷ r))
          else (true, cells (ws ++ w ∷ []) r))
unfolding is_background check_last
is_background_lem ws w r =
    rw (is_background, index_of_null-cells (ws ++ w ∷ []) r, longer)
      (tested (str_eq w (codes "&")) refl)
  where
    longer : length (ws ++ w ∷ []) ≡ suc (length ws)
    longer = omega (arith, length-append ws (w ∷ []))

    before : suc (length ws) - 1 ≡ length ws
    before = omega arith

    tested :
        (b : Bool)
        → str_eq w (codes "&") ≡ b
        → check_last (cells (ws ++ w ∷ []) r) (suc (length ws))
          ≡ some (if b then (false, cells ws (none ∷ r)) else (true, cells (ws ++ w ∷ []) r))
    tested true e = rw (check_last, before, get_elem?-last ws w r, e, before, set-last ws w r) refl
    tested false e = rw (check_last, before, get_elem?-last ws w r, e) refl
