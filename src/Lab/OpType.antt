-- ===== src/Lab/OpType.antt =====
-- `get_op_type` of lab/isexecutable.c: the next operator of an argument array.
pub mod Bounds
pub mod Named
use linux_systemprogramming.Common.{
  ℕ, ◌+◌, ◌-◌, Option, none, some, [], ◌∷◌, ◌==◌, get_elem?, set, drop, if◌then◌else◌,
}
use linux_systemprogramming.Common.Text.{CString, codes, str_eq}
use linux_systemprogramming.Lab.Parsing.{Args}

pub data OpType : Type 0 where
  op_none op_pipe op_out op_in op_and op_background : OpType

-- The chain of strcmp calls.
unfoldable pub operator : CString → Option OpType
operator arg =
    if str_eq arg (codes "|")
    then some op_pipe
    else if str_eq arg (codes ">")
    then some op_out
    else if str_eq arg (codes "<")
    then some op_in
    else if str_eq arg (codes "&&")
    then some op_and
    else if str_eq arg (codes "&")
    then some op_background
    else none

-- How the `for` loop over `arg` ends: past the array, at NULL, or at an operator.
pub data Scan : Type 0 where
  overrun : Scan
  ended : ℕ → Scan
  found : OpType → ℕ → Scan

-- `arg` is the `i`-th cell; the list is the array from there on.
unfoldable pub scan : Args → ℕ → Scan
scan [] i = overrun
scan (none ∷ r) i = ended i
scan (some s ∷ r) i = elim (operator s) [ none ↦ scan r (i + 1) | some op ↦ found op i ]

-- `s[strlen(s) - 1]`; `none` is a read in front of the string.
abbrev pub last_char : CString → Option ℕ
last_char [] = none
last_char (c ∷ []) = some c
last_char (c ∷ d ∷ s) = last_char (d ∷ s)

-- `s` with its last byte made NUL
abbrev pub chop : CString → CString
chop [] = []
chop (c ∷ []) = []
chop (c ∷ d ∷ s) = c ∷ chop (d ∷ s)

abbrev pub Found : Type 0
Found = OpType × ℕ × Args

-- The test on the last string behind the loop; `last` is the cell `*(arg - 1)`.
unfoldable pub trailing : Args → ℕ → Option (Option CString) → Option Found
trailing args i (some (some s)) = elim (last_char s) [
  | none ↦ none
  | some c ↦
      if c == b'&'
      then some (op_background, i, set args (i - 1) (some (chop s)))
      else some (op_none, i, args)
]
trailing args i _ = none

-- From the cell `k` on: the operator, the index that `*end` gets, and the array as written.
-- `none` is an access out of bounds.
unfoldable pub after_scan : Args → ℕ → Scan → Option Found
unfolding trailing
after_scan args k overrun = none
after_scan args k (found op i) = some (op, i, set args i none)
after_scan args k (ended i) = elim (get_elem? args k) [
  | none ↦ none
  | some none ↦ some (op_none, i, args)
  | some (some _) ↦ trailing args i (get_elem? args (i - 1))
]

unfoldable pub get_op_type : Args → ℕ → Option Found
unfolding scan after_scan operator
get_op_type args k = after_scan args k (scan (drop k args) k)
