-- ===== src/Lab/OpType/Named.antt =====
-- Lines in which every command has a name: what `get_op_type` finds on them.
use linux_systemprogramming.Common.{
  ℕ, zero, suc, ◌+◌, ◌-◌, ◌≤◌, ◌<◌, ◌≡◌, ◌≢◌, ◌⊎◌, refl, ap, ◌∙◌, Bool, true, false, Option, none,
  some, [], ◌∷◌, length, get_elem?, set, drop, arith, Option-cases, Bool-cases, inl, inr,
  get_elem?-set_ne, get_elem?-set_self, length-drop, ◌==◌, ℕ_discrete,
}
use linux_systemprogramming.Common.Text.{CString}
use linux_systemprogramming.Lab.Parsing.{Args}
use linux_systemprogramming.Lab.OpType.{
  OpType, op_none, op_pipe, op_out, op_in, op_and, op_background, operator, Scan, overrun, ended,
  found, scan, last_char, chop, Found, trailing, after_scan, get_op_type,
}
use linux_systemprogramming.Lab.OpType.Bounds.{head-drop}
use linux_systemprogramming.Lab.Cells.{get_elem?-lt}

-- What may come next on the line.
pub data Expect : Type 0 where
  command_next more_next file_next anything : Expect

abbrev pub after : OpType → Expect
after op_none = anything
after op_pipe = command_next
after op_out = file_next
after op_in = file_next
after op_and = command_next
after op_background = anything

abbrev expects_command : Expect → Bool
expects_command command_next = true
expects_command _ = false

-- At the start and behind each `|` and `&&` there is a string that is no operator. The string
-- behind `>` or `<` is a file name, whatever it is; behind `&` the line is not read.
unfoldable pub named : Expect → Args → Bool
unfolding operator
named anything r = true
named e [] = true
named command_next (none ∷ r) = false
named command_next (some s ∷ r) = elim (operator s) [ none ↦ named more_next r | some op ↦ false ]
named more_next (none ∷ r) = true
named more_next (some s ∷ r) = elim (operator s) [
  | none ↦ named more_next r
  | some op ↦ named (after op) r
]
named file_next (none ∷ r) = true
named file_next (some s ∷ r) = named more_next r

abbrev pub StringAt : Args → ℕ → Type 0
StringAt args i = (s : CString) × (get_elem? args i ≡ some (some s))

-- Where a scan from the cell `k` ends; in a command's place it has passed a string.
abbrev AfterScan : Args → Expect → ℕ → Scan → Type 0
AfterScan args st k overrun = Unit
AfterScan args st k (ended i) = (k ≤ i) × (st ≡ command_next → (k < i) × StringAt args k)
AfterScan args st k (found op i) =
    (k ≤ i)
    × (st ≡ command_next → (k < i) × StringAt args k)
    × (named (after op) (drop (i + 1) args) ≡ true)

more-AfterScan :
    (args : Args) (st : Expect) (k : ℕ) (sc : Scan)
    → StringAt args k
    → AfterScan args more_next (k + 1) sc
    → AfterScan args st k sc
more-AfterScan args st k overrun at h = tt
more-AfterScan args st k (ended i) at h = (omega arith, λ e. (omega arith, at))
more-AfterScan args st k (found op i) at h = (omega arith, (λ e. (omega arith, at)), h.2)

scan-AfterScan :
    (args : Args) (r : Args) (st : Expect) (i : ℕ)
    → drop i args ≡ r
    → named st r ≡ true
    → (st ≡ command_next) ⊎ (st ≡ more_next)
    → AfterScan args st i (scan r i)
unfolding scan named
scan-AfterScan args [] st i e h w = tt
scan-AfterScan args (none ∷ r) command_next i e h w = cc
scan-AfterScan args (none ∷ r) more_next i e h w = (omega arith, λ q. cc)
scan-AfterScan args (none ∷ r) file_next i e h w = ground arith
scan-AfterScan args (none ∷ r) anything i e h w = ground arith
scan-AfterScan args (some s ∷ r) file_next i e h w = absurd (ground arith)
scan-AfterScan args (some s ∷ r) anything i e h w = absurd (ground arith)
scan-AfterScan args (some s ∷ r) command_next i e h w =
    let (here, rest) = head-drop i args (some s) r e in
    elim (Option-cases (operator s)) [
      | inl o ↦
          rw (o, scan)
            (more-AfterScan args command_next i _ (s, here)
              (scan-AfterScan args r more_next (i + 1) rest (rw (o, named) at h) (inr refl)))
      | inr (op, o) ↦ absurd (ground (arith, o))
    ]
scan-AfterScan args (some s ∷ r) more_next i e h w =
    let (here, rest) = head-drop i args (some s) r e in
    elim (Option-cases (operator s)) [
      | inl o ↦
          rw (o, scan)
            (more-AfterScan args more_next i _ (s, here)
              (scan-AfterScan args r more_next (i + 1) rest (rw (o, named) at h) (inr refl)))
      | inr (op, o) ↦ rw (o, scan) (omega arith, (λ q. cc), rw rest (rw (o, named) at h))
    ]

-- At `chain_loop`, with the command at `cmd` and the scan from `curr` on: either both are the place
-- of a command, or a command stands at `cmd` already.
abbrev pub Stands : Expect → Args → ℕ → ℕ → Type 0
Stands command_next args cmd curr = cmd ≡ curr
Stands more_next args cmd curr = (cmd < curr) × StringAt args cmd
Stands _ args cmd curr = ⊥

abbrev pub Posture : Args → ℕ → ℕ → Type 0
Posture args cmd curr = (st : Expect) × (named st (drop curr args) ≡ true) × Stands st args cmd curr

drop-set : (xs : Args) (i n : ℕ) (v : Option CString) → i < n → drop n (set xs i v) ≡ drop n xs
drop-set [] i n v lt = refl
drop-set (x ∷ xs) i zero v lt = absurd (omega arith)
drop-set (x ∷ xs) zero (suc n) v lt = refl
drop-set (x ∷ xs) (suc i) (suc n) v lt = drop-set xs i n v (omega arith)

StringAt-set_ne :
    (args : Args) (i cmd : ℕ) (v : Option CString)
    → i ≢ cmd
    → StringAt args cmd
    → StringAt (set args i v) cmd
StringAt-set_ne args i cmd v ne (s, e) = (s, get_elem?-set_ne args i cmd v ne ∙ e)

StringAt-set :
    (args : Args) (i cmd : ℕ) (s : CString) → StringAt args cmd → StringAt (set args i (some s)) cmd
StringAt-set args i cmd s at = elim (ℕ_discrete i cmd) [
  | yes q ↦ (s, rw q (get_elem?-set_self args cmd (some s) (get_elem?-lt args cmd _ at.1)))
  | no q ↦ StringAt-set_ne args i cmd (some s) q at
]

-- The command stands in front of the end of the scan.
commanded :
    (args : Args) (cmd k i : ℕ) (st : Expect)
    → Stands st args cmd k
    → k ≤ i
    → (st ≡ command_next → (k < i) × StringAt args k)
    → (cmd < i) × StringAt args cmd
commanded args cmd k i command_next e le at =
    let (lt, (s, q)) = at refl in (omega arith, (s, rw e q))
commanded args cmd k i more_next (lt, at') le at = (omega arith, at')
commanded args cmd k i file_next e le at = absurd e
commanded args cmd k i anything e le at = absurd e

abbrev pub Named : ℕ → Option Found → Type 0
Named cmd none = Unit
Named cmd (some (op, end, args)) =
    StringAt args cmd × (named (after op) (drop (end + 1) args) ≡ true)

trailing-Named :
    (args : Args) (cmd i : ℕ) (cell : Option (Option CString))
    → StringAt args cmd
    → Named cmd (trailing args i cell)
unfolding trailing named
trailing-Named args cmd i none at = tt
trailing-Named args cmd i (some none) at = tt
trailing-Named args cmd i (some (some s)) at = elim (Option-cases (last_char s)) [
  | inl e ↦ rw (e, trailing) tt
  | inr (c, e) ↦ elim (Bool-cases (c == b'&')) [
    | inl amp ↦ rw (e, trailing, amp) (StringAt-set args (i - 1) cmd (chop s) at, refl)
    | inr other ↦ rw (e, trailing, other) (at, refl)
  ]
]

after_scan-Named :
    (args : Args) (cmd k : ℕ) (st : Expect) (sc : Scan)
    → Stands st args cmd k
    → AfterScan args st k sc
    → Named cmd (after_scan args k sc)
unfolding after_scan named
after_scan-Named args cmd k st overrun stands h = tt
after_scan-Named args cmd k st (found op i) stands (le, at, rest) =
    let (lt, here) = commanded args cmd k i st stands le at in
    (
      StringAt-set_ne args i cmd none (omega arith) here,
      rw (drop-set args i (i + 1) none (omega arith)) rest,
    )
after_scan-Named args cmd k st (ended i) stands (le, at) =
    let here = (commanded args cmd k i st stands le at).1 in
    elim (Option-cases (get_elem? args k)) [
      | inl e ↦ rw (e, after_scan) tt
      | inr (none, e) ↦ rw (e, after_scan) (here, refl)
      | inr (some s, e) ↦
          rw (e, after_scan) (trailing-Named args cmd i (get_elem? args (i - 1)) here)
    ]

scanned_expect :
    (st : Expect) (args : Args) (cmd curr : ℕ)
    → Stands st args cmd curr
    → (st ≡ command_next) ⊎ (st ≡ more_next)
scanned_expect command_next args cmd curr h = inl refl
scanned_expect more_next args cmd curr h = inr refl
scanned_expect file_next args cmd curr h = absurd h
scanned_expect anything args cmd curr h = absurd h

-- From such a place `get_op_type` leaves a string at the command's cell, and behind the operator
-- what may follow it.
pub get_op_type-Named :
    (args : Args) (cmd curr : ℕ) → Posture args cmd curr → Named cmd (get_op_type args curr)
unfolding get_op_type
get_op_type-Named args cmd curr (st, h, stands) =
    after_scan-Named args cmd curr st (scan (drop curr args) curr) stands
      (scan-AfterScan args (drop curr args) st curr refl h (scanned_expect st args cmd curr stands))

-- Behind a file name the scan goes on after it.
pub named-file :
    (args : Args) (i : ℕ) (s : CString)
    → get_elem? args i ≡ some (some s)
    → named file_next (drop i args) ≡ true
    → named more_next (drop (i + 1) args) ≡ true
unfolding named
named-file args i s e h = go (drop i args) refl
  where
    go : (r : Args) → drop i args ≡ r → named more_next (drop (i + 1) args) ≡ true
    go [] q = absurd (omega (arith, ap length q, length-drop i args, get_elem?-lt args i _ e))
    go (c ∷ r) q =
        let (here, rest) = head-drop i args c r q in
        let cell : c ≡ some s = cc (here, e) in rw rest (rw (q, cell) at h)
