-- ===== src/Lab/OpType/Bounds.antt =====
-- `get_op_type` on a NULL-terminated array of non-empty strings stays inside the array.
use linux_systemprogramming.Common.{
  ℕ, zero, suc, ◌+◌, ◌-◌, ◌≤◌, ◌<◌, ◌≡◌, ◌≢◌, refl, sym, ap, ◌∙◌, Bool, true, false, Option, none,
  some, [], ◌∷◌, length, get_elem?, set, drop, arith, Option-cases, Bool-cases, inl, inr,
  length-set, length-drop, ◌==◌,
}
use linux_systemprogramming.Common.Text.{CString}
use linux_systemprogramming.Lab.Parsing.{Args}
use linux_systemprogramming.Lab.OpType.{
  OpType, op_none, op_background, operator, Scan, overrun, ended, found, scan, last_char, chop,
  Found, trailing, after_scan, get_op_type,
}
use linux_systemprogramming.Lab.Cells.{
  Terminated, is_filled, IsFilled, get_elem?-lt, Terminated-set, IsFilled-set, IsFilled-get_elem?,
  last_char-ne-none, get_elem?-ne-none, some_ne_none, next_cell,
}

-- How the loop can end on an array from the cell `k` on: at NULL, with only strings in front of
-- it, or at a string.
abbrev pub Scanned : Args → ℕ → Scan → Type 0
Scanned args k overrun = ⊥
Scanned args k (ended i) =
    (k ≤ i)
    × (get_elem? args i ≡ some none)
    × (k < i → (s : CString) × (get_elem? args (i - 1) ≡ some (some s)))
Scanned args k (found op i) =
    (k ≤ i) × (op ≢ op_none) × ((s : CString) × (get_elem? args i ≡ some (some s)))

operator-ne-none : (s : CString) (op : OpType) → operator s ≡ some op → op ≢ op_none
unfolding operator
operator-ne-none s op h e = ground arith

-- The head of `args + i`, and the array behind it.
pub head-drop :
    (i : ℕ) (args : Args) (c : Option CString) (r : Args)
    → drop i args ≡ c ∷ r
    → (get_elem? args i ≡ some c) × (drop (i + 1) args ≡ r)
head-drop zero [] c r e = absurd (cc e)
head-drop zero (d ∷ args) c r e = ground arith
head-drop (suc i) [] c r e = absurd (cc e)
head-drop (suc i) (d ∷ args) c r e = ground (arith, head-drop i args c r e)

abbrev StringBefore : Args → ℕ → ℕ → Type 0
StringBefore args k i = k < i → (s : CString) × (get_elem? args (i - 1) ≡ some (some s))

scan-Scanned :
    (args : Args) (k : ℕ) (r : Args) (i : ℕ)
    → Terminated args
    → drop i args ≡ r
    → i < length args
    → k ≤ i
    → StringBefore args k i
    → Scanned args k (scan r i)
unfolding scan
scan-Scanned args k [] i h e lt le before = absurd (omega (arith, ap length e, length-drop i args))
scan-Scanned args k (none ∷ r) i h e lt le before = (le, (head-drop i args none r e).0, before)
scan-Scanned args k (some s ∷ r) i h e lt le before =
    let here : get_elem? args i ≡ some (some s) = (head-drop i args (some s) r e).0 in
    let q : i ≡ i + 1 - 1 = omega arith in
    elim (Option-cases (operator s)) [
      | inl o ↦
          rw (o, scan)
            (scan-Scanned args k r (i + 1) h (head-drop i args (some s) r e).1
              (next_cell args i s h here) (omega arith) (λ _. (s, rw (← q) here)))
      | inr (op, o) ↦ rw (o, scan) (le, operator-ne-none s op o, (s, here))
    ]

-- An operator with something behind it.
abbrev pub is_infix : OpType → Bool
is_infix op_none = false
is_infix op_background = false
is_infix _ = true

-- What `get_op_type` leaves: an array of the same length that is still NULL-terminated, an end
-- inside it, and a cell behind the end of an operator that has something behind it.
pub record IsFound (args : Args) (k : ℕ) (f : Found) : Type 0 where
  pub same_length : length f.2 ≡ length args
  pub terminated : Terminated f.2
  pub filled : f.0 ≢ op_background → IsFilled f.2
  pub onward : k ≤ f.1
  pub inside : f.1 < length args
  pub room : is_infix f.0 ≡ true → f.1 + 1 < length args

abbrev Finds : Args → ℕ → Option Found → Type 0
Finds args k none = ⊥
Finds args k (some f) = IsFound args k f

module _ (args : Args) (k : ℕ) (h : Terminated args) (filled : IsFilled args) where
  IsFound-operator :
      (op : OpType) (i : ℕ) (s : CString)
      → k ≤ i
      → get_elem? args i ≡ some (some s)
      → IsFound args k (op, i, set args i none)
  IsFound-operator op i s le here = record {
    same_length = length-set args i none;
    terminated = Terminated-set args i none h (next_cell args i s h here);
    filled = λ _. IsFilled-set args i none filled refl;
    onward = le;
    inside = omega (arith, next_cell args i s h here);
    room = λ _. next_cell args i s h here;
  }

  IsFound-none : (i : ℕ) → k ≤ i → i < length args → IsFound args k (op_none, i, args)
  IsFound-none i le lt = record {
    same_length = refl;
    terminated = h;
    filled = λ _. filled;
    onward = le;
    inside = lt;
    room = λ e. cc;
  }

  IsFound-background :
      (i : ℕ) (s : CString)
      → k ≤ i
      → i < length args
      → 0 < i
      → IsFound args k (op_background, i, set args (i - 1) (some s))
  IsFound-background i s le lt pos = record {
    same_length = length-set args (i - 1) (some s);
    terminated = Terminated-set args (i - 1) (some s) h (omega arith);
    filled = λ ne. absurd (ne refl);
    onward = le;
    inside = lt;
    room = λ e. cc;
  }

  trailing-Finds :
      (i : ℕ) (s : CString)
      → k ≤ i
      → i < length args
      → 0 < i
      → is_filled (some s) ≡ true
      → Finds args k (trailing args i (some (some s)))
  unfolding trailing
  trailing-Finds i s le lt pos f = elim (Option-cases (last_char s)) [
    | inl e ↦ absurd (last_char-ne-none s f e)
    | inr (c, e) ↦ elim (Bool-cases (c == b'&')) [
      | inl amp ↦ rw (e, trailing, amp) (IsFound-background i (chop s) le lt pos)
      | inr other ↦ rw (e, trailing, other) (IsFound-none i le lt)
    ]
  ]

  after_scan-Finds :
      (sc : Scan) → Scanned args k sc → k < length args → Finds args k (after_scan args k sc)
  unfolding after_scan
  after_scan-Finds overrun sc lt = sc
  after_scan-Finds (found op i) (le, _, (s, here)) lt = IsFound-operator op i s le here
  after_scan-Finds (ended i) (le, here, before) lt = elim (Option-cases (get_elem? args k)) [
    | inl e ↦ absurd (get_elem?-ne-none args k lt e)
    | inr (none, e) ↦ rw (e, after_scan) (IsFound-none i le (get_elem?-lt args i none here))
    | inr (some s, e) ↦
        let ne : k ≢ i = λ q. some_ne_none (sym e ∙ ap (get_elem? args) q ∙ here) in
        let (last, e') = before (omega arith) in
        rw (e, after_scan, e')
          (trailing-Finds i last le (get_elem?-lt args i none here) (omega arith)
            (IsFilled-get_elem? args (i - 1) (some last) filled e'))
  ]

  pub get_op_type_bounds :
      k < length args → (f : Found) × (get_op_type args k ≡ some f) × IsFound args k f
  unfolding get_op_type
  get_op_type_bounds lt =
      let found =
        after_scan-Finds (scan (drop k args) k)
          (scan-Scanned args k (drop k args) k h refl lt (omega arith) (λ p. absurd (omega arith)))
          lt in
      result (get_op_type args k) found
    where
      result : (o : Option Found) → Finds args k o → (f : Found) × (o ≡ some f) × IsFound args k f
      result none bad = absurd bad
      result (some f) good = (f, refl, good)
