-- ===== src/Lab2/Parsing.antt =====
-- lab2/parsing.c: the argument array that grows by realloc.
use linux_systemprogramming.Common.{
  ℕ, zero, suc, ◌+◌, ◌≤◌, arith, length-append, ◌≡◌, refl, sym, ap, ◌∙◌, Option, none, some, List,
  [], ◌∷◌, ◌++◌, length, set, append_assoc,
}
use linux_systemprogramming.Common.Text.{CString, codes, strtok}
use linux_systemprogramming.Common.Text.Words.{words, Cuts, strtok-Cuts}
use linux_systemprogramming.Lab.Parsing.{Args, command_parse as first_parse}
use linux_systemprogramming.Lab.Parsing.Laws.{array, parsed, command_parse-eq-words}

abbrev pub delims : CString
delims = codes " \t\n"

-- The `while` loop on the array so far, whose last cell is `arglist[argcount]` and not yet written;
-- `stale` is what realloc leaves in the cell that it adds. The fuel is the length of the line.
unfoldable pub grow : Option CString → ℕ → Args → ℕ → Option (CString × CString) → Args
grow stale fuel arglist argcount none = set arglist argcount none
grow stale zero arglist argcount (some first) = arglist
grow stale (suc fuel) arglist argcount (some (token, rest)) =
    grow stale fuel (set arglist argcount (some token) ++ stale ∷ []) (argcount + 1)
      (strtok delims rest)

unfoldable pub command_parse : Option CString → Option CString → Option Args
unfolding grow strtok
command_parse stale none = none
command_parse stale (some line) = elim (strtok delims line) [
  | none ↦ none
  | some first ↦ some (grow stale (length line) (stale ∷ []) 0 (some first))
]

-- `none` as argument is NULL, and `none` as result a read out of bounds or through NULL.
unfoldable pub freed : Args → Option (List CString)
freed [] = none
freed (none ∷ r) = some []
freed (some s ∷ r) = elim (freed r) [ none ↦ none | some l ↦ some (s ∷ l) ]

unfoldable pub command_freelist : Option Args → Option (List CString)
unfolding freed
command_freelist none = none
command_freelist (some arglist) = freed arglist

set-last :
    (done : Args) (x v : Option CString) → set (done ++ x ∷ []) (length done) v ≡ done ++ v ∷ []
set-last [] x v = refl
set-last (c ∷ done) x v = ap (λ l. c ∷ l) (set-last done x v)

grow-step :
    (stale : Option CString) (fuel : ℕ) (a : Args) (n : ℕ) (token rest : CString)
    → grow stale (suc fuel) a n (some (token, rest))
      ≡ grow stale fuel (set a n (some token) ++ stale ∷ []) (n + 1) (strtok delims rest)
unfolding grow
grow-step stale fuel a n token rest = refl

grow-array :
    (stale : Option CString) (fuel : ℕ) (done : Args) (s : CString)
    (cut : Option (CString × CString))
    → Cuts delims s cut
    → length s ≤ fuel
    → grow stale fuel (done ++ stale ∷ []) (length done) cut ≡ done ++ array (words delims s)
unfolding grow
grow-array stale fuel done s none c h = rw c (set-last done stale none)
grow-array stale zero done s (some (t, rest)) c h = absurd (omega arith)
grow-array stale (suc fuel) done s (some (t, rest)) c h =
    let longer : length done + 1 ≡ length (done ++ some t ∷ []) =
      omega (arith, length-append done (some t ∷ [])) in
    grow-step stale fuel (done ++ stale ∷ []) (length done) t rest
    ∙ rw (c.0, set-last done stale (some t), longer)
        (grow-array stale fuel (done ++ some t ∷ []) rest (strtok delims rest)
            (strtok-Cuts delims rest) (omega arith)
          ∙ append_assoc done (some t ∷ []) (array (words delims rest)))

-- The array that grows cell by cell ends up as that of the first shell's parser: one cell for each
-- word of the line and one NULL, whatever realloc leaves in the cells that it adds.
pub command_parse-agrees :
    (stale : Option CString) (line : Option CString) → command_parse stale line ≡ first_parse line
unfolding command_parse first_parse
command_parse-agrees stale none = refl
command_parse-agrees stale (some line) =
    go (strtok delims line) refl ∙ sym (command_parse-eq-words line)
  where
    go :
        (cut : Option (CString × CString))
        → strtok delims line ≡ cut
        → command_parse stale (some line) ≡ parsed (words delims line)
    go none e =
        let c : words delims line ≡ [] = rw e at (strtok-Cuts delims line) in
        rw (e, command_parse, c)
    go (some (t, rest)) e =
        let c : Cuts delims line (some (t, rest)) = rw e at (strtok-Cuts delims line) in
        rw (
          e,
          command_parse,
          grow-array stale (length line) [] line (some (t, rest)) c (omega arith),
          c.0,
        )
