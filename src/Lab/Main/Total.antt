-- ===== src/Lab/Main/Total.antt =====
-- No line that fgets can yield makes lab/main.c crash.
use linux_systemprogramming.Common.{
  ◌+◌, ◌-◌, ◌<◌, ◌≡◌, ◌≢◌, refl, Bool, true, false, none, some, List, [], ◌∷◌, length, all,
  get_elem?, arith, Bool-cases, Option-cases, inl, inr,
}
use linux_systemprogramming.Common.Text.{CString, codes, strn_eq}
use linux_systemprogramming.Common.Text.Words.{is_token}
use linux_systemprogramming.Posix.{Os, HoldsText, Trace, Returns, Returns-some, Returns-bind}
use linux_systemprogramming.Lab.Parsing.{Args, delims, command_parse, command_freelist}
use linux_systemprogramming.Lab.Parsing.Laws.{array, command_parse-Sound}
use linux_systemprogramming.Lab.Cells.{Terminated, IsFilled, Terminated-drop}
use linux_systemprogramming.Lab.Builtin.{check_builtin}
use linux_systemprogramming.Lab.Execute.Effect.{Quiet, check_builtin-Quiet}
use linux_systemprogramming.Lab.Chain.Total.{is_executable_total}
use linux_systemprogramming.Lab.Main.{maxline, handle, process, round, rounds, main}

length-array : (ws : List CString) → length (array ws) ≡ length ws + 1
length-array [] = refl
length-array (w ∷ ws) = omega (arith, length-array ws)

array-Terminated : (ws : List CString) → get_elem? (array ws) (length ws) ≡ some none
array-Terminated [] = refl
array-Terminated (w ∷ ws) = array-Terminated ws

array-IsFilled : (ws : List CString) → all (is_token delims) ws ≡ true → IsFilled (array ws)
array-IsFilled [] h = refl
array-IsFilled ([] ∷ ws) h = cc
array-IsFilled ((c ∷ w) ∷ ws) h = ground (arith, array-IsFilled ws)

command_freelist-Terminated : (args : Args) → Terminated args → command_freelist args ≢ none
unfolding command_freelist
command_freelist-Terminated [] h e = cc
command_freelist-Terminated (none ∷ r) h e = cc
command_freelist-Terminated (some s ∷ []) h e = cc
command_freelist-Terminated (some s ∷ c ∷ r) h e = ground (
  arith,
  command_freelist-Terminated (c ∷ r) (Terminated-drop 1 (some s ∷ c ∷ r) h (omega arith)),
)

abbrev Always : {A : Type 0} → A → Trace → Type 0
Always _ _ = Unit {0}

-- Lines as fgets yields them into `line[MAXLINE]`.
abbrev pub AllShort : List CString → Type 0
AllShort [] = Unit
AllShort (line ∷ lines) = (length line < maxline) × AllShort lines

module _ (os : Os) (holds : HoldsText os) where
  abbrev Ends : Args → Trace → Type 0
  Ends args t = Terminated args

  builtin_returns :
      (w : CString) (ws : List CString) (t : Trace)
      → (b : Bool) × (t' : Trace) × (check_builtin os (array (w ∷ ws)) t ≡ some (b, t'))
  builtin_returns w [] t =
      let (b, t', e, _) =
        Returns-some (Quiet os 0 0 t) (check_builtin os (array (w ∷ [])) t)
          (check_builtin-Quiet os 0 0 holds w none [] t) in
      (b, t', e)
  builtin_returns w (v ∷ vs) t =
      let (b, t', e, _) =
        Returns-some (Quiet os 0 0 t) (check_builtin os (array (w ∷ v ∷ vs)) t)
          (check_builtin-Quiet os 0 0 holds w (some v) (array vs) t) in
      (b, t', e)

  array_ends : (ws : List CString) → Terminated (array ws)
  array_ends ws =
      let e : length ws ≡ length (array ws) - 1 = omega (arith, length-array ws) in
      rw e at (array-Terminated ws)

  handle-Ends :
      (w : CString) (ws : List CString) (t : Trace)
      → all (is_token delims) (w ∷ ws) ≡ true
      → length (w ∷ ws) < 1024
      → Returns Ends (handle os (array (w ∷ ws)) t)
  unfolding handle
  handle-Ends w ws t tok few =
      let (b, t1, e1) = builtin_returns w ws t in
      let (args', t2, e2, ended) =
        is_executable_total os holds (array (w ∷ ws)) t1 (array_ends (w ∷ ws))
          (array-IsFilled (w ∷ ws) tok) (omega (arith, length-array ws)) in
      let ended0 = array_ends (w ∷ ws) in
      elim (Bool-cases b) [
        | inl q ↦ rw (e1, q, Returns) ended0
        | inr q ↦ rw (e1, q, Returns, e2) ended
      ]

  parsed-Ends :
      (ws : List CString) (args : Args) (t : Trace)
      → args ≡ array ws
      → ws ≢ []
      → all (is_token delims) ws ≡ true
      → length ws < 1024
      → Returns Ends (handle os args t)
  parsed-Ends [] args t q ne tok few = absurd (ne refl)
  parsed-Ends (w ∷ ws) args t q ne tok few = rw q (handle-Ends w ws t tok few)

  process-Returns :
      (args : Args) (t : Trace)
      → Returns Ends (handle os args t)
      → Returns (Always {A = Bool}) (process os args t)
  unfolding process
  process-Returns args t h = Returns-bind Ends Always (handle os args) _ t h λ args' t' ended.
      elim (Option-cases (command_freelist args')) [
        | inl f ↦ absurd (command_freelist-Terminated args' ended f)
        | inr (l, f) ↦ rw f tt
      ]

  -- A round on a line that fgets can yield does not crash.
  round-Returns :
      (line : CString) (t : Trace)
      → length line < maxline
      → Returns (Always {A = Bool}) (round os line t)
  unfolding round
  round-Returns line t short = elim (Bool-cases (strn_eq 4 line (codes "exit"))) [
    | inl e ↦ rw e tt
    | inr e ↦ elim (Option-cases (command_parse (some line))) [
      | inl p ↦ rw (e, p) tt
      | inr (args, p) ↦
          let (ws, q, ne, tok, few) = command_parse-Sound line args p in
          rw (e, p) (process-Returns args t (parsed-Ends ws args t q ne tok (omega (arith, few))))
    ]
  ]

  rounds-Returns :
      (lines : List CString) (t : Trace)
      → AllShort lines
      → Returns (Always {A = Unit {0}}) (rounds os lines t)
  unfolding rounds
  rounds-Returns [] t h = tt
  rounds-Returns (line ∷ lines) t (short, h) =
      Returns-bind Always Always (round os line) _ t (round-Returns line t short)
        (elim [ true ↦ λ t' _. tt | false ↦ λ t' _. rounds-Returns lines t' h ])

-- If the array that pwd gives to getcwd holds a NUL wherever getcwd fails: whatever lines of up to 254
-- bytes come in, and whatever the kernel answers otherwise, the shell works
-- through them without a crash: no access outside an array, no write behind `pids`, no end of the
-- fuel of a loop.
pub main_total :
    (os : Os) (holds : HoldsText os) (lines : List CString) (t : Trace)
    → AllShort lines
    → (t' : Trace) × (main os lines t ≡ some (tt, t'))
unfolding main
main_total os holds lines t h =
    let (_, t', e, _) =
      Returns-some (Always {A = Unit {0}}) (main os lines t) (rounds-Returns os holds lines _ h) in
    (t', e)
