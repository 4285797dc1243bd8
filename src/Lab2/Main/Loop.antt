-- ===== src/Lab2/Main/Loop.antt =====
-- lab2/main.c: main, on the lines that fgets gives.
use linux_systemprogramming.Common.{
  ℕ, ◌≤◌, ◌≡◌, ◌≢◌, false, Option, none, some, List, [], ◌∷◌, length,
}
use linux_systemprogramming.Common.Text.{CString, codes, strn_eq}
use linux_systemprogramming.Lab2.Builtin.{Surroundings, Output, print_cwd}
use linux_systemprogramming.Lab2.Execute.{Event, failure}
use linux_systemprogramming.Lab2.Main.{Answers, Round, left, gave_up, built_in, executed, round}

-- sigaction of SIGCHLD and signal of SIGINT.
pub data Call : Type 0 where
  handles_sigchld : Call
  ignores_sigint : Call

-- What the lines lead to, before the shell exits with a status or leaves an array.
pub data End : Type 0 where
  exited : ℕ → List Round → End
  crashed : List Round → End

abbrev before : Round → End → End
before r (exited n rs) = exited n (r ∷ rs)
before r (crashed rs) = crashed (r ∷ rs)

-- What follows a round: the rest is what the next lines lead to.
abbrev go_on : Option Round → End → End
go_on none rest = crashed []
go_on (some left) rest = exited 0 (left ∷ [])
go_on (some (gave_up es)) rest = exited failure (gave_up es ∷ [])
go_on (some (built_in out)) rest = before (built_in out) rest
go_on (some (executed es cs prompt)) rest = before (executed es cs prompt) rest

-- The `while` loop; each line comes with the answers that its calls get.
unfoldable pub main_loop : List (Answers × CString) → End
unfolding round
main_loop [] = exited 0 []
main_loop ((a, line) ∷ lines) = let rest = main_loop lines in go_on (round a line) rest

-- The first prompt, and what follows it.
abbrev prompted : Option (List Output) → End → List Output × End
prompted none rest = ([], crashed [])
prompted (some prompt) rest = (prompt, rest)

unfoldable pub main : Surroundings → List (Answers × CString) → List Call × List Output × End
unfolding main_loop
main s lines =
    let begun = prompted (print_cwd s) (main_loop lines) in
    (handles_sigchld ∷ ignores_sigint ∷ [], begun.0, begun.1)

-- At most so many lines led to something, and then the shell left an array.
abbrev pub CrashesWithin : ℕ → End → Type 0
CrashesWithin n e = (rs : List Round) × (e ≡ crashed rs) × (length rs ≤ n)

-- A round behind which the shell reads its next line, or has left an array.
record GoesOn (o : Option Round) : Type 0 where
  not_left : o ≢ some left
  not_given_up : (es : List Event) → o ≢ some (gave_up es)

-- The lines that do not start with "exit", answered with a fork that succeeds.
abbrev pub NoneEnds : List (Answers × CString) → Type 0
NoneEnds [] = Unit
NoneEnds ((a, line) ∷ lines) =
    (strn_eq 4 line (codes "exit") ≡ false) × (a.shell.fork ≢ none) × NoneEnds lines
