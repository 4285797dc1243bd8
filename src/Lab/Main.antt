-- ===== src/Lab/Main.antt =====
-- lab/main.c: the loop over the lines of input.
pub mod Total
use linux_systemprogramming.Common.{
  ℕ, Bool, true, false, Option, none, some, List, [], ◌∷◌, if◌then◌else◌,
}
use linux_systemprogramming.Common.Text.{CString, codes, strn_eq}
use linux_systemprogramming.Posix.{Os, Io, pure, ◌>>=◌, ◌>>◌, emit, deref, print, exited}
use linux_systemprogramming.Lab.Parsing.{Args, command_parse, command_freelist}
use linux_systemprogramming.Lab.Builtin.{check_builtin}
use linux_systemprogramming.Lab.Chain.{is_executable}

-- `MAXLINE`; fgets gives at most one byte less.
abbrev pub maxline : ℕ
maxline = 255

abbrev prompt : Io (Unit {0})
prompt = print (codes "minishell> ")

module _ (os : Os) where
  -- What one line does with the argument array: the array as `command_freelist` gets it.
  unfoldable pub handle : Args → Io Args
  handle arglist = do
    builtin ← check_builtin os arglist
    if builtin then pure arglist else is_executable os arglist

  -- What a line that is not empty does, from the test of the built-ins on.
  unfoldable pub process : Args → Io Bool
  unfolding handle
  process arglist = do
    arglist' ← handle arglist
    prompt
    freed ← deref (command_freelist arglist')
    pure false

  -- One round of the `while` loop; true means that `exit(0)` was called.
  unfoldable pub round : CString → Io Bool
  unfolding process
  round line =
      if strn_eq 4 line (codes "exit")
      then (do emit (exited 0); pure true)
      else elim (command_parse (some line)) [
        | none ↦ (do prompt; pure false)
        | some arglist ↦ process arglist
      ]

  -- `while (fgets(line, MAXLINE, stdin))`, on what fgets yields until the end of the input.
  unfoldable pub rounds : List CString → Io (Unit {0})
  rounds [] = pure tt
  rounds (line ∷ lines) = do left ← round line; elim left [ true ↦ pure tt | false ↦ rounds lines ]

  unfoldable pub main : List CString → Io (Unit {0})
  unfolding rounds round
  main lines = do prompt; rounds lines
