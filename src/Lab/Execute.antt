-- ===== src/Lab/Execute.antt =====
-- `execute` of lab/isexecutable.c: one command with its redirections.
pub mod Effect
use linux_systemprogramming.Common.{
  ℕ, Bool, true, false, Option, none, some, List, [], ◌∷◌, get_elem?, if◌then◌else◌,
}
use linux_systemprogramming.Common.Text.{CString, codes}
use linux_systemprogramming.Posix.{
  Os, Io, pure, ◌>>=◌, ◌>>◌, emit, flushed, deref, perror, close, close_if_open, dup, dup2,
  fork_exec,
}
use linux_systemprogramming.Lab.Parsing.{Args}
use linux_systemprogramming.Lab.Builtin.{check_builtin}

-- The argv that execvp sees: the strings in front of the first NULL.
abbrev pub argv : Args → List CString
argv [] = []
argv (none ∷ r) = []
argv (some s ∷ r) = s ∷ argv r

module _ (os : Os) where
  -- `fd == -1`, or the dup2 went through
  abbrev redirect : Option ℕ → ℕ → Io Bool
  redirect none std = pure true
  redirect (some fd) std = dup2 os fd std

  -- Step 3 and the fork: the pid, `none` for -1.
  unfoldable pub launch : Args → Io (Option ℕ)
  launch arglist = do
    builtin ← check_builtin os arglist
    if builtin then (do emit flushed; pure none) else (do
      pid ← fork_exec os (argv arglist)
      elim pid [ none ↦ (do perror (codes "fork"); pure none) | some p ↦ pure (some p) ])

  -- The test of step 2; the second dup2 is made if the first did not fail.
  unfoldable pub redirect_both : Option ℕ → Option ℕ → Io Bool
  redirect_both fd_in fd_out = do
    ok_in ← redirect fd_in 0
    if ok_in then redirect fd_out 1 else pure false

  -- Steps 2 and 3, up to the label `exit_execute`.
  unfoldable pub start : Args → Option ℕ → Option ℕ → Io (Option ℕ)
  unfolding launch redirect_both
  start arglist fd_in fd_out = do
    ok_both ← redirect_both fd_in fd_out
    if ok_both then launch arglist else (do perror (codes "dup2"); pure none)

  -- The label `exit_execute`, for one of the saved descriptors.
  abbrev restore : Option ℕ → ℕ → Io (Unit {0})
  restore none std = pure tt
  restore (some saved) std = do dup2 os saved std; close saved

  unfoldable pub run_command : Args → Option ℕ → Option ℕ → Io (Option ℕ)
  unfolding start
  run_command arglist fd_in fd_out = do
    emit flushed
    saved_in ← dup os 0
    saved_out ← dup os 1
    pid ← elim saved_in [
      | none ↦ (do perror (codes "dup"); pure none)
      | some _ ↦ elim saved_out [
        | none ↦ (do perror (codes "dup"); pure none)
        | some _ ↦ start arglist fd_in fd_out
      ]
    ]
    restore saved_in 0
    restore saved_out 1
    close_if_open fd_in
    close_if_open fd_out
    pure pid

  -- With no command in front the descriptors stay as they are.
  unfoldable pub execute : Args → Option ℕ → Option ℕ → Io (Option ℕ)
  unfolding run_command
  execute arglist fd_in fd_out = do
    cell ← deref (get_elem? arglist 0)
    elim cell [ none ↦ pure none | some _ ↦ run_command arglist fd_in fd_out ]
