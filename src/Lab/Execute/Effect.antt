-- ===== src/Lab/Execute/Effect.antt =====
-- What one call of `execute` leaves behind, for every kernel: it gives back or closes what it
-- takes, and starts at most one process.
use linux_systemprogramming.Common.{
  ℕ, ◌+◌, ◌≡◌, refl, Option, none, some, [], ◌∷◌, arith, Option-cases, Bool-cases, inl, inr,
}
use linux_systemprogramming.Common.Text.{CString}
use linux_systemprogramming.Posix.{Os, Trace, HoldsText, duped, flushed, Returns, Returns-bind}
use linux_systemprogramming.Posix.Count.{held, opens, closes, forks, waits}
use linux_systemprogramming.Lab.Parsing.{Args}
use linux_systemprogramming.Lab.Builtin.{
  BtFunc, hostname_func, cd_func, pwd_func, check_builtin, find_builtin, bt_array, call,
}
use linux_systemprogramming.Lab.Cells.{Terminated}
use linux_systemprogramming.Lab.Execute.{launch, redirect_both, start, run_command, execute}

-- Between two traces the descriptor `n` was closed as often as it was handed out, counting what
-- the call was given in `fd_in` and `fd_out`, and the process `p` was started as `pid` and not
-- waited for.
pub record Moves (n p : ℕ) (t t' : Trace) (fd_in fd_out pid : Option ℕ) : Type 0 where
  pub balanced : opens n t' + closes n t + held n fd_in + held n fd_out ≡ opens n t + closes n t'
  pub started : forks p t' ≡ forks p t + held p pid
  pub not_waited : waits p t' ≡ waits p t

module _ (os : Os) (n p : ℕ) where
  abbrev pub Quiet : {A : Type 0} → Trace → A → Trace → Type 0
  Quiet t _ t' = Moves n p t t' none none none

  -- At most one process, and no descriptor kept.
  abbrev Starts : Trace → Option ℕ → Trace → Type 0
  Starts t pid t' = Moves n p t t' none none pid

  abbrev Runs : Trace → Option ℕ → Option ℕ → Option ℕ → Trace → Type 0
  Runs t fd_in fd_out pid t' = Moves n p t t' fd_in fd_out pid

  -- A command whose first cell is NULL is not run, and nothing is closed.
  abbrev pub Executes : Args → Trace → Option ℕ → Option ℕ → Option ℕ → Trace → Type 0
  Executes [] t fd_in fd_out pid t' = ⊥
  Executes (none ∷ r) t fd_in fd_out pid t' = (pid ≡ none) × (t' ≡ t)
  Executes (some s ∷ r) t fd_in fd_out pid t' = Moves n p t t' fd_in fd_out pid

  module _ (holds : HoldsText os) where
    -- a string with a cell behind it
    call-Quiet :
        (f : BtFunc) (s : CString) (c : Option CString) (r : Args) (t : Trace)
        → Returns (Quiet t) (call os f (some s ∷ c ∷ r) t)
    unfolding call
    call-Quiet hostname_func s c r t = ground arith
    call-Quiet cd_func s c r t = ground arith
    call-Quiet pwd_func s c r t = elim (Option-cases (os.getcwd t)) [
      | inr (path, e) ↦ rw e (ground arith)
      | inl e ↦ elim (Option-cases os.stale_text) [
        | inl k ↦ absurd (holds t e k)
        | inr (path, k) ↦ rw (e, k) (ground arith)
      ]
    ]

    pub check_builtin-Quiet :
        (s : CString) (c : Option CString) (r : Args) (t : Trace)
        → Returns (Quiet t) (check_builtin os (some s ∷ c ∷ r) t)
    unfolding check_builtin
    check_builtin-Quiet s c r t = elim (Option-cases (find_builtin bt_array s)) [
      | inl e ↦ rw e (ground arith)
      | inr (f, e) ↦ rw e (ground (arith, call-Quiet f s c r t))
    ]

    launch-Starts :
        (s : CString) (c : Option CString) (r : Args) (t : Trace)
        → Returns (Starts t) (launch os (some s ∷ c ∷ r) t)
    unfolding launch
    launch-Starts s c r t = ground (arith, check_builtin-Quiet s c r t)

    redirect_both-Quiet :
        (fd_in fd_out : Option ℕ) (t : Trace) → Returns (Quiet t) (redirect_both os fd_in fd_out t)
    unfolding redirect_both
    redirect_both-Quiet fd_in fd_out t = ground arith

    start-Starts :
        (s : CString) (c : Option CString) (r : Args) (fd_in fd_out : Option ℕ) (t : Trace)
        → Returns (Starts t) (start os (some s ∷ c ∷ r) fd_in fd_out t)
    unfolding start
    start-Starts s c r fd_in fd_out t =
        Returns-bind (Quiet t) (Starts t) (redirect_both os fd_in fd_out) _ t
          (redirect_both-Quiet fd_in fd_out t)
          λ ok_both t' q. elim (Bool-cases ok_both) [
            | inl e ↦ rw e (ground (arith, launch-Starts s c r t'))
            | inr e ↦ rw e (ground arith)
          ]

    run_command-Runs :
        (s : CString) (c : Option CString) (r : Args) (fd_in fd_out : Option ℕ) (t : Trace)
        → Returns (Runs t fd_in fd_out) (run_command os (some s ∷ c ∷ r) fd_in fd_out t)
    unfolding run_command
    run_command-Runs s c r fd_in fd_out t =
        let saved : Trace = duped 0 (os.dup (flushed ∷ t) 0) ∷ flushed ∷ t in
        ground (arith, start-Starts s c r fd_in fd_out (duped 1 (os.dup saved 1) ∷ saved))

    pub execute-Executes :
        (arglist : Args) (fd_in fd_out : Option ℕ) (t : Trace)
        → Terminated arglist
        → Returns (Executes arglist t fd_in fd_out) (execute os arglist fd_in fd_out t)
    unfolding execute
    execute-Executes [] fd_in fd_out t h = cc
    execute-Executes (none ∷ r) fd_in fd_out t h = (refl, refl)
    execute-Executes (some s ∷ []) fd_in fd_out t h = cc
    execute-Executes (some s ∷ c ∷ r) fd_in fd_out t h = run_command-Runs s c r fd_in fd_out t
