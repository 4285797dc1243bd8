-- ===== src/Lab/Chain/Total.antt =====
-- `is_executable` of lab/isexecutable.c ends on every NULL-terminated array of up to 1024 cells with
-- non-empty strings, whatever the kernel answers, and no access leaves its array.
use linux_systemprogramming.Common.{
  ℕ, zero, suc, ◌+◌, ◌≤◌, ◌≡◌, refl, some, List, [], ◌∷◌, length, arith,
}
use linux_systemprogramming.Posix.{Os, HoldsText, Trace, Returns, Returns-some, Returns-bind, ◌>>=◌}
use linux_systemprogramming.Lab.Parsing.{Args}
use linux_systemprogramming.Lab.Cells.{Terminated, IsFilled, Terminated-pos}
use linux_systemprogramming.Lab.Chain.{
  Chain, again, leave, max_pids, wait_all, chain_step, chain_loop, error_exit, entry, is_executable,
}
use linux_systemprogramming.Lab.Chain.Rounds.{Ready, Onward, chain_step-Onward}

module _ (os : Os) (holds : HoldsText os) where
  abbrev Left : Chain → Trace → Type 0
  Left c t = Terminated c.args

  -- The fuel has to cover the cells from `curr_ptr` on.
  chain_loop-Left :
      (fuel : ℕ) (c : Chain) (t : Trace)
      → Ready c
      → length c.args ≤ fuel + c.curr_ptr
      → Returns Left (chain_loop os fuel c t)
  unfolding chain_loop
  chain_loop-Left zero c t r h = absurd (omega (arith, r.curr_in))
  chain_loop-Left (suc fuel) c t r h =
      Returns-bind (Onward (length c.args) c.curr_ptr) Left (chain_step os c) _ t
        (chain_step-Onward os holds c t r)
        (elim [
          | again c' ↦ λ t' o. chain_loop-Left fuel c' t' o.0 (omega (arith, o.1, o.2))
          | leave c' ↦ λ t' o. o
        ])

  wait_all_returns :
      (pids : List ℕ) (t : Trace) → (t' : Trace) × (wait_all os pids t ≡ some (tt, t'))
  unfolding wait_all
  wait_all_returns [] t = (t, refl)
  wait_all_returns (pid ∷ pids) t = wait_all_returns pids _

  error_exit-Terminated :
      (c : Chain) (t : Trace)
      → Terminated c.args
      → Returns (λ args _. Terminated args) (error_exit os c t)
  unfolding error_exit
  error_exit-Terminated c t h = let (t', e) = wait_all_returns c.pids t in ground (arith, e)

  pub entry-Ready :
      (args : Args) → Terminated args → IsFilled args → length args ≤ max_pids → Ready (entry args)
  entry-Ready args h filled small = record {
    terminated = h;
    filled = filled;
    cmd_in = omega arith;
    curr_in = Terminated-pos args h;
    few_pids = omega arith;
    small = small;
  }

  -- If the array that pwd gives to getcwd holds a NUL wherever getcwd fails: on a NULL-terminated array
  -- of at most 1024 cells, all of its strings non-empty, `is_executable` returns, whatever the kernel
  -- answers otherwise: its loop ends, it never reads or writes outside the
  -- argument array, in front of a string or behind `pids`, and leaves a NULL-terminated array.
  pub is_executable_total :
      (args : Args) (t : Trace)
      → Terminated args
      → IsFilled args
      → length args ≤ max_pids
      → (args' : Args) × (t' : Trace) × (is_executable os args t ≡ some (args', t'))
        × Terminated args'
  unfolding is_executable
  is_executable_total args t h filled small =
      let (c, t1, e1, left) = Returns-some Left (chain_loop os (length args) (entry args) t) (
        chain_loop-Left (length args) (entry args) t (entry-Ready args h filled small)
          (omega arith)) in
      let (args', t2, e2, left') =
        Returns-some (λ args' _. Terminated args') (error_exit os c t1)
          (error_exit-Terminated c t1 left) in
      (args', t2, rw (e1, ◌>>=◌) e2, left')
