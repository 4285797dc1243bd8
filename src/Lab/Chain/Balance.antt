-- ===== src/Lab/Chain/Balance.antt =====
-- The descriptors of `is_executable` of lab/isexecutable.c: each one that it is given is closed
-- once, if every command of the line has a name.
use linux_systemprogramming.Common.{
  ℕ, zero, suc, ◌+◌, ◌≤◌, ◌≡◌, refl, true, none, some, List, [], ◌∷◌, length, arith,
}
use linux_systemprogramming.Posix.{
  Os, HoldsText, Trace, Returns, Returns-some, Returns-bind, Returns-and, ◌>>=◌,
}
use linux_systemprogramming.Posix.Count.{opens, closes}
use linux_systemprogramming.Lab.Parsing.{Args}
use linux_systemprogramming.Lab.Cells.{Terminated, IsFilled}
use linux_systemprogramming.Lab.OpType.Named.{command_next, named, Posture}
use linux_systemprogramming.Lab.Chain.Rounds.{Ready, Onward, chain_step-Onward}
use linux_systemprogramming.Lab.Chain.Total.{entry-Ready}
use linux_systemprogramming.Lab.Chain.{
  Chain, again, leave, max_pids, wait_all, chain_step, chain_loop, error_exit, entry, is_executable,
}
use linux_systemprogramming.Lab.Chain.Owing.{Owed, Kept, chain_step-Kept}

module _ (os : Os) (holds : HoldsText os) (n : ℕ) (t0 : Trace) where
  abbrev Left : Chain → Trace → Type 0
  Left c t = Owed os holds n t0 t c.fd_in c.fd_out

  chain_loop-Left :
      (fuel : ℕ) (c : Chain) (t : Trace)
      → Ready c
      → Owed os holds n t0 t c.fd_in c.fd_out
      → Posture c.args c.cmd_arglist c.curr_ptr
      → length c.args ≤ fuel + c.curr_ptr
      → Returns Left (chain_loop os fuel c t)
  unfolding chain_loop
  chain_loop-Left zero c t r owed pos h = absurd (omega (arith, r.curr_in))
  chain_loop-Left (suc fuel) c t r owed pos h =
      Returns-bind
        (λ flow t'. Onward (length c.args) c.curr_ptr flow t' × Kept os holds n t0 flow t') Left
        (chain_step os c) _ t
        (Returns-and (Onward (length c.args) c.curr_ptr) (Kept os holds n t0) (chain_step os c t)
          (chain_step-Onward os holds c t r) (chain_step-Kept os holds n t0 c t r owed pos))
        (elim [
          | again c' ↦
              λ t' o. chain_loop-Left fuel c' t' o.0.0 o.1.0 o.1.1 (omega (arith, o.0.1, o.0.2))
          | leave c' ↦ λ t' o. o.1
        ])

  wait_all_settled :
      (pids : List ℕ) (t : Trace)
      → (t' : Trace) × (wait_all os pids t ≡ some (tt, t'))
        × (opens n t' ≡ opens n t)
        × (closes n t' ≡ closes n t)
  unfolding wait_all
  wait_all_settled [] t = (t, refl, refl, refl)
  wait_all_settled (pid ∷ pids) t =
      let (t', e, o, c) = wait_all_settled pids _ in (t', e, omega (arith, o), omega (arith, c))

  error_exit_settles :
      (c : Chain) (t : Trace)
      → Owed os holds n t0 t c.fd_in c.fd_out
      → Returns (λ args t'. Owed os holds n t0 t' none none) (error_exit os c t)
  unfolding error_exit
  error_exit_settles c t owed = let (t', e, o, c') = wait_all_settled c.pids t in ground (arith, e)

-- If every command of a NULL-terminated array of at most 1024 cells has a name and no string in it
-- is empty, and the array that pwd gives to getcwd holds a NUL wherever getcwd fails, then
-- `is_executable` returns, whatever the kernel answers otherwise, and meanwhile each
-- descriptor number is closed exactly as often as pipe, open and dup hand it out.
pub is_executable_balanced :
    (os : Os) (holds : HoldsText os) (n : ℕ) (args : Args) (t : Trace)
    → Terminated args
    → IsFilled args
    → length args ≤ max_pids
    → named command_next args ≡ true
    → (args' : Args) × (t' : Trace) × (is_executable os args t ≡ some (args', t'))
      × (opens n t' + closes n t ≡ opens n t + closes n t')
unfolding is_executable
is_executable_balanced os holds n args t h filled small w =
    let (c, t1, e1, left) =
      Returns-some (Left os holds n t) (chain_loop os (length args) (entry args) t) (
        chain_loop-Left os holds n t (length args) (entry args) t
          (entry-Ready os holds args h filled small) (omega arith) (command_next, w, refl)
          (omega arith)) in
    let (args', t', e2, settled) =
      Returns-some (λ args' t'. Owed os holds n t t' none none) (error_exit os c t1)
        (error_exit_settles os holds n t c t1 left) in
    (args', t', rw (e1, ◌>>=◌) e2, omega (arith, settled))
