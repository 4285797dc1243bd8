-- ===== src/Lab/ChildHandler.antt =====
-- lab/child_handler.c: the SIGCHLD handler, which reaps the children that have ended.
use linux_systemprogramming.Common.{
  ℕ, zero, suc, ◌<◌, ◌≡◌, ◌⊎◌, inl, inr, some, List, [], ◌∷◌, length, arith,
}
use linux_systemprogramming.Common.Text.{codes}
use linux_systemprogramming.Posix.{
  reaped, printed_num, complained, aborted, Trace, nothing_yet, no_children, failed, child, Os,
}

-- How the handler ends: it returns, it calls abort, or it is still in its loop.
pub data Handled : Type 0 where
  returned : Trace → Handled
  abort_called : Trace → Handled
  still_looping : Trace → Handled

module _ (os : Os) where
  -- The `for (;;)` loop. `reap` is what waitpid(-1, NULL, WNOHANG) answers: 0, -1 with ECHILD, -1 with
  -- another error, or the pid of a child that has ended.
  pub child_handler : ℕ → Trace → Handled
  child_handler zero t = still_looping t
  child_handler (suc fuel) t = elim (os.reap t) [
    | nothing_yet ↦ returned t
    | no_children ↦ returned t
    | failed ↦ abort_called (aborted ∷ complained (codes "waitpid") ∷ t)
    | child pid ↦
        child_handler fuel
          (printed_num (codes "PID of the dead child = ") pid ∷ reaped (some pid) ∷ t)
  ]

  -- The trace behind the reaping of these children, in this order.
  abbrev pub reaped_all : List ℕ → Trace → Trace
  reaped_all [] t = t
  reaped_all (pid ∷ pids) t =
      reaped_all pids (printed_num (codes "PID of the dead child = ") pid ∷ reaped (some pid) ∷ t)

  -- The kernel has these ended children, one after the other, and then no more of them.
  abbrev pub Dead : List ℕ → Trace → Type 0
  Dead [] t = (os.reap t ≡ nothing_yet) ⊎ (os.reap t ≡ no_children)
  Dead (pid ∷ pids) t =
      (os.reap t ≡ child pid)
      × Dead pids (printed_num (codes "PID of the dead child = ") pid ∷ reaped (some pid) ∷ t)

  -- One run of the handler reaps every child that has ended, in the kernel's order, prints each pid
  -- once and returns, in one round more than there are such children.
  pub child_handler_reaps_all :
      (pids : List ℕ) (fuel : ℕ) (t : Trace)
      → Dead pids t
      → length pids < fuel
      → child_handler fuel t ≡ returned (reaped_all pids t)
  unfolding child_handler
  child_handler_reaps_all pids zero t h lt = absurd (omega arith)
  child_handler_reaps_all [] (suc fuel) t (inl e) lt = rw (e, child_handler)
  child_handler_reaps_all [] (suc fuel) t (inr e) lt = rw (e, child_handler)
  child_handler_reaps_all (pid ∷ pids) (suc fuel) t (e, h) lt =
      rw (e, child_handler) (child_handler_reaps_all pids fuel _ h (omega arith))
