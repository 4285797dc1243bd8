-- ===== src/Lab2/ChildHandler.antt =====
-- lab2/child_handler.c: the SIGCHLD handler.
use linux_systemprogramming.Common.{
  ℕ, zero, suc, ◌+◌, ◌<◌, ◌≡◌, refl, List, [], ◌∷◌, ◌++◌, map, length, arith,
}
use linux_systemprogramming.Common.Text.{CString, codes}
use linux_systemprogramming.Posix.{Reaping, nothing_yet, no_children, failed, child}

pub data Output : Type 0 where
  reaped : ℕ → Output
  complained : CString → Output
  aborted : Output
  returned : Output
  still_looping : Output

-- The `for (;;)` loop, where `reap` gives the answer of each call of waitpid(-1, NULL, WNOHANG) by the
-- number of the calls before it; each reaped pid is printed.
unfoldable pub child_handler : ℕ → (ℕ → Reaping) → ℕ → List Output
child_handler zero reap calls = still_looping ∷ []
child_handler (suc fuel) reap calls = elim (reap calls) [
  | nothing_yet ↦ returned ∷ []
  | no_children ↦ returned ∷ []
  | failed ↦ complained (codes "waitpid") ∷ aborted ∷ []
  | child pid ↦ reaped pid ∷ child_handler fuel reap (calls + 1)
]

-- The answers from a call on: these children, then none left to reap.
abbrev pub Answers : (ℕ → Reaping) → ℕ → List ℕ → Type 0
Answers reap calls [] = reap calls ≡ nothing_yet
Answers reap calls (pid ∷ pids) = (reap calls ≡ child pid) × Answers reap (calls + 1) pids

-- One run of the handler reaps all the children that have ended, in order, and returns.
pub child_handler_reaps :
    (fuel : ℕ) (reap : ℕ → Reaping) (calls : ℕ) (pids : List ℕ)
    → Answers reap calls pids
    → length pids < fuel
    → child_handler fuel reap calls ≡ map reaped pids ++ returned ∷ []
unfolding child_handler
child_handler_reaps zero reap calls pids h l = absurd (omega arith)
child_handler_reaps (suc fuel) reap calls [] h l = rw (child_handler, h) refl
child_handler_reaps (suc fuel) reap calls (pid ∷ pids) (h, hs) l =
    rw (child_handler, h, child_handler_reaps fuel reap (calls + 1) pids hs (omega arith)) refl
