-- ===== src/Signals/Tests.antt =====
-- Signals that come one by one, and two that come together.
use linux_systemprogramming.Common.{◌≡◌, refl, [], ◌∷◌}
use linux_systemprogramming.Signals.Counting.{
  sigusr1, sigusr2, sigint, send, deliver, run, start, prompt,
}

one_by_one : (run (prompt (sigusr1 ∷ sigusr1 ∷ sigusr2 ∷ sigint ∷ [])) start).printed ≡ (2, 1) ∷ []
unfolding run
one_by_one = refl

-- The second signal finds the first one pending, and is not counted.
together :
    (run (send sigusr1 ∷ send sigusr1 ∷ deliver sigusr1 ∷ deliver sigusr1 ∷ []) start).usr1_count
    ≡ 1
unfolding run
together = refl
