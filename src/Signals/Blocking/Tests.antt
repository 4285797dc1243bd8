-- ===== src/Signals/Blocking/Tests.antt =====
-- Signals that arrive while they are blocked.
use linux_systemprogramming.Common.{◌≡◌, refl, [], ◌∷◌, ◌++◌, ◌||◌, ◌==◌}
use linux_systemprogramming.Common.Text.{codes}
use linux_systemprogramming.Signals.Blocking.{
  sigint, sigquit, sigusr1, sigusr2, spin, suspend, hello, pending_names,
}
use linux_systemprogramming.Signals.Blocking.Arrivals.{find, programs_killed}

-- SIGINT arrives while it is blocked, behind SIGUSR1.
programs_killed_example :
    ((spin (sigusr1 ∷ sigint ∷ [])).killed_by
      ≡ find (λ s. (s == sigint) || (s == sigquit)) (sigusr1 ∷ sigint ∷ []))
    × ((suspend (sigusr1 ∷ sigint ∷ [])).killed_by
        ≡ find (λ s. s == sigint) (sigusr1 ∷ sigint ∷ []))
    × ((hello (sigusr1 ∷ sigint ∷ []) (sigquit ∷ [])).killed_by
        ≡ find (λ s. s == sigint) ((sigusr1 ∷ sigint ∷ []) ++ sigquit ∷ []))
programs_killed_example = programs_killed (sigusr1 ∷ sigint ∷ []) (sigquit ∷ [])

pending_twice :
    pending_names (sigusr2 ∷ sigint ∷ sigusr2 ∷ []) ≡ codes "SIGINT\n" ∷ codes "SIGUSR2.\n" ∷ []
unfolding pending_names
pending_twice = refl
