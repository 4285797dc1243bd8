-- ===== src/Signals/Groups/Tests.antt =====
-- A run in which every call succeeds.
use linux_systemprogramming.Common.{◌≡◌, refl, Bool, true, List, [], ◌∷◌, all}
use linux_systemprogramming.Signals.Groups.{
  Who, main, child1, child2, child3, said_exiting, received_usr1, start, run,
}
use linux_systemprogramming.Signals.Groups.Isolation.{spares, is_cut_off, run_isolated}

abbrev moves : List (Who × Bool)
moves =
    (main, true)
    ∷ (main, true)
    ∷ (child2, true)
    ∷ (child2, true)
    ∷ (main, true)
    ∷ (child3, true)
    ∷ (main, true)
    ∷ (child3, true)
    ∷ (main, true)
    ∷ (child1, true)
    ∷ (main, true)
    ∷ []

all_told :
    (run moves start).told
    ≡ said_exiting main main
      ∷ said_exiting child1 child1
      ∷ received_usr1 child3
      ∷ received_usr1 child2
      ∷ []
unfolding run
all_told = refl

run_isolated_example :
    ((run moves start).has_own_group ≡ true → all spares (run moves start).told ≡ true)
    × (all is_cut_off (run moves start).told ≡ true)
run_isolated_example = run_isolated moves
