-- ===== src/Threads/Tests.antt =====
-- Signals for the two threads, and a cancelled thread.
use linux_systemprogramming.Common.{◌≡◌, refl, true, none, some, List, [], ◌∷◌, all}
use linux_systemprogramming.Common.Text.{codes}
use linux_systemprogramming.Signals.Blocking.{sigint, sigusr1, sigusr2}
use linux_systemprogramming.Threads.Routing.{
  thread1, thread2, Move, main_moves, works, arrives, delivers, start, run,
}
use linux_systemprogramming.Threads.Routing.Safety.{is_routed, run-routes}
use linux_systemprogramming.Threads.Cleanup.{main, heap, first_print, sleeping, main_frees}

-- SIGUSR1 arrives before its thread unblocks it, SIGUSR2 behind that, and then SIGINT.
abbrev moves : List Move
moves =
    main_moves true
    ∷ arrives sigusr1
    ∷ delivers thread1 sigusr1
    ∷ main_moves true
    ∷ works thread1
    ∷ works thread2
    ∷ works thread1
    ∷ works thread2
    ∷ arrives sigusr2
    ∷ delivers thread1 sigusr2
    ∷ delivers thread1 sigusr1
    ∷ delivers thread2 sigusr2
    ∷ arrives sigint
    ∷ delivers thread1 sigint
    ∷ []

handled_last_first : (run moves start).handled ≡ (thread2, sigusr2) ∷ (thread1, sigusr1) ∷ []
unfolding run
handled_last_first = refl

run-routes_example :
    (all is_routed (run moves start).handled ≡ true)
    × ((run moves start).killed_by ≡ some sigint → sigint ≡ sigint)
run-routes_example = run-routes moves sigint

main_frees_example :
    heap none (main (codes "ex08" ∷ codes "cleanup" ∷ []) true (some sleeping)).1 ≡ some none
main_frees_example = main_frees (codes "ex08" ∷ codes "cleanup" ∷ []) true (some sleeping) (λ e. cc)

-- Cancelled at its first printf, the thread leaves its memory.
first_print_leaks :
    heap none (main (codes "ex08" ∷ codes "cleanup" ∷ []) true (some first_print)).1
    ≡ some (some 16)
unfolding main
first_print_leaks = refl
