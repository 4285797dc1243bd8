-- ===== src/Children/Tests.antt =====
-- Two children, 11 and 12, of the process 10.
use linux_systemprogramming.Common.{ℕ, ◌+◌, ◌≡◌, refl, true, List, [], ◌∷◌, ◌++◌, hit, arith}
use linux_systemprogramming.Children.{in_parent, count}
use linux_systemprogramming.Children.Polling.{Event, exited, main, reports, reported, said_no_child}
use linux_systemprogramming.Children.Polling.Reports.{main-reports}
use linux_systemprogramming.Children.Reaping
use linux_systemprogramming.Children.Reaping.{
  Parent, Move, ends, enters, reaps, goes_on, run, with_child, childless, spinning,
}
use linux_systemprogramming.Children.Reaping.Zombies.{main-Cared}
use linux_systemprogramming.Children.Reaping.Collecting.{launched, settle, main_collects}

-- The second child ends first; the parent works in between.
abbrev early : List (List ℕ)
early = [] ∷ (12 ∷ []) ∷ [] ∷ (11 ∷ []) ∷ []

abbrev late : List (List ℕ)
late = [] ∷ [] ∷ [] ∷ []

polled :
    main (in_parent 11) (in_parent 12) 10 (early ++ late)
    ≡ exited 0 (said_no_child ∷ reported 11 ∷ reported 12 ∷ [])
unfolding main
polled = refl

main-reports_example :
    (told : List Event) × (main (in_parent 11) (in_parent 12) 10 (early ++ late) ≡ exited 0 told)
    × ((n : ℕ) → count n (reports told) ≡ hit n 11 + hit n 12)
main-reports_example = main-reports early late 11 12 10 refl (omega arith)

-- One child ends between the two forks, the other one behind them.
abbrev between : List Move
between = ends 11 ∷ enters ∷ reaps ∷ reaps ∷ []

abbrev later : List Move
later = ends 12 ∷ enters ∷ reaps ∷ reaps ∷ []

abbrev final : Parent
unfolding run
final = run later (launched 11 12 10 between)

main-Cared_example : final.kids.ended ≡ []
unfolding run Reaping.main
main-Cared_example = main-Cared (in_parent 12) 11 10 true between later final refl refl refl

main_collects_example :
    (p : Parent) × (Reaping.main (in_parent 11) (in_parent 12) 10 true between (later ++ settle 3)
      ≡ goes_on p)
    × (p.kids.ended ≡ [])
    × ((n : ℕ) → count n (Reaping.reports p.told) ≡ hit n 11 + hit n 12)
unfolding run
main_collects_example = main_collects between later 11 12 10 true refl (λ e. cc) refl
