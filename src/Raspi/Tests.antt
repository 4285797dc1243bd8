-- ===== src/Raspi/Tests.antt =====
-- The menu on concrete words.
use linux_systemprogramming.Common.{
  ◌≡◌, refl, true, false, ◌++◌, none, some, List, [], ◌∷◌, if◌then◌else◌,
}
use linux_systemprogramming.Common.Text.{CString, codes, str_eq}
use linux_systemprogramming.WebLed.Thread.{Loader}
use linux_systemprogramming.Raspi.Menu.{
  Outside, Locals, stops, faults, rounds, printed, left, print_menu,
}
use linux_systemprogramming.Raspi.Session.{led_events, rounds_session}

abbrev outside : Outside
outside = record {
  number_of = λ word.
      if str_eq word (codes "1")
      then some 1
      else if str_eq word (codes "2")
      then some 2
      else if str_eq word (codes "3")
      then some 3
      else none;
  is_led_created = λ word. true;
  is_cds_created = λ word. true;
}

abbrev fresh : Locals
fresh = record { menu = none; has_tid2 = false }

abbrev commands : List CString
commands = codes "ON" ∷ codes "OFF" ∷ []

-- Cancelling the light sensor before it is started uses a thread id that was never written.
cancel_first : rounds outside 1 fresh (codes "2" ∷ codes "OFF" ∷ []) ≡ faults
unfolding rounds
cancel_first = refl

session_runs :
    rounds outside 2 fresh (codes "1" ∷ (commands ++ codes "q" ∷ codes "3" ∷ []))
    ≡ stops (
        print_menu
        ∷ (led_events commands ++ (print_menu ∷ printed (codes "Exit...\n") ∷ left ∷ [])))
session_runs =
    rounds_session outside 0 fresh (codes "1") (codes "3") (codes "q") commands [] refl refl refl
      refl refl

abbrev library : Loader
library = record { dlopen = λ path. true; dlsym = λ name. str_eq name (codes "led_function") }
