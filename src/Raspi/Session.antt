-- ===== src/Raspi/Session.antt =====
-- A whole session at the menu of raspi/main.c.
use linux_systemprogramming.Common.{
  not-true, ℕ, suc, ◌≡◌, refl, ap, ◌∙◌, Bool, true, false, not, ◌&&◌, ◌||◌, some, List, [], ◌∷◌,
  ◌++◌, all, &&-left, &&-right,
}
use linux_systemprogramming.Common.Text.{CString, codes, str_eq}
use linux_systemprogramming.Raspi.Menu.{
  Event, printed, led_ran, left, Outside, Locals, print_menu, led_prompt, fits, goes_on, stops,
  before, led_loop, branch, round, rounds,
}

abbrev pub is_quit : CString → Bool
is_quit word = str_eq word (codes "Q") || str_eq word (codes "q")

-- A word for the LED: it fits, does not quit, and its thread starts.
abbrev pub is_command : Outside → CString → Bool
is_command o word = fits word && (not (is_quit word) && o.is_led_created word)

abbrev pub led_events : List CString → List Event
led_events [] = led_prompt ∷ []
led_events (word ∷ words) = led_prompt ∷ led_ran word ∷ led_events words

led_loop-quit :
    (o : Outside) (l : Locals) (commands ws : List CString) (quit : CString)
    → all (is_command o) commands ≡ true
    → fits quit ≡ true
    → is_quit quit ≡ true
    → led_loop o l (commands ++ quit ∷ ws) ≡ goes_on (led_events commands) l ws
unfolding led_loop
led_loop-quit o l [] ws quit h f q = rw (f, q) refl
led_loop-quit o l (word ∷ commands) ws quit h f q =
    rw
      (
        fitting,
        stays,
        created,
        led_loop-quit o l commands ws quit
            (&&-right (is_command o word) (all (is_command o) commands) h) f q,
      )
      refl
  where
    now : is_command o word ≡ true
    now = &&-left (is_command o word) (all (is_command o) commands) h

    fitting : fits word ≡ true
    fitting = &&-left (fits word) (not (is_quit word) && o.is_led_created word) now

    others : (not (is_quit word) && o.is_led_created word) ≡ true
    others = &&-right (fits word) (not (is_quit word) && o.is_led_created word) now

    created : o.is_led_created word ≡ true
    created = &&-right (not (is_quit word)) (o.is_led_created word) others

    stays : is_quit word ≡ false
    stays = not-true (is_quit word) (&&-left (not (is_quit word)) (o.is_led_created word) others)

round-number :
    (o : Outside) (l : Locals) (word : CString) (ws : List CString) (n : ℕ)
    → o.number_of word ≡ some n
    → round o l (word ∷ ws) ≡ before (print_menu ∷ []) (branch o (record l { menu = some n }) ws)
unfolding round
round-number o l word ws n e = rw (round, e) refl

rounds-on :
    (o : Outside) (n : ℕ) (l l' : Locals) (ws ws' : List CString) (es : List Event)
    → round o l ws ≡ goes_on es l' ws'
    → rounds o (suc n) l ws ≡ before es (rounds o n l' ws')
unfolding rounds
rounds-on o n l l' ws ws' es e = rw (rounds, e) refl

rounds-stop :
    (o : Outside) (n : ℕ) (l : Locals) (ws : List CString) (es : List Event)
    → round o l ws ≡ stops es
    → rounds o (suc n) l ws ≡ stops es
unfolding rounds
rounds-stop o n l ws es e = rw (rounds, e) refl

-- "1", words for the LED, a quit, and "3": each word reaches `led_thread` once, in order and
-- unchanged, and the program leaves by its menu, in two rounds.
pub rounds_session :
    (o : Outside) (n : ℕ) (l : Locals) (one three quit : CString) (commands ws : List CString)
    → o.number_of one ≡ some 1
    → o.number_of three ≡ some 3
    → all (is_command o) commands ≡ true
    → fits quit ≡ true
    → is_quit quit ≡ true
    → rounds o (suc (suc n)) l (one ∷ (commands ++ quit ∷ three ∷ ws))
      ≡ stops (
          print_menu
          ∷ (led_events commands ++ (print_menu ∷ printed (codes "Exit...\n") ∷ left ∷ [])))
unfolding branch
rounds_session o n l one three quit commands ws e1 e3 h f q =
    let in_led : Locals = record l { menu = some 1 } in
    let first =
      round-number o l one (commands ++ quit ∷ three ∷ ws) 1 e1
      ∙ ap (before (print_menu ∷ [])) (led_loop-quit o in_led commands (three ∷ ws) quit h f q) in
    rounds-on o (suc n) l in_led _ (three ∷ ws) (print_menu ∷ led_events commands) first
    ∙ ap (before (print_menu ∷ led_events commands))
        (rounds-stop o n in_led (three ∷ ws) _ (round-number o in_led three ws 3 e3))
