-- ===== src/Raspi/Menu.antt =====
-- The menu of raspi/main.c, on the words that stdin yields.
use linux_systemprogramming.Common.{
  ℕ, zero, suc, Bool, true, ◌||◌, Option, none, some, List, [], ◌∷◌, ◌++◌, length, if◌then◌else◌,
  ltb, ◌==◌,
}
use linux_systemprogramming.Common.Text.{CString, codes, str_eq}

pub data Event : Type 0 where
  printed : CString → Event
  -- `led_thread` and `cds_thread` with their argument; the first is waited for, the second detached
  led_ran : CString → Event
  cds_started : CString → Event
  cds_cancelled : Event
  -- pthread_create failed: `exit(-1)`
  gave_up : Event
  -- `exit(0)`
  left : Event
  -- the end of the input: the loops go on without reading, which is not followed further
  input_ended : Event

-- What the program cannot know: how scanf reads a word as a number, and whether threads start.
pub record Outside : Type 0 where
  pub number_of : CString → Option ℕ
  pub is_led_created : CString → Bool
  pub is_cds_created : CString → Bool

-- `char buf[80]`
abbrev pub buf_size : ℕ
buf_size = 80

-- The variables `menu` and `tid2`; `none` is not initialised.
pub record Locals : Type 0 where
  pub menu : Option ℕ
  pub has_tid2 : Bool

abbrev pub print_menu : Event
print_menu = printed (
    codes "\n===============================\n"
    ++ codes "1. LED\n"
    ++ codes "2. CDS\n"
    ++ codes "3. EXIT\n"
    ++ codes "===============================\n"
    ++ codes "Input > ")

abbrev pub led_prompt : Event
led_prompt = printed (codes "Usage: [ON | OFF | BLINK | Q]\n" ++ codes "LED Input> ")

abbrev pub cds_prompt : Event
cds_prompt = printed (codes "Usage: [ON | OFF]\n" ++ codes "CDS Input> ")

-- `scanf("%s", buf)`: a word that is longer than the array is written past it.
abbrev pub fits : CString → Bool
fits word = ltb (length word) buf_size

-- How the inner loop and the branches of the menu go on: with the words that are left, or not.
pub data Flow : Type 0 where
  goes_on : List Event → Locals → List CString → Flow
  stops : List Event → Flow
  faults : Flow

abbrev pub before : List Event → Flow → Flow
before es (goes_on fs l ws) = goes_on (es ++ fs) l ws
before es (stops fs) = stops (es ++ fs)
before es faults = faults

module _ (o : Outside) where
  -- The `while (1)` of the LED.
  unfoldable pub led_loop : Locals → List CString → Flow
  led_loop l [] = stops (led_prompt ∷ input_ended ∷ [])
  led_loop l (word ∷ ws) =
      let rest = led_loop l ws in
      if fits word
      then (if str_eq word (codes "Q") || str_eq word (codes "q")
          then goes_on (led_prompt ∷ []) l ws
          else if o.is_led_created word
          then before (led_prompt ∷ led_ran word ∷ []) rest
          else stops (led_prompt ∷ gave_up ∷ []))
      else faults

  -- The branch of the light sensor. pthread_cancel of a `tid2` that no pthread_create has written
  -- is a fault.
  unfoldable pub cds_branch : Locals → List CString → Flow
  cds_branch l [] = stops (cds_prompt ∷ input_ended ∷ [])
  cds_branch l (word ∷ ws) =
      if fits word
      then (if str_eq word (codes "OFF")
          then (if l.has_tid2 then goes_on (cds_prompt ∷ cds_cancelled ∷ []) l ws else faults)
          else if o.is_cds_created word
          then goes_on (cds_prompt ∷ cds_started word ∷ []) (record l { has_tid2 = true }) ws
          else stops (cds_prompt ∷ gave_up ∷ []))
      else faults

  abbrev pub select_text : Event
  select_text = printed (codes "\nSelect mode only [1 | 2 | 3]\n")

  -- The tests on `menu`. With `menu` not initialised they are a fault.
  unfoldable pub branch : Locals → List CString → Flow
  unfolding led_loop cds_branch
  branch l ws = elim l.menu [
    | none ↦ faults
    | some n ↦
        if n == 1
        then led_loop l ws
        else if n == 2
        then cds_branch l ws
        else if n == 3
        then stops (printed (codes "Exit...\n") ∷ left ∷ [])
        else goes_on (select_text ∷ []) l ws
  ]

  -- One round: a word that is no number stays in the input, and `menu` stays as it is.
  unfoldable pub round : Locals → List CString → Flow
  unfolding branch
  round l [] = stops (print_menu ∷ input_ended ∷ [])
  round l (word ∷ ws) = elim (o.number_of word) [
    | none ↦ before (print_menu ∷ []) (branch l (word ∷ ws))
    | some n ↦ before (print_menu ∷ []) (branch (record l { menu = some n }) ws)
  ]

  -- `while (1)`, for at most so many rounds.
  unfoldable pub rounds : ℕ → Locals → List CString → Flow
  unfolding round
  rounds zero l ws = goes_on [] l ws
  rounds (suc n) l ws = elim (round l ws) [
    | goes_on es l' ws' ↦ before es (rounds n l' ws')
    | stops es ↦ stops es
    | faults ↦ faults
  ]
