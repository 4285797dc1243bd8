-- ===== src/WebLed/Led.antt =====
-- ch09/webLED/led.c: the LED commands and their table.
use linux_systemprogramming.Common.{ℕ, ◌≡◌, List, [], ◌∷◌, if◌then◌else◌, Bool-cases, inl, inr}
use linux_systemprogramming.Common.Text.{CString, codes, str_eq}

pub data Level : Type 0 where
  low high : Level

-- The calls of wiringPi, in order.
pub data PinEvent : Type 0 where
  wiring_pi_setup : PinEvent
  pin_mode_output : ℕ → PinEvent
  digital_write : ℕ → Level → PinEvent
  delay : ℕ → PinEvent

abbrev pub led : ℕ
led = 1

unfoldable pub led_on : List PinEvent
led_on = digital_write led high ∷ []

unfoldable pub led_off : List PinEvent
led_off = digital_write led low ∷ []

unfoldable pub led_blink : List PinEvent
led_blink = digital_write led high ∷ delay 500 ∷ digital_write led low ∷ delay 500 ∷ []

-- `struct command_map`
pub record CommandMap : Type 0 where
  pub command : CString
  pub action : List PinEvent

unfoldable pub lut : List CommandMap
unfolding led_on led_off led_blink
lut =
    record { command = codes "ON"; action = led_on }
    ∷ record { command = codes "OFF"; action = led_off }
    ∷ record { command = codes "BLINK"; action = led_blink }
    ∷ []

-- The loop over the table.
unfoldable pub dispatch : CString → List CommandMap → List PinEvent
dispatch arg [] = []
dispatch arg (m ∷ ms) = if str_eq arg m.command then m.action else dispatch arg ms

unfoldable pub led_function : CString → List PinEvent
unfolding dispatch lut
led_function arg = wiring_pi_setup ∷ pin_mode_output led ∷ dispatch arg lut

-- The level that the pin is left at, if it is written.
abbrev pub level_after : Level → List PinEvent → Level
level_after l [] = l
level_after l (digital_write n l' ∷ es) = level_after l' es
level_after l (e ∷ es) = level_after l es

-- ON leaves the LED lit, OFF and BLINK leave it dark, and any other text leaves it as it is.
pub led_function_level :
    (arg : CString) (l : Level)
    → level_after l (led_function arg) ≡ (
        if str_eq arg (codes "ON")
        then high
        else if str_eq arg (codes "OFF")
        then low
        else if str_eq arg (codes "BLINK")
        then low
        else l)
unfolding led_function
led_function_level arg l = elim (Bool-cases (str_eq arg (codes "ON"))) [
  | inl e ↦ rw e
  | inr e ↦ elim (Bool-cases (str_eq arg (codes "OFF"))) [
    | inl e' ↦ rw (e, e')
    | inr e' ↦ elim (Bool-cases (str_eq arg (codes "BLINK"))) [
      | inl q ↦ rw (e, e', q)
      | inr q ↦ rw (e, e', q)
    ]
  ]
]
