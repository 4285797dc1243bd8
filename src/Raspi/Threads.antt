-- ===== src/Raspi/Threads.antt =====
-- The two thread functions of raspi/main.c, which load libled.so and call into it, and the LED
-- function of raspi/led.c that the first of them reaches.
use linux_systemprogramming.Common.{
  ℕ, ◌≡◌, refl, true, List, [], ◌∷◌, ◌++◌, if◌then◌else◌, Bool-cases, inl, inr,
}
use linux_systemprogramming.Common.Text.{CString, codes, str_eq}
use linux_systemprogramming.WebLed.Led.{
  Level, low, high, PinEvent, wiring_pi_setup, pin_mode_output, digital_write, delay, level_after,
}
use linux_systemprogramming.WebLed.Thread.{Loader, LibEvent, opened, complained, called, closed}

unfoldable pub led_thread : Loader → CString → List LibEvent
led_thread l arg =
    if l.dlopen (codes "./libled.so")
    then opened
      ∷ (if l.dlsym (codes "led_function")
          then called (codes "led_function") arg ∷ closed ∷ []
          else complained (codes "dlsym error: %s\n") ∷ closed ∷ [])
    else complained (codes "dlopen error\n") ∷ []

unfoldable pub cds_thread : Loader → CString → List LibEvent
cds_thread l arg =
    if l.dlopen (codes "./libled.so")
    then opened
      ∷ (if l.dlsym (codes "cds_function")
          then called (codes "cds_function") arg ∷ closed ∷ []
          else complained (codes "dlsym error: %s\n") ∷ closed ∷ [])
    else complained (codes "dlopen error\n") ∷ []

abbrev pub led : ℕ
led = 1

-- The table of raspi/led.c.
abbrev pub lut : List (CString × List PinEvent)
lut =
    (codes "ON", digital_write led high ∷ [])
    ∷ (codes "OFF", digital_write led low ∷ [])
    ∷ (codes "BLINK", digital_write led high ∷ delay 500 ∷ digital_write led low ∷ delay 500 ∷ [])
    ∷ []

unfoldable pub dispatch : CString → List (CString × List PinEvent) → List PinEvent
dispatch arg [] = []
dispatch arg ((command, action) ∷ l) = if str_eq arg command then action else dispatch arg l

unfoldable pub led_function : CString → List PinEvent
unfolding dispatch
led_function arg = wiring_pi_setup ∷ pin_mode_output led ∷ dispatch arg lut

-- What the pin gets to see of a thread's calls.
abbrev pub pins : List LibEvent → List PinEvent
pins [] = []
pins (called f arg ∷ es) =
    if str_eq f (codes "led_function") then led_function arg ++ pins es else pins es
pins (e ∷ es) = pins es

-- With a library that loads and has the LED function, a thread for "ON" leaves the LED lit, one for
-- "OFF" or "BLINK" leaves it dark, and the thread for the light sensor does not touch it.
threads_level :
    (l : Loader) (level : Level) (arg : CString)
    → l.dlopen (codes "./libled.so") ≡ true
    → l.dlsym (codes "led_function") ≡ true
    → (level_after level (pins (led_thread l (codes "ON"))) ≡ high)
      × (level_after level (pins (led_thread l (codes "OFF"))) ≡ low)
      × (level_after level (pins (led_thread l (codes "BLINK"))) ≡ low)
      × (level_after level (pins (cds_thread l arg)) ≡ level)
unfolding led_thread cds_thread led_function
threads_level l level arg o s = (
  rw (o, s) refl,
  rw (o, s) refl,
  rw (o, s) refl,
  elim (Bool-cases (l.dlsym (codes "cds_function"))) [
    | inl e ↦ rw (o, e) refl
    | inr e ↦ rw (o, e) refl
  ],
)
