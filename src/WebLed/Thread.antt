-- ===== src/WebLed/Thread.antt =====
-- ch09/webLED/thread.c: the two thread functions that load libled.so and call into it.
use linux_systemprogramming.Common.{
  ℕ, ◌+◌, ◌-◌, ◌≡◌, Bool, true, ◌&&◌, List, [], ◌∷◌, arith, ltb, if◌then◌else◌,
}
use linux_systemprogramming.Common.Text.{CString, codes}

-- What the dynamic loader answers: whether dlopen gives a handle, and whether dlsym finds the name.
pub record Loader : Type 0 where
  pub dlopen : CString → Bool
  pub dlsym : CString → Bool

pub data LibEvent : Type 0 where
  opened : LibEvent
  complained : CString → LibEvent
  called : CString → CString → LibEvent
  closed : LibEvent

abbrev pub lib_file : CString
lib_file = codes "./libled.so"

-- The calls of each function, in order; the failures go to the label `err`.
unfoldable pub led_thread : Loader → CString → List LibEvent
led_thread l arg =
    if l.dlopen lib_file
    then opened
      ∷ (if l.dlsym (codes "led_function")
          then called (codes "led_function") arg ∷ closed ∷ []
          else complained (codes "dlsym error: %s\n") ∷ closed ∷ [])
    else complained (codes "dlopen error\n") ∷ []

unfoldable pub cds_thread : Loader → CString → List LibEvent
cds_thread l arg =
    if l.dlopen lib_file
    then opened
      ∷ (if l.dlsym (codes "cds_function")
          then called (codes "cds_function") arg ∷ closed ∷ []
          else complained (codes "dlsym error: %s\n") ∷ closed ∷ [])
    else complained (codes "dlopen error\n") ∷ []

-- The handles that are open behind these calls.
abbrev pub handles : ℕ → List LibEvent → ℕ
handles n [] = n
handles n (opened ∷ es) = handles (n + 1) es
handles n (closed ∷ es) = handles (n - 1) es
handles n (e ∷ es) = handles n es

-- Every call into the library is made while a handle is open.
abbrev pub are_open_calls : ℕ → List LibEvent → Bool
are_open_calls n [] = true
are_open_calls n (opened ∷ es) = are_open_calls (n + 1) es
are_open_calls n (closed ∷ es) = ltb 0 n && are_open_calls (n - 1) es
are_open_calls n (called f a ∷ es) = ltb 0 n && are_open_calls n es
are_open_calls n (complained m ∷ es) = are_open_calls n es

-- On every path both thread functions close each handle that they open, once, and call into the
-- library only while they hold one.
threads_close_handles :
    (l : Loader) (arg : CString)
    → (handles 0 (led_thread l arg) ≡ 0)
      × (handles 0 (cds_thread l arg) ≡ 0)
      × (are_open_calls 0 (led_thread l arg) ≡ true)
      × (are_open_calls 0 (cds_thread l arg) ≡ true)
unfolding led_thread cds_thread
threads_close_handles l arg = ground arith
