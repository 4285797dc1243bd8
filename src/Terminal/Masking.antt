-- ===== src/Terminal/Masking.antt =====
-- `main` of ch04/ex02.c: characters are read without an echo, and a star is printed for each.
use linux_systemprogramming.Common.{
  ℕ, ◌≡◌, refl, sym, ap, ◌∙◌, Bool, true, false, not, List, [], ◌∷◌, ◌++◌, length, all,
  if◌then◌else◌, ◌==◌, replicate, &&-left, &&-right, not-true, append-nil, append_assoc,
}
use linux_systemprogramming.Common.Text.{CString, codes}
use linux_systemprogramming.Terminal.Settings.{Settings}

-- Whether tcgetattr, and tcsetattr each time, succeed.
pub record Answers : Type 0 where
  pub gets : Bool
  pub sets : Bool
  pub restores : Bool

pub data Event : Type 0 where
  complained : CString → Event
  star_printed : Event

-- The status, or the loop that goes on for ever at the end of the input; what was printed, what getchar
-- has not taken of the input (TCSAFLUSH may discard it), and the settings.
pub data End : Type 0 where
  ended : ℕ → List Event → CString → Settings → End
  looping : Settings → End

abbrev pub raw : Settings → Settings
raw s = record s { icanon = false; echo = false; vmin = 1; vtime = 0 }

-- Behind the loop.
unfoldable pub restore : Answers → Settings → List Event → CString → Settings → End
restore a old log rest now =
    if a.restores
    then ended 0 log rest old
    else ended 1 (log ++ complained (codes "tcsetattr") ∷ []) rest now

-- The loop: at the end of the input getchar gives EOF, which is no newline.
unfoldable pub mask_loop : Answers → Settings → Settings → List Event → CString → End
unfolding restore
mask_loop a old now log [] = looping now
mask_loop a old now log (c ∷ input) =
    let rest = mask_loop a old now (log ++ star_printed ∷ []) input in
    if c == 10 then restore a old log input now else rest

unfoldable pub mask : Answers → Settings → CString → End
unfolding mask_loop
mask a s input =
    if a.gets
    then (if a.sets
        then mask_loop a s (raw s) [] input
        else ended 1 (complained (codes "tcsetattr") ∷ []) input s)
    else ended 1 (complained (codes "tcgetattr") ∷ []) input s

abbrev pub is_line : CString → Bool
is_line s = all (λ c. not (c == 10)) s

mask_loop-line :
    (a : Answers) (old now : Settings) (log : List Event) (s rest : CString)
    → is_line s ≡ true
    → mask_loop a old now log (s ++ 10 ∷ rest)
      ≡ restore a old (log ++ replicate (length s) star_printed) rest now
unfolding mask_loop
mask_loop-line a old now log [] rest h = ap (λ l. restore a old l rest now) (sym (append-nil log))
mask_loop-line a old now log (c ∷ s) rest h =
    rw (not-true (c == 10) (&&-left (not (c == 10)) (is_line s) h)) (
      mask_loop-line a old now (log ++ star_printed ∷ []) s rest
        (&&-right (not (c == 10)) (is_line s) h)
      ∙ ap (λ l. restore a old l rest now)
          (append_assoc log (star_printed ∷ []) (replicate (length s) star_printed)))

mask_loop-endless :
    (a : Answers) (old now : Settings) (log : List Event) (s : CString)
    → is_line s ≡ true
    → mask_loop a old now log s ≡ looping now
unfolding mask_loop
mask_loop-endless a old now log [] h = refl
mask_loop-endless a old now log (c ∷ s) h =
    rw (not-true (c == 10) (&&-left (not (c == 10)) (is_line s) h)) (
      mask_loop-endless a old now (log ++ star_printed ∷ []) s
        (&&-right (not (c == 10)) (is_line s) h))

-- When all calls succeed, the program prints one star for each byte of a line up to its newline,
-- takes nothing behind it, and ends with the settings as they were. An input without a newline leaves
-- it in its loop, with the changed settings.
mask_lem :
    (a : Answers) (s : Settings) (line rest : CString)
    → is_line line ≡ true
    → a.gets ≡ true
    → a.sets ≡ true
    → a.restores ≡ true
    → (mask a s (line ++ 10 ∷ rest) ≡ ended 0 (replicate (length line) star_printed) rest s)
      × (mask a s line ≡ looping (raw s))
unfolding mask restore
mask_lem a s line rest h g t r = (
  rw (g, t) (mask_loop-line a s (raw s) [] line rest h ∙ rw r refl),
  rw (g, t) (mask_loop-endless a s (raw s) [] line h),
)
