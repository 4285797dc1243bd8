-- ===== src/Terminal/Tests.antt =====
-- The terminal programs on typed texts.
use linux_systemprogramming.Common.{◌≡◌, refl, true, false, [], ◌∷◌}
use linux_systemprogramming.Common.Text.{codes}
use linux_systemprogramming.Terminal.Settings.{Settings}
use linux_systemprogramming.Terminal.Masking.{Answers}
use linux_systemprogramming.Terminal.Keys as Keys

abbrev usual : Settings
usual = record { icanon = true; echo = true; vmin = 1; vtime = 0; others = 7 }

abbrev working : Answers
working = record { gets = true; sets = true; restores = true }

abbrev idle : Keys.Console
idle = record { settings = usual; is_nonblocking = false; keys = codes "x"; pushed_back = [] }

-- Another key is taken and ignored, and q ends the loop.
quit_text :
    (Keys.key_loop ([] ∷ codes "q" ∷ codes "z" ∷ []) idle).1
    ≡ Keys.delayed 100
      ∷ Keys.killed
      ∷ Keys.cancelled
      ∷ Keys.delayed 100
      ∷ Keys.printed (codes "Good Bye!\n")
      ∷ []
unfolding Keys.key_loop
quit_text = refl
