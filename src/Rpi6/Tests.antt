-- ===== src/Rpi6/Tests.antt =====
-- A request with a query on concrete values.
use linux_systemprogramming.Common.{ℕ, ◌≡◌, refl, List, [], ◌∷◌}
use linux_systemprogramming.Common.Text.{CString, codes, strtok}
use linux_systemprogramming.WebLed.Led.{low, high}
use linux_systemprogramming.Rpi6.Query.{query_levels}

abbrev pairs : List (CString × CString)
pairs = (codes "led", codes "On") ∷ (codes "x", codes "1") ∷ (codes "led", codes "Off") ∷ []

abbrev digits : ℕ → CString
digits n = n ∷ []

switched : query_levels (codes "led=On&x=1&led=Off") ≡ high ∷ low ∷ []
unfolding query_levels strtok
switched = refl
