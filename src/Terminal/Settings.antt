-- ===== src/Terminal/Settings.antt =====
-- What tcgetattr and tcsetattr hold, as far as the programs look at it.
use linux_systemprogramming.Common.{ℕ, Bool}

pub record Settings : Type 0 where
  pub icanon : Bool
  pub echo : Bool
  pub vmin : ℕ
  pub vtime : ℕ
  -- all the other flags
  pub others : ℕ
