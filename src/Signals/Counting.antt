-- ===== src/Signals/Counting.antt =====
-- The handlers of ch06-2/exercise.c. A signal that is sent becomes pending, once however often it is
-- sent, until its handler runs; a handler runs with all signals blocked, so that it is one step.
use linux_systemprogramming.Common.{
  ℕ, ◌+◌, ◌≤◌, ◌≡◌, refl, Bool, true, false, List, [], ◌∷◌, if◌then◌else◌, arith,
}

-- The signals that main leaves unblocked.
pub data Signal : Type 0 where
  sigusr1 sigusr2 sigint : Signal

pub record Process : Type 0 where
  pub usr1_count : ℕ
  pub usr2_count : ℕ
  pub usr1_pending : Bool
  pub usr2_pending : Bool
  pub int_pending : Bool
  -- the pairs of counts that were printed, newest first
  pub printed : List (ℕ × ℕ)

unfoldable pub usr1_handler : Process → Process
usr1_handler p = record p { usr1_count = p.usr1_count + 1 }

unfoldable pub usr2_handler : Process → Process
usr2_handler p = record p { usr2_count = p.usr2_count + 1 }

unfoldable pub int_handler : Process → Process
int_handler p = record p { printed = (p.usr1_count, p.usr2_count) ∷ p.printed }

pub data Action : Type 0 where
  send : Signal → Action
  deliver : Signal → Action

unfoldable pub act : Action → Process → Process
unfolding usr1_handler usr2_handler int_handler
act (send sigusr1) p = record p { usr1_pending = true }
act (send sigusr2) p = record p { usr2_pending = true }
act (send sigint) p = record p { int_pending = true }
act (deliver sigusr1) p =
    if p.usr1_pending then usr1_handler (record p { usr1_pending = false }) else p
act (deliver sigusr2) p =
    if p.usr2_pending then usr2_handler (record p { usr2_pending = false }) else p
act (deliver sigint) p = if p.int_pending then int_handler (record p { int_pending = false }) else p

unfoldable pub run : List Action → Process → Process
unfolding act
run [] p = p
run (a ∷ as') p = run as' (act a p)

abbrev pub start : Process
start = record {
  usr1_count = 0;
  usr2_count = 0;
  usr1_pending = false;
  usr2_pending = false;
  int_pending = false;
  printed = [];
}

abbrev pub bit : Bool → ℕ
bit b = if b then 1 else 0

-- How often SIGUSR1 was sent.
abbrev pub usr1_sent : List Action → ℕ
usr1_sent [] = 0
usr1_sent (send sigusr1 ∷ as') = 1 + usr1_sent as'
usr1_sent (a ∷ as') = usr1_sent as'

abbrev pub usr2_sent : List Action → ℕ
usr2_sent [] = 0
usr2_sent (send sigusr2 ∷ as') = 1 + usr2_sent as'
usr2_sent (a ∷ as') = usr2_sent as'

-- What has been counted and what is about to be.
abbrev usr1_due : Process → ℕ
usr1_due p = p.usr1_count + bit p.usr1_pending

abbrev usr2_due : Process → ℕ
usr2_due p = p.usr2_count + bit p.usr2_pending

abbrev Grows : Action → Process → Type 0
Grows a p =
    (usr1_due (act a p) ≤ usr1_due p + usr1_sent (a ∷ []))
    × (usr2_due (act a p) ≤ usr2_due p + usr2_sent (a ∷ []))

act-Grows : (a : Action) (p : Process) → Grows a p
unfolding act usr1_handler usr2_handler int_handler
act-Grows a p = go a p.usr1_pending p.usr2_pending p.int_pending
  where
    go :
        (a : Action) (b c d : Bool)
        → Grows a (record p { usr1_pending = b; usr2_pending = c; int_pending = d })
    go (send sigusr1) b c d = (ground arith, ground arith)
    go (send sigusr2) b c d = (ground arith, ground arith)
    go (send sigint) b c d = (ground arith, ground arith)
    go (deliver sigusr1) true c d = (omega arith, omega arith)
    go (deliver sigusr1) false c d = (omega arith, omega arith)
    go (deliver sigusr2) b true d = (omega arith, omega arith)
    go (deliver sigusr2) b false d = (omega arith, omega arith)
    go (deliver sigint) b c true = (omega arith, omega arith)
    go (deliver sigint) b c false = (omega arith, omega arith)

usr1_sent-cons :
    (a : Action) (as' : List Action) → usr1_sent (a ∷ as') ≡ usr1_sent (a ∷ []) + usr1_sent as'
usr1_sent-cons (send sigusr1) as' = omega arith
usr1_sent-cons (send sigusr2) as' = omega arith
usr1_sent-cons (send sigint) as' = omega arith
usr1_sent-cons (deliver s) as' = omega arith

usr2_sent-cons :
    (a : Action) (as' : List Action) → usr2_sent (a ∷ as') ≡ usr2_sent (a ∷ []) + usr2_sent as'
usr2_sent-cons (send sigusr1) as' = omega arith
usr2_sent-cons (send sigusr2) as' = omega arith
usr2_sent-cons (send sigint) as' = omega arith
usr2_sent-cons (deliver s) as' = omega arith

-- No signal is counted more often than it was sent, in any order of sending and delivery.
pub run_bounds :
    (as' : List Action) (p : Process)
    → (usr1_due (run as' p) ≤ usr1_due p + usr1_sent as')
      × (usr2_due (run as' p) ≤ usr2_due p + usr2_sent as')
unfolding run
run_bounds [] p = (omega arith, omega arith)
run_bounds (a ∷ as') p =
    let (g, h) = act-Grows a p in
    let (k, l) = run_bounds as' (act a p) in
    (omega (arith, g, k, usr1_sent-cons a as'), omega (arith, h, l, usr2_sent-cons a as'))

-- Each signal is delivered before the next one is sent.
abbrev pub prompt : List Signal → List Action
prompt [] = []
prompt (s ∷ ss) = send s ∷ deliver s ∷ prompt ss

-- The counts that a list of signals, from given ones on, leaves, and what it prints, newest first.
abbrev pub tally : List Signal → ℕ → ℕ → List (ℕ × ℕ) → ℕ × ℕ × List (ℕ × ℕ)
tally [] n m l = (n, m, l)
tally (sigusr1 ∷ ss) n m l = tally ss (n + 1) m l
tally (sigusr2 ∷ ss) n m l = tally ss n (m + 1) l
tally (sigint ∷ ss) n m l = tally ss n m ((n, m) ∷ l)

abbrev pub idle : ℕ → ℕ → List (ℕ × ℕ) → Process
idle n m l = record {
  usr1_count = n;
  usr2_count = m;
  usr1_pending = false;
  usr2_pending = false;
  int_pending = false;
  printed = l;
}

-- When each signal is delivered before the next one is sent, none is lost, and SIGINT prints how many
-- of each there were.
pub run-prompt :
    (ss : List Signal) (n m : ℕ) (l : List (ℕ × ℕ))
    → let (a, b, shown) = tally ss n m l in run (prompt ss) (idle n m l) ≡ idle a b shown
unfolding run act usr1_handler usr2_handler int_handler
run-prompt [] n m l = refl
run-prompt (sigusr1 ∷ ss) n m l = run-prompt ss (n + 1) m l
run-prompt (sigusr2 ∷ ss) n m l = run-prompt ss n (m + 1) l
run-prompt (sigint ∷ ss) n m l = run-prompt ss n m ((n, m) ∷ l)
