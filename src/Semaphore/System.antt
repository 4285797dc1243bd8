-- ===== src/Semaphore/System.antt =====
-- The two programs side by side: any interleaving of their steps, as a schedule.
use linux_systemprogramming.Common.{ℕ, zero, suc, none, some, List, [], ◌∷◌, ◌++◌}
use linux_systemprogramming.Common.Text.{CString}
use linux_systemprogramming.Semaphore.Sender.{
  Shared, SenderPc, text_of, set_up, next_round, sender_step,
}
use linux_systemprogramming.Semaphore.Receiver.{ReceiverPc, before_read, receiver_step}

pub record System : Type 0 where
  pub sender_pc : SenderPc
  pub receiver_pc : ReceiverPc
  pub shared : Shared
  pub printed : List CString

pub data Process : Type 0 where
  sender receiver : Process

-- A process that is scheduled while it waits stays where it is.
unfoldable pub step : (ℕ → CString) → Process → System → System
unfolding sender_step receiver_step
step digits sender st = elim (sender_step digits st.sender_pc st.shared) [
  | none ↦ st
  | some (pc, s) ↦ record {
    sender_pc = pc;
    receiver_pc = st.receiver_pc;
    shared = s;
    printed = st.printed;
  }
]
step digits receiver st = elim (receiver_step st.receiver_pc st.shared) [
  | none ↦ st
  | some (pc, s, out) ↦ record {
    sender_pc = st.sender_pc;
    receiver_pc = pc;
    shared = s;
    printed = st.printed ++ out;
  }
]

unfoldable pub run : (ℕ → CString) → List Process → System → System
unfolding step
run digits [] st = st
run digits (p ∷ ps) st = run digits ps (step digits p st)

unfoldable pub start : CString → System
unfolding next_round
start old = record {
  sender_pc = next_round 0;
  receiver_pc = before_read;
  shared = set_up old;
  printed = [];
}

-- The texts of the first `n` rounds.
abbrev pub texts : (ℕ → CString) → ℕ → List CString
texts digits zero = []
texts digits (suc n) = texts digits n ++ (text_of digits n ∷ [])
