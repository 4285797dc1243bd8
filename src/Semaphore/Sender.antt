-- ===== src/Semaphore/Sender.antt =====
-- The sender, ch07/exercise-3.c, and the memory and semaphores that it shares with the receiver.
use linux_systemprogramming.Common.{
  ℕ, zero, suc, ◌+◌, Bool, true, false, Option, none, some, ◌++◌, if◌then◌else◌, ltb,
}
use linux_systemprogramming.Common.Text.{CString, codes}

-- `sem[0]` and `sem[1]`. The set can be removed, and then semop fails at once.
pub record Shared : Type 0 where
  pub write_allowed : ℕ
  pub read_allowed : ℕ
  pub is_removed : Bool
  pub memory : CString

-- Where the sender is. The number is `i` of the loop.
pub data SenderPc : Type 0 where
  before_write : ℕ → SenderPc
  writing : ℕ → SenderPc
  signalling : ℕ → SenderPc
  before_end : SenderPc
  writing_end : SenderPc
  removing : SenderPc
  sender_done : SenderPc

-- `semop(semid, &sp, 1)` on a semaphore: `none` blocks.
abbrev pub acquire : ℕ → Option ℕ
acquire zero = none
acquire (suc n) = some n

abbrev pub rounds : ℕ
rounds = 20

-- `sprintf(shmaddr, "shared memory test %d", i+1)`, for the digits that `%d` prints.
abbrev pub text_of : (ℕ → CString) → ℕ → CString
text_of digits i = codes "shared memory test " ++ digits (i + 1)

-- The state behind the two SETVAL calls, and the memory as shmget leaves it.
abbrev pub set_up : CString → Shared
set_up old = record { write_allowed = 1; read_allowed = 0; is_removed = false; memory = old }

-- The place behind one round: `for(i=0; i<20; i++)`
unfoldable pub next_round : ℕ → SenderPc
next_round i = if ltb i rounds then before_write i else before_end

-- One step of the sender. `none`: it waits or has ended.
unfoldable pub sender_step : (ℕ → CString) → SenderPc → Shared → Option (SenderPc × Shared)
unfolding next_round
sender_step digits (before_write i) s = elim (acquire s.write_allowed) [
  | none ↦ none
  | some n ↦ some (writing i, record s { write_allowed = n })
]
sender_step digits (writing i) s = some (signalling i, record s { memory = text_of digits i })
sender_step digits (signalling i) s =
    some (next_round (i + 1), record s { read_allowed = s.read_allowed + 1 })
sender_step digits before_end s = elim (acquire s.write_allowed) [
  | none ↦ none
  | some n ↦ some (writing_end, record s { write_allowed = n })
]
sender_step digits writing_end s = some (removing, record s { memory = codes "end" })
sender_step digits removing s = some (sender_done, record s { is_removed = true })
sender_step digits sender_done s = none
