-- ===== src/Semaphore/Receiver.antt =====
-- The receiver, ch07/exercise-4.c.
use linux_systemprogramming.Common.{◌+◌, Option, none, some, List, [], ◌∷◌, if◌then◌else◌}
use linux_systemprogramming.Common.Text.{CString, codes, str_eq}
use linux_systemprogramming.Semaphore.Sender.{Shared, acquire}

pub data ReceiverPc : Type 0 where
  before_read : ReceiverPc
  reading : ReceiverPc
  releasing : ReceiverPc
  receiver_done : ReceiverPc

-- One step of the receiver, with the texts that it has printed. `none`: it waits or has ended. A
-- failing semop changes nothing, as its result is ignored.
unfoldable pub receiver_step : ReceiverPc → Shared → Option (ReceiverPc × Shared × List CString)
receiver_step before_read s =
    if s.is_removed then some (reading, s, []) else elim (acquire s.read_allowed) [
      | none ↦ none
      | some n ↦ some (reading, record s { read_allowed = n }, [])
    ]
receiver_step reading s =
    if str_eq s.memory (codes "end")
    then some (receiver_done, s, [])
    else if str_eq s.memory []
    then some (before_read, s, [])
    else some (releasing, s, s.memory ∷ [])
receiver_step releasing s =
    if s.is_removed
    then some (before_read, s, [])
    else some (before_read, record s { write_allowed = s.write_allowed + 1 }, [])
receiver_step receiver_done s = none
