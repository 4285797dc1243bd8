-- ===== src/Dialogue/SetUp.antt =====
-- The beginning of ch07/exercise-1.c and ch07/exercise-2.c: two message queues, or `exit(1)`.
use linux_systemprogramming.Common.{ℕ, Option, none, some}
use linux_systemprogramming.Common.Text.{CString, codes}

pub data SetUp : Type 0 where
  gave_up : CString → SetUp
  ready : ℕ → ℕ → SetUp

-- Both programs ask for the queues in the same order.
unfoldable pub open_queues : Option ℕ → Option ℕ → SetUp
open_queues (some msgid1) (some msgid2) = ready msgid1 msgid2
open_queues (some msgid1) none = gave_up (codes "msgget")
open_queues none second = gave_up (codes "msgget")
