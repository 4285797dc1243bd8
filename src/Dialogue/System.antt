-- ===== src/Dialogue/System.antt =====
-- The two programs of ch07/exercise-1.c (it types first) and ch07/exercise-2.c (it answers, and
-- removes the queues at its end), and the queues between them.
use linux_systemprogramming.Common.{Bool, true, false, List, [], ◌∷◌, ◌++◌, if◌then◌else◌}
use linux_systemprogramming.Common.Text.{CString, codes, strn_eq}

pub data FirstPc : Type 0 where
  first_typing : FirstPc
  first_receiving : FirstPc
  -- a write in front of `m_str`, behind a failed msgrcv
  first_faulted : FirstPc
  first_done : FirstPc

pub data SecondPc : Type 0 where
  second_receiving : SecondPc
  second_typing : SecondPc
  second_faulted : SecondPc
  -- in front of the two `msgctl(.., IPC_RMID, 0)`
  removing_first_queue : SecondPc
  removing_second_queue : SecondPc
  second_done : SecondPc

-- One of the programs' data: `buf`, what fgets will read, what msgsnd has queued and what is printed.
pub record Party : Type 0 where
  pub buf : CString
  pub input : List CString
  pub sent : List CString
  pub shown : List CString

-- `msgid1` and `msgid2`. Each carries messages of one type only.
pub record MsgQueue : Type 0 where
  pub messages : List CString
  pub is_removed : Bool

pub record Dialogue : Type 0 where
  pub first_pc : FirstPc
  pub second_pc : SecondPc
  pub first : Party
  pub second : Party
  pub queue1 : MsgQueue
  pub queue2 : MsgQueue

abbrev pub is_end : CString → Bool
is_end s = strn_eq 3 s (codes "end")

-- `fgets(buf, 1023, stdin)`: at the end of the input `buf` stays as it is.
abbrev pub fgets : Party → Party
fgets p = elim p.input [ [] ↦ p | line ∷ lines ↦ record p { buf = line; input = lines } ]

-- `strcpy` and `msgsnd`, whose failure is not looked at.
unfoldable pub msgsnd : Party → MsgQueue → Party × MsgQueue
msgsnd p q = if q.is_removed then (p, q) else (
  record p { sent = p.sent ++ p.buf ∷ [] },
  record q { messages = q.messages ++ p.buf ∷ [] },
)

-- `msgctl(msgid, IPC_RMID, 0)`: the messages go with the queue.
abbrev pub remove_queue : MsgQueue → MsgQueue
remove_queue q = record { messages = []; is_removed = true }

pub data Received : Type 0 where
  blocks : Received
  fails : Received
  received : CString → MsgQueue → Received

unfoldable pub msgrcv : MsgQueue → Received
msgrcv q =
    if q.is_removed
    then fails
    else elim q.messages [ [] ↦ blocks | m ∷ ms ↦ received m (record q { messages = ms }) ]

abbrev pub show : CString → Party → Party
show m p = record p { shown = p.shown ++ m ∷ [] }

-- What follows the fgets of each program.
unfoldable pub first_sends : Dialogue → Party → Dialogue
unfolding msgsnd
first_sends d p = record d {
  first_pc = if is_end p.buf then first_done else first_receiving;
  first = (msgsnd p d.queue1).0;
  queue1 = (msgsnd p d.queue1).1;
}

unfoldable pub second_sends : Dialogue → Party → Dialogue
unfolding msgsnd
second_sends d p = record d {
  second_pc = if is_end p.buf then removing_first_queue else second_receiving;
  second = (msgsnd p d.queue2).0;
  queue2 = (msgsnd p d.queue2).1;
}

unfoldable pub first_receives : Dialogue → Received → Dialogue
first_receives d blocks = d
first_receives d fails = record d { first_pc = first_faulted }
first_receives d (received m q) = record d {
  first_pc = if is_end m then first_done else first_typing;
  first = show m d.first;
  queue2 = q;
}

unfoldable pub second_receives : Dialogue → Received → Dialogue
second_receives d blocks = d
second_receives d fails = record d { second_pc = second_faulted }
second_receives d (received m q) = record d {
  second_pc = if is_end m then removing_first_queue else second_typing;
  second = show m d.second;
  queue1 = q;
}

-- One step of each program; a program that waits stays where it is.
unfoldable pub first_step : FirstPc → Dialogue → Dialogue
unfolding first_sends first_receives msgrcv
first_step first_typing d = first_sends d (fgets d.first)
first_step first_receiving d = first_receives d (msgrcv d.queue2)
first_step first_faulted d = d
first_step first_done d = d

unfoldable pub second_step : SecondPc → Dialogue → Dialogue
unfolding second_sends second_receives msgrcv
second_step second_receiving d = second_receives d (msgrcv d.queue1)
second_step second_typing d = second_sends d (fgets d.second)
second_step removing_first_queue d = record d {
  second_pc = removing_second_queue;
  queue1 = remove_queue d.queue1;
}
second_step removing_second_queue d = record d {
  second_pc = second_done;
  queue2 = remove_queue d.queue2;
}
second_step second_faulted d = d
second_step second_done d = d

pub data Program : Type 0 where
  exercise1 exercise2 : Program

unfoldable pub step : Program → Dialogue → Dialogue
unfolding first_step second_step
step exercise1 d = first_step d.first_pc d
step exercise2 d = second_step d.second_pc d

unfoldable pub run : List Program → Dialogue → Dialogue
unfolding step
run [] d = d
run (p ∷ ps) d = run ps (step p d)

-- Both programs behind their msgget, on fresh queues, with what stdin and the arrays hold.
unfoldable pub start : List CString → List CString → CString → CString → Dialogue
start input1 input2 stale1 stale2 = record {
  first_pc = first_typing;
  second_pc = second_receiving;
  first = record { buf = stale1; input = input1; sent = []; shown = [] };
  second = record { buf = stale2; input = input2; sent = []; shown = [] };
  queue1 = record { messages = []; is_removed = false };
  queue2 = record { messages = []; is_removed = false };
}
