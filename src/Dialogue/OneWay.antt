-- ===== src/Dialogue/OneWay.antt =====
-- ch07/ex05-1.c types lines into a message queue, ch07/ex05-2.c shows them and removes the queue. The
-- calls are those of Dialogue/System.
pub mod Letters
pub mod Delivery
pub mod Ending
use linux_systemprogramming.Common.{true, false, List, [], ◌∷◌, if◌then◌else◌}
use linux_systemprogramming.Common.Text.{CString}
use linux_systemprogramming.Dialogue.System.{
  Party, MsgQueue, is_end, fgets, msgsnd, Received, blocks, fails, received, msgrcv, show,
  remove_queue,
}

-- In its loop; behind it, in front of msgctl; at its end; or at a write in front of `m_str`, which follows
-- a failed msgrcv.
pub data Place : Type 0 where
  in_loop removing ended faulted : Place

pub record OneWay : Type 0 where
  pub sender_at : Place
  pub receiver_at : Place
  pub sender : Party
  pub receiver : Party
  pub queue : MsgQueue

unfoldable pub sender_step : Place → OneWay → OneWay
unfolding msgsnd
sender_step in_loop d =
    let typed = fgets d.sender in
    let (p, q) = msgsnd typed d.queue in
    record d { sender_at = if is_end typed.buf then ended else in_loop; sender = p; queue = q }
sender_step removing d = d
sender_step ended d = d
sender_step faulted d = d

-- What follows msgrcv.
unfoldable pub receive : Received → OneWay → OneWay
receive blocks d = d
receive fails d = record d { receiver_at = faulted }
receive (received m q) d = record d {
  receiver_at = if is_end m then removing else in_loop;
  receiver = show m d.receiver;
  queue = q;
}

unfoldable pub receiver_step : Place → OneWay → OneWay
unfolding receive msgrcv
receiver_step in_loop d = receive (msgrcv d.queue) d
receiver_step removing d = record d { receiver_at = ended; queue = remove_queue d.queue }
receiver_step ended d = d
receiver_step faulted d = d

pub data Side : Type 0 where
  sends receives : Side

unfoldable pub step : Side → OneWay → OneWay
unfolding sender_step receiver_step
step sends d = sender_step d.sender_at d
step receives d = receiver_step d.receiver_at d

unfoldable pub run : List Side → OneWay → OneWay
unfolding step
run [] d = d
run (s ∷ ss) d = run ss (step s d)

-- Behind msgget of both programs, on a fresh queue.
abbrev pub start : CString → List CString → OneWay
start stale input = record {
  sender_at = in_loop;
  receiver_at = in_loop;
  sender = record { buf = stale; input = input; sent = []; shown = [] };
  receiver = record { buf = []; input = []; sent = []; shown = [] };
  queue = record { messages = []; is_removed = false };
}
