-- ===== src/MsgServer/Queue.antt =====
-- The bounded queue of ch09/msg_server.c: `enqueue`, and the part of `msg_collect` that takes an
-- entry out. Both run under `q_mutex`, so each is one step.
use linux_systemprogramming.Common.{
  ℕ, ◌+◌, ◌-◌, ◌%◌, Option, none, some, List, ◌==◌, ltb, get_elem?, set, replicate, if◌then◌else◌,
}
use linux_systemprogramming.Common.Text.{CString}
use linux_systemprogramming.MsgServer.Buffer.{Buffer, strncpy}

abbrev pub maxdatasize : ℕ
maxdatasize = 1024

abbrev pub queue_size : ℕ
queue_size = 100

abbrev pub inet_addrstrlen : ℕ
inet_addrstrlen = 16

pub record LogEntry : Type 0 where
  pub client_ip : Buffer
  pub message : Buffer

-- The static variables.
pub record Queue : Type 0 where
  pub queue : List LogEntry
  pub q_head : ℕ
  pub q_tail : ℕ
  pub q_count : ℕ

-- Static storage is zeroed.
unfoldable pub initial : Queue
initial = record {
  queue =
      replicate queue_size
        (record { client_ip = replicate inet_addrstrlen 0; message = replicate maxdatasize 0 });
  q_head = 0;
  q_tail = 0;
  q_count = 0;
}

-- The entry with the two strings copied in.
abbrev pub filled : LogEntry → CString → CString → LogEntry
filled e ip msg = record {
  client_ip = strncpy e.client_ip ip (inet_addrstrlen - 1);
  message = strncpy e.message msg (maxdatasize - 1);
}

-- The branch of `enqueue` where there is room.
abbrev pub store : Queue → CString → CString → LogEntry → Queue
store q ip msg e = record {
  queue = set q.queue q.q_tail (filled e ip msg);
  q_head = q.q_head;
  q_tail = (q.q_tail + 1) % queue_size;
  q_count = q.q_count + 1;
}

-- `none` is an access past the array.
unfoldable pub enqueue : CString → CString → Queue → Option Queue
enqueue ip msg q =
    if ltb q.q_count queue_size
    then (elim (get_elem? q.queue q.q_tail) [ none ↦ none | some e ↦ some (store q ip msg e) ])
    else some q

pub data Taken : Type 0 where
  -- the wait on `q_cond`
  waits : Taken
  faulted : Taken
  took : LogEntry → Queue → Taken

-- The queue behind `q_head++; q_count--`.
abbrev pub rest : Queue → Queue
rest q = record q { q_head = (q.q_head + 1) % queue_size; q_count = q.q_count - 1 }

-- From the lock in the loop of `msg_collect` to the unlock.
unfoldable pub take_entry : Queue → Taken
take_entry q =
    if q.q_count == 0
    then waits
    else elim (get_elem? q.queue q.q_head) [ none ↦ faulted | some entry ↦ took entry (rest q) ]
