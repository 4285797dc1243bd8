-- ===== src/Streams/Fifo.antt =====
-- ch07/ex04-1.c types lines into a named pipe, ch07/ex04-2.c shows them.
pub mod Lossless
pub mod Ending
pub mod Endless
use linux_systemprogramming.Common.{
  ℕ, zero, suc, ◌+◌, ◌≡◌, Bool, true, false, not, ◌&&◌, Option, none, some, List, [], ◌∷◌, ◌++◌,
  take, drop, if◌then◌else◌, ltb,
}
use linux_systemprogramming.Common.Text.{CString, codes, strn_eq}

pub data Event : Type 0 where
  -- "namedpipe1> " of the sender, "namedpipe2> " of the receiver
  prompted : Event
  wrote : CString → Event
  complained : CString → Event

pub data Phase : Type 0 where
  in_loop : Phase
  exited : ℕ → Phase

-- ex04-1: the text in `msg`, what fgets will read, and what was told, newest first.
pub record Sender : Type 0 where
  pub phase : Phase
  pub msg : CString
  pub input : List CString
  pub told : List Event

-- ex04-2: what was told, newest first.
pub record Receiver : Type 0 where
  pub phase : Phase
  pub told : List Event

-- Both programs, and the bytes in the pipe.
pub record System : Type 0 where
  pub sender : Sender
  pub pipe : CString
  pub receiver : Receiver

abbrev pub is_quit : CString → Bool
is_quit s = strn_eq 4 s (codes "quit")

-- `fgets(msg, 1023, stdin)`: at the end of the input `msg` stays as it is.
abbrev pub fgets : Sender → Sender
fgets s = elim s.input [
  | [] ↦ record s { told = prompted ∷ s.told }
  | line ∷ lines ↦ record s { msg = line; input = lines; told = prompted ∷ s.told }
]

-- A round of the sender; the Boolean is whether write succeeds. What it writes goes into the pipe.
unfoldable pub send : Bool → Sender → Sender × CString
send is_written s =
    let now = fgets s in
    if is_quit now.msg
    then (record now { phase = exited 0 }, [])
    else if is_written
    then (now, now.msg)
    else (record now { phase = exited 1; told = complained (codes "write") ∷ now.told }, [])

-- How many bytes read takes, besides the first, of those that it could take: 1023 at most.
abbrev pub chunk : ℕ → ℕ
chunk n = suc (if ltb n 1022 then n else 1022)

-- A round of the receiver: read waits while the pipe is empty and open, and gives 0 when it is empty
-- and closed. `none` is a failing read.
unfoldable pub receive : Option ℕ → Phase → CString → Receiver → Receiver × CString
receive none writer pipe r =
    (record r { phase = exited 1; told = complained (codes "read") ∷ r.told }, pipe)
receive (some n) writer (c ∷ pipe) r = (
  record r { told = wrote (take (chunk n) (c ∷ pipe)) ∷ prompted ∷ r.told },
  drop (chunk n) (c ∷ pipe),
)
receive (some n) in_loop [] r = (r, [])
receive (some n) (exited status) [] r =
    (record r { phase = exited 0; told = wrote (codes "\n") ∷ r.told }, [])

pub data Move : Type 0 where
  sends : Bool → Move
  receives : Option ℕ → Move

unfoldable pub step : Move → System → System
unfolding send receive
step (sends is_written) d = elim d.sender.phase [
  | exited status ↦ d
  | in_loop ↦
      let (s, text) = send is_written d.sender in record d { sender = s; pipe = d.pipe ++ text }
]
step (receives n) d = elim d.receiver.phase [
  | exited status ↦ d
  | in_loop ↦
      let (r, rest) = receive n d.sender.phase d.pipe d.receiver in
      record d { pipe = rest; receiver = r }
]

unfoldable pub run : List Move → System → System
unfolding step
run [] d = d
run (m ∷ ms) d = run ms (step m d)

-- Behind the set-up of both programs; `stale` is what `msg` holds.
abbrev pub start : CString → List CString → System
start stale input = record {
  sender = record { phase = in_loop; msg = stale; input = input; told = [] };
  pipe = [];
  receiver = record { phase = in_loop; told = [] };
}

-- How mkfifo ends.
pub data Made : Type 0 where
  made : Made
  exists : Made
  not_made : Made

-- The set-up of either program: `none` stands for its loop, and what it exits with otherwise.
unfoldable pub set_up : Made → Bool → Option (ℕ × Event)
set_up not_made is_open = some (1, complained (codes "mkfifo"))
set_up made is_open = if is_open then none else some (1, complained (codes "open"))
set_up exists is_open = if is_open then none else some (1, complained (codes "open"))
