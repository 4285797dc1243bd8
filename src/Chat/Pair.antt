-- ===== src/Chat/Pair.antt =====
-- Two of the chat programs over one connection. The network keeps the bytes that were sent and not
-- yet received, in order; when and in which pieces they arrive is up to the schedule. A send to a side
-- that has left may fail, but SIGPIPE does not end the program.
use linux_systemprogramming.Common.{
  ℕ, suc, Bool, true, false, not, ◌&&◌, ◌||◌, List, [], ◌∷◌, ◌++◌, take, drop, if◌then◌else◌, ltb,
}
use linux_systemprogramming.Common.Text.{CString}
use linux_systemprogramming.MsgServer.Buffer.{Buffer}
use linux_systemprogramming.Chat.Loop.{
  Wording, Chatter, Ready, Recv, recv_failed, bytes, fgets, chatting, Event, sent, shown,
}

-- A program and the bytes on their way to it.
pub record End : Type 0 where
  pub chatter : Chatter
  pub inbox : Buffer

-- One round of one program: whether stdin is readable, how send and recv end, and how many bytes
-- recv takes besides the first.
pub record Turn : Type 0 where
  pub stdin : Bool
  pub is_sent : Bool
  pub is_received : Bool
  pub amount : ℕ

-- `BUFF_SIZE - 1` bytes at most
abbrev pub chunk : ℕ → ℕ
chunk n = suc (if ltb n 1022 then n else 1022)

abbrev pub is_empty : Buffer → Bool
is_empty [] = true
is_empty (b ∷ bs) = false

-- The socket is readable if there are bytes or the other side has closed.
abbrev pub ready : Turn → End → End → Ready
ready t me you = record {
  stdin = t.stdin;
  socket = not (is_empty me.inbox) || not you.chatter.is_open;
}

abbrev pub recv : Turn → End → Recv
recv t me = if t.is_received then bytes (take (chunk t.amount) me.inbox) else recv_failed

-- The bytes that a round takes from the network, and those that it gives to it.
abbrev pub remains : Turn → End → Buffer
remains t me =
    if t.stdin then me.inbox else if t.is_received then drop (chunk t.amount) me.inbox else me.inbox

abbrev pub outgoing : Turn → End → CString
outgoing t me = if t.stdin && t.is_sent then (fgets me.chatter).buffer else []

-- Whether select returns in this round: the program is in its loop and something is readable.
abbrev pub is_awake : Turn → End → End → Bool
is_awake t me you = me.chatter.is_open && (t.stdin || (ready t me you).socket)

unfoldable pub move : Wording → Turn → End → End → End × End
unfolding chatting
move w t me you =
    if is_awake t me you
    then (
      record {
        chatter = chatting w (ready t me you) t.is_sent (recv t me) me.chatter;
        inbox = remains t me;
      },
      record you { inbox = you.inbox ++ outgoing t me },
    )
    else (me, you)

pub data Side : Type 0 where
  server client : Side

pub record Talk : Type 0 where
  pub at_server : End
  pub at_client : End

module _ (ws wc : Wording) where
  unfoldable pub step : Side → Turn → Talk → Talk
  unfolding move
  step server t d =
      let (me, you) = move ws t d.at_server d.at_client in
      record { at_server = me; at_client = you }
  step client t d =
      let (me, you) = move wc t d.at_client d.at_server in
      record { at_server = you; at_client = me }

  unfoldable pub run : List (Side × Turn) → Talk → Talk
  unfolding step
  run [] d = d
  run ((s, t) ∷ ts) d = run ts (step s t d)

abbrev pub fresh : CString → List CString → End
fresh stale input = record {
  chatter = record { buffer = stale; input = input; log = []; is_open = true };
  inbox = [];
}

-- Both programs behind the set-up of the connection, with what stdin yields and `buffer` holds.
abbrev pub start : CString → List CString → CString → List CString → Talk
start stale input stale' input' = record {
  at_server = fresh stale input;
  at_client = fresh stale' input';
}

-- What a program has given to send, and what it has printed of the texts received.
abbrev pub said : List Event → CString
said [] = []
said (sent s ∷ l) = said l ++ s
said (e ∷ l) = said l

abbrev pub heard : List Event → CString
heard [] = []
heard (shown p s ∷ l) = heard l ++ s
heard (e ∷ l) = heard l
