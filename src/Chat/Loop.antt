-- ===== src/Chat/Loop.antt =====
-- `chatting` of the four chat programs: the loop that passes lines of stdin on to the socket, and
-- what comes from the socket on to stdout.
use linux_systemprogramming.Common.{Bool, true, false, List, [], ◌∷◌, if◌then◌else◌}
use linux_systemprogramming.Common.Text.{CString, codes, strn_eq}
use linux_systemprogramming.MsgServer.Buffer.{Buffer, cstr}

-- What one program does, newest first. A literal's code points stand for its bytes.
pub data Event : Type 0 where
  -- `send` took these bytes
  sent : CString → Event
  -- `printf` with a prefix and the text that was received
  shown : CString → CString → Event
  printed : CString → Event
  complained : CString → Event
  closed : Event

-- The texts in which the four programs differ.
pub record Wording : Type 0 where
  pub bye : CString
  pub prefix : CString
  -- what is printed behind close(2)
  pub farewell : List CString

-- `buffer` as the text in it, what stdin will yield, and whether the loop is still running.
pub record Chatter : Type 0 where
  pub buffer : CString
  pub input : List CString
  pub log : List Event
  pub is_open : Bool

-- Whether stdin and the socket are marked as readable behind select or poll. If the call fails they
-- are what they are.
pub record Ready : Type 0 where
  pub stdin : Bool
  pub socket : Bool

-- What recv(2) gives; no bytes mean that the other side has closed.
pub data Recv : Type 0 where
  recv_failed : Recv
  bytes : Buffer → Recv

abbrev pub farewells : List CString → List Event → List Event
farewells [] log = log
farewells (t ∷ ts) log = farewells ts (printed t ∷ log)

-- `EXIT`
unfoldable pub leave : Wording → Chatter → Chatter
leave w c = record c { log = farewells w.farewell (closed ∷ c.log); is_open = false }

abbrev pub note : Event → Chatter → Chatter
note e c = record c { log = e ∷ c.log }

-- `fgets(buffer, BUFF_SIZE, stdin)`: at the end of the input `buffer` stays as it is.
abbrev pub fgets : Chatter → Chatter
fgets c = elim c.input [ [] ↦ c | line ∷ lines ↦ record c { buffer = line; input = lines } ]

-- Behind fgets: send, and the test for "exit".
unfoldable pub say : Wording → Bool → Chatter → Chatter
unfolding leave
say w is_sent c =
    if is_sent
    then (if strn_eq 4 c.buffer (codes "exit")
        then leave w (note (printed w.bye) (note (sent c.buffer) c))
        else note (sent c.buffer) c)
    else leave w (note (complained (codes "send")) c)

-- Behind recv.
unfoldable pub hear : Wording → Recv → Chatter → Chatter
unfolding leave
hear w recv_failed c = leave w (note (complained (codes "recv")) c)
hear w (bytes []) c = leave w (note (printed (codes "CUT.\n")) c)
hear w (bytes (b ∷ bs)) c =
    note (shown w.prefix (cstr (b ∷ bs))) (record c { buffer = cstr (b ∷ bs) })

-- One round of the `while (1)` loop, as select, send and recv answer.
unfoldable pub chatting : Wording → Ready → Bool → Recv → Chatter → Chatter
unfolding say hear
chatting w ready is_sent received c =
    if ready.stdin
    then say w is_sent (fgets c)
    else if ready.socket
    then hear w received c
    else leave w (note (printed (codes "오류발생.\n")) c)

-- The four programs.
abbrev pub select_server : Wording
select_server = record {
  bye = codes "BYE!\n";
  prefix = codes "[어 나야] < ";
  farewell = codes "연결 종료!\n" ∷ [];
}

abbrev pub select_client : Wording
select_client = record { bye = codes "BYE\n"; prefix = codes "[나야] < "; farewell = [] }

abbrev pub poll_server : Wording
poll_server = record {
  bye = codes "BYE!\n";
  prefix = codes "[usr] < ";
  farewell = codes "연결 종료!\n" ∷ [];
}

abbrev pub poll_client : Wording
poll_client = record { bye = codes "BYE\n"; prefix = codes "[rpi] < "; farewell = [] }

unfoldable pub select_server_round : Ready → Bool → Recv → Chatter → Chatter
unfolding chatting
select_server_round = chatting select_server

unfoldable pub select_client_round : Ready → Bool → Recv → Chatter → Chatter
unfolding chatting
select_client_round = chatting select_client

unfoldable pub poll_server_round : Ready → Bool → Recv → Chatter → Chatter
unfolding chatting
poll_server_round = chatting poll_server

unfoldable pub poll_client_round : Ready → Bool → Recv → Chatter → Chatter
unfolding chatting
poll_client_round = chatting poll_client

-- The loop on the answers of each round, until it is left.
unfoldable pub chat :
    (Ready → Bool → Recv → Chatter → Chatter) → List (Ready × Bool × Recv) → Chatter → Chatter
chat round [] c = c
chat round ((r, s, v) ∷ answers) c = elim c.is_open [
  | true ↦ chat round answers (round r s v c)
  | false ↦ c
]
