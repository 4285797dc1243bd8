-- ===== src/Net/Early.antt =====
-- ch09/chattingProgram/ex01.c and ex02.c, earlier forms of the chats. `fdset` is overwritten in each
-- round by `fdset1`, which is never written itself.
use linux_systemprogramming.Common.{
  ℕ, zero, suc, ◌≡◌, refl, Bool, true, false, ◌&&◌, none, some, List, [], ◌∷◌, ◌++◌, length, drop,
  if◌then◌else◌, Bool-cases, inl, inr,
}
use linux_systemprogramming.Common.Text.{CString, codes}
use linux_systemprogramming.MsgServer.Buffer.{Buffer, cstr, is_text, cstr-text-append}
use linux_systemprogramming.Chat.Loop.{
  Event, sent, shown, complained, Ready, Recv, recv_failed, bytes,
}
use linux_systemprogramming.Net.Calls as Calls
use linux_systemprogramming.Net.Calls.{
  Trace, Os, Outcome, returned, running, Net, pure, exit, loops, ◌>>=◌, ◌>>◌, emit, print, close,
  checked, test, socket, connect, gethostbyname, recv, accept, pthread_create, chatted, detached,
}
use linux_systemprogramming.Net.Hello.{listen_on}

-- `buf`, with the memory behind it, what stdin will yield, and the events, newest first.
pub record Early : Type 0 where
  pub buf : Buffer
  pub input : List CString
  pub log : List Event
  pub is_open : Bool

-- What FD_ISSET tells behind select: what was in `fdset1` and is readable.
abbrev pub selected : Ready → Ready → Ready
selected fdset1 readable = record {
  stdin = fdset1.stdin && readable.stdin;
  socket = fdset1.socket && readable.socket;
}

-- A write over the front of a buffer.
abbrev pub over : Buffer → CString → Buffer
over buf s = s ++ drop (length s) buf

abbrev pub fgets : Early → Early
fgets c = elim c.input [
  | [] ↦ c
  | line ∷ lines ↦ record c { buf = over c.buf (line ++ 0 ∷ []); input = lines }
]

-- What recv leaves in `buf`: its result is not looked at.
abbrev pub recv_into : Recv → Buffer → Buffer
recv_into recv_failed buf = buf
recv_into (bytes b) buf = over buf b

-- One round of `chatting`.
unfoldable pub early_round : Ready → Ready → Recv → Early → Early
early_round fdset1 readable received c =
    if (selected fdset1 readable).stdin
    then (let d = fgets c in record d { log = sent (cstr d.buf) ∷ d.log })
    else if (selected fdset1 readable).socket
    then (let buf = recv_into received c.buf in
        record c { buf = buf; log = shown [] (cstr buf ++ codes "\n") ∷ c.log })
    else record c { log = complained (codes "select") ∷ c.log; is_open = false }

unfoldable pub early_chat : Ready → List (Ready × Recv) → Early → Early
unfolding early_round
early_chat fdset1 [] c = c
early_chat fdset1 ((r, v) ∷ answers) c = elim c.is_open [
  | true ↦ early_chat fdset1 answers (early_round fdset1 r v c)
  | false ↦ c
]

-- Without the answers of send, which are not looked at.
abbrev pub pairs : List (Ready × Bool × Recv) → List (Ready × Recv)
pairs [] = []
pairs ((r, s, v) ∷ l) = (r, v) ∷ pairs l

-- What is printed for the bytes that were received is these bytes and whatever `buf` held behind
-- them, up to its first NUL; a failed recv, and one at the end of the stream, print `buf` again.
pub early_round-shows :
    (fdset1 : Ready) (s : CString) (c : Early)
    → is_text s ≡ true
    → fdset1.socket ≡ true
    → let quiet : Ready = record { stdin = false; socket = true } in
      ((early_round fdset1 quiet (bytes s) c).log
        ≡ shown [] ((s ++ cstr (drop (length s) c.buf)) ++ codes "\n") ∷ c.log)
      × ((early_round fdset1 quiet recv_failed c).log ≡ shown [] (cstr c.buf ++ codes "\n") ∷ c.log)
      × ((early_round fdset1 quiet (bytes []) c).log ≡ shown [] (cstr c.buf ++ codes "\n") ∷ c.log)
unfolding early_round
early_round-shows fdset1 s c h f = elim (Bool-cases fdset1.stdin) [
  | inl e ↦ rw (e, f, cstr-text-append s (drop (length s) c.buf) h) (refl, refl, refl)
  | inr e ↦ rw (e, f, cstr-text-append s (drop (length s) c.buf) h) (refl, refl, refl)
]

module _ (os : Os) (fdset1 : Ready) where
  -- `chatting(sd)`, with the answers of select and recv. The descriptor stays open.
  unfoldable pub early_chatting : ℕ → Net (Unit {0})
  unfolding early_chat
  early_chatting sd t =
      let c =
        early_chat fdset1 (pairs (os.answers t))
          (record { buf = os.stale_text; input = os.input t; log = []; is_open = true }) in
      elim c.is_open [
        | true ↦ running (chatted sd c.log ∷ t)
        | false ↦ returned tt (chatted sd c.log ∷ t)
      ]

  -- The loop of ex01.c, for a number of rounds; the thread is that of Net/Hello.
  unfoldable pub chat_then_greet : ℕ → ℕ → Net ℕ
  unfolding early_chatting
  chat_then_greet zero sockfd = loops
  chat_then_greet (suc n) sockfd = do
    client ← accept os sockfd
    elim client [
      | none ↦ emit (Calls.complained (codes "accept")) >> chat_then_greet n sockfd
      | some (new_fd, address) ↦ (do
        print (codes "server : got connection from " ++ address ++ codes " \n")
        early_chatting new_fd
        test (codes "pthread_create") 1 (pthread_create os (some new_fd))
        emit (detached (some new_fd))
        chat_then_greet n sockfd)
    ]

  unfoldable pub early_server_main : ℕ → Net ℕ
  unfolding listen_on chat_then_greet
  early_server_main rounds = listen_on os 10 >>= chat_then_greet rounds

  -- `main` of ex02.c on the arguments behind the program's name.
  unfoldable pub early_client_main : List CString → Net ℕ
  unfolding early_chatting
  early_client_main (host ∷ []) = do
    address ← checked (codes "gethostbyname") 1 (gethostbyname os host)
    sockfd ← checked (codes "socket") 1 (socket os)
    print (codes "[ " ++ address ++ codes " ]\n")
    test (codes "connect") 1 (connect os sockfd address 60000)
    text ← checked (codes "recv") 1 (recv os sockfd 99)
    early_chatting sockfd
    close sockfd
    pure 0
  early_client_main [] = print (codes "usage : client hostname \n") >> exit 1
  early_client_main (a ∷ b ∷ args) = print (codes "usage : client hostname \n") >> exit 1
