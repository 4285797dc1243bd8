-- ===== src/Net/Servers.antt =====
-- The main functions of ch09/msg_server.c and of the epoll servers of ch09/chattingProgram.
use linux_systemprogramming.Common.{
  ℕ, zero, suc, true, false, Option, none, some, List, [], ◌∷◌, ◌++◌,
}
use linux_systemprogramming.Common.Text.{CString, codes}
use linux_systemprogramming.MsgServer.Buffer.{cstr}
use linux_systemprogramming.MsgServer.Server.{chomp, Turn, datagram}
use linux_systemprogramming.Net.Calls.{
  received, complained, collector_started, Trace, Os, Net, pure, exit, loops, ◌>>=◌, ◌>>◌, emit,
  print, close, checked, test, socket, bind, listen, recv, epoll_create, epoll_add, poll,
}
use linux_systemprogramming.Epoll.Echo as Echo
use linux_systemprogramming.Epoll.Broadcast as Broadcast

abbrev pub port1 : ℕ
port1 = 60000

abbrev pub port2 : ℕ
port2 = 60001

module _ (os : Os) where
  -- `receive_from`, without the queue: what it prints for a port.
  unfoldable pub take_datagram : ℕ → CString → Net (Unit {0})
  take_datagram sockfd port = do
    data' ← recv os sockfd 1023
    elim data' [
      | none ↦ pure tt
      | some (ip, []) ↦ pure tt
      | some (ip, c ∷ b) ↦ print (
          codes "[port "
          ++ port
          ++ codes "] "
          ++ ip
          ++ codes " : "
          ++ cstr (chomp (c ∷ b))
          ++ codes "\n")
    ]

  -- The loop of `main`, for a number of rounds.
  unfoldable pub poll_loop : ℕ → ℕ → ℕ → Net (Unit {0})
  unfolding take_datagram
  poll_loop zero sock1 sock2 = loops
  poll_loop (suc n) sock1 sock2 = do
    ready ← poll os
    elim ready [
      | none ↦ emit (complained (codes "poll"))
      | some (first, second) ↦ (do
        elim first [ true ↦ take_datagram sock1 (codes "60000") | false ↦ pure tt ]
        elim second [ true ↦ take_datagram sock2 (codes "60001") | false ↦ pure tt ]
        poll_loop n sock1 sock2)
    ]

  -- `sock1 < 0 || sock2 < 0`
  abbrev pub both : Option ℕ → Option ℕ → Option (ℕ × ℕ)
  both (some a) (some b) = some (a, b)
  both _ _ = none

  unfoldable pub msg_server_main : ℕ → Net ℕ
  unfolding poll_loop
  msg_server_main rounds = do
    first ← socket os
    second ← socket os
    socks ← checked (codes "socket") 1 (pure (both first second))
    test (codes "bind port1") 1 (bind os socks.0 port1)
    test (codes "bind port2") 1 (bind os socks.1 port2)
    emit collector_started
    print (codes "msg_server listening on ports 60000 and 60001 ...\n")
    poll_loop rounds socks.0 socks.1
    close socks.0
    close socks.1
    pure 0

  -- ex06.c up to its loop, and the server that the loop starts from.
  unfoldable pub echo_set_up : Net (ℕ × Echo.Server)
  echo_set_up = do
    listensd ← checked (codes "sockfd") 1 (socket os)
    test (codes "bind") 1 (bind os listensd 60000)
    is_listening ← listen os listensd 10
    test (codes "epoll_create") 1 (epoll_create os)
    test (codes "epoll_ctl") 1 (epoll_add os listensd)
    pure (listensd, Echo.start os.stale_text)

  abbrev close_and_exit : ℕ → Net (Unit {0})
  close_and_exit sockfd = close sockfd >> exit 1

  -- ex05.c up to its loop; an error returns 1 from `main`, and a failed bind closes the socket in
  -- silence. After a failed socket, close(-1) does nothing.
  unfoldable pub broadcast_set_up : Net (ℕ × Broadcast.Server)
  broadcast_set_up = do
    test (codes "epoll_create") 1 (epoll_create os)
    sockfd ← checked (codes "socket error :") 1 (socket os)
    is_bound ← bind os sockfd 60000
    elim is_bound [ true ↦ pure tt | false ↦ close_and_exit sockfd ]
    is_listening ← listen os sockfd 5
    is_added ← epoll_add os sockfd
    pure (sockfd, record { interest = []; log = [] })

-- The datagrams of a run, in order: what the loop gives to the queue.
unfoldable pub datagrams : Trace → List Turn
datagrams [] = []
datagrams (received sockfd n (some (ip, b)) ∷ t) = datagrams t ++ datagram ip b ∷ []
datagrams (e ∷ t) = datagrams t
