-- ===== src/Net/Hello.antt =====
-- ch09/tcpProgramming/ex01.c, ex02.c and ch09/ex03.c: one greeting, or one connection.
use linux_systemprogramming.Common.{
  ℕ, zero, suc, true, false, none, some, List, [], ◌∷◌, ◌++◌, take,
}
use linux_systemprogramming.Common.Text.{CString, codes}
use linux_systemprogramming.MsgServer.Buffer.{cstr}
use linux_systemprogramming.Net.Calls.{
  complained, freed_local, detached, Os, Net, pure, exit, loops, ◌>>=◌, ◌>>◌, emit, print, close,
  checked, test, socket, bind, listen, accept, connect, gethostbyname, recv, send, pthread_create,
}

module _ (os : Os) where
  -- socket, bind and listen as the servers on port 60000 do it.
  unfoldable pub listen_on : ℕ → Net ℕ
  listen_on backlog = do
    sockfd ← checked (codes "socket") 1 (socket os)
    test (codes "bind") 1 (bind os sockfd 60000)
    test (codes "listen") 1 (listen os sockfd backlog)
    pure sockfd

  -- The thread for a client. `arg` points to a local variable of `main`, and is given to free.
  unfoldable pub handle_client : ℕ → Net (Unit {0})
  handle_client new_fd = do
    emit freed_local
    is_sent ← send os new_fd (take 14 (codes "Hello, client!\n"))
    elim is_sent [ true ↦ pure tt | false ↦ emit (complained (codes "send")) ]
    close new_fd

  -- The loop of the server, for a number of rounds. The threads run on their own.
  unfoldable pub greet : ℕ → ℕ → Net ℕ
  greet zero sockfd = loops
  greet (suc n) sockfd = do
    client ← accept os sockfd
    elim client [
      | none ↦ emit (complained (codes "accept")) >> greet n sockfd
      | some (new_fd, address) ↦ (do
        print (codes "server : got connection from " ++ address ++ codes " \n")
        test (codes "pthread_create") 1 (pthread_create os (some new_fd))
        emit (detached (some new_fd))
        greet n sockfd)
    ]

  unfoldable pub greeting_server_main : ℕ → Net ℕ
  unfolding listen_on greet
  greeting_server_main rounds = listen_on 10 >>= greet rounds

  -- The client, on the arguments behind the program's name.
  unfoldable pub greeting_client_main : List CString → Net ℕ
  greeting_client_main (host ∷ []) = do
    address ← checked (codes "gethostbyname") 1 (gethostbyname os host)
    sockfd ← checked (codes "socket") 1 (socket os)
    print (codes "[ " ++ address ++ codes " ]\n")
    test (codes "connect") 1 (connect os sockfd address 60000)
    text ← checked (codes "recv") 1 (recv os sockfd 99)
    print (codes "Received : " ++ cstr text.1 ++ codes "\n")
    close sockfd
    pure 0
  greeting_client_main [] = print (codes "usage : client hostname \n") >> exit 1
  greeting_client_main (a ∷ b ∷ args) = print (codes "usage : client hostname \n") >> exit 1

  -- ch09/ex03.c exits with 0 after an error and returns 1 otherwise.
  unfoldable pub one_connection_main : Net ℕ
  one_connection_main = do
    server_sockfd ← checked (codes "socket error : ") 0 (socket os)
    test (codes "bind error : ") 0 (bind os server_sockfd 50000)
    test (codes "listen error : ") 0 (listen os server_sockfd 5)
    client ← checked (codes "Accept error : ") 0 (accept os server_sockfd)
    close client.0
    pure 1
