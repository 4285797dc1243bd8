-- ===== src/Net/Chat.antt =====
-- The main functions of the chat programs of ch09/chattingProgram.
use linux_systemprogramming.Common.{ℕ, Bool, true, false, List, [], ◌∷◌, ◌++◌}
use linux_systemprogramming.Common.Text.{CString, codes}
use linux_systemprogramming.Chat.Loop.{
  Chatter, Ready, Recv, chat, select_server_round, select_client_round, poll_server_round,
  poll_client_round,
}
use linux_systemprogramming.Net.Calls.{
  chatted, Os, returned, running, Net, pure, exit, ◌>>=◌, ◌>>◌, print, close, checked, test, socket,
  bind, listen, accept, connect, gethostbyname,
}

abbrev pub Round : Type 0
Round = Ready → Bool → Recv → Chatter → Chatter

module _ (os : Os) where
  -- `chatting(sd)`, with the loop of the program.
  unfoldable pub chatting : Round → ℕ → Net (Unit {0})
  unfolding chat
  chatting round sd t =
      let c =
        chat round (os.answers t)
          (record { buffer = os.stale_text; input = os.input t; log = []; is_open = true }) in
      elim c.is_open [
        | true ↦ running (chatted sd c.log ∷ t)
        | false ↦ returned tt (chatted sd c.log ∷ t)
      ]

  -- `main` of the servers.
  unfoldable pub server_main : Round → Net ℕ
  unfolding chatting
  server_main round = do
    sockfd ← checked (codes "socket") 1 (socket os)
    test (codes "bind") 1 (bind os sockfd 60000)
    test (codes "listen") 1 (listen os sockfd 10)
    client ← checked (codes "accept") 1 (accept os sockfd)
    print (codes "연결 완료 " ++ client.1 ++ codes "\n")
    chatting round client.0
    close sockfd
    pure 0

  -- `main` of the clients, on the arguments behind the program's name.
  unfoldable pub client_main : Round → List CString → Net ℕ
  unfolding chatting
  client_main round (host ∷ []) = do
    address ← checked (codes "gethostbyname") 1 (gethostbyname os host)
    sockfd ← checked (codes "socket") 1 (socket os)
    print (codes "[ " ++ address ++ codes " ]\n")
    test (codes "connect") 1 (connect os sockfd address 60000)
    chatting round sockfd
    pure 0
  client_main round [] = print (codes "usage : client hostname \n") >> exit 1
  client_main round (a ∷ b ∷ args) = print (codes "usage : client hostname \n") >> exit 1

  -- The four programs.
  unfoldable pub select_server_main : Net ℕ
  unfolding server_main
  select_server_main = server_main select_server_round

  unfoldable pub poll_server_main : Net ℕ
  unfolding server_main
  poll_server_main = server_main poll_server_round

  unfoldable pub select_client_main : List CString → Net ℕ
  unfolding client_main
  select_client_main = client_main select_client_round

  unfoldable pub poll_client_main : List CString → Net ℕ
  unfolding client_main
  poll_client_main = client_main poll_client_round
