-- ===== src/Net/Datagram.antt =====
-- ch09/udpProgramming/ex01.c and ex02.c, ch09/msg_client.c, and the set-up of ch09/msg_server.c.
use linux_systemprogramming.Common.{
  ℕ, zero, suc, none, some, List, [], ◌∷◌, ◌++◌, if◌then◌else◌, length, ◌%◌,
}
use linux_systemprogramming.Common.Text.{CString, codes, str_eq}
use linux_systemprogramming.MsgServer.Buffer.{cstr}
use linux_systemprogramming.Net.Calls.{
  complained, printed_nums, Os, Net, pure, exit, loops, ◌>>=◌, ◌>>◌, emit, print, close, checked,
  test, socket, bind, gethostbyname, recv, sendto, fgets,
}

module _ (os : Os) where
  -- The loop of the server, for a number of rounds; `buf` is zeroed, so that the text ends.
  unfoldable pub show_datagrams : ℕ → ℕ → Net (Unit {0})
  show_datagrams zero sockfd = loops
  show_datagrams (suc n) sockfd = do
    text ← recv os sockfd 99
    elim text [
      | none ↦ emit (complained (codes "recvfrom")) >> show_datagrams n sockfd
      | some (address, bytes) ↦
          if str_eq (cstr bytes) (codes "quit\n")
          then print (codes "Server quit!!\n")
          else (print (codes "[ " ++ address ++ codes " ] " ++ cstr bytes ++ codes "\n")
              >> show_datagrams n sockfd)
    ]

  unfoldable pub datagram_server_main : ℕ → Net ℕ
  unfolding show_datagrams
  datagram_server_main rounds = do
    sockfd ← checked (codes "socket") 1 (socket os)
    test (codes "bind") 1 (bind os sockfd 60000)
    show_datagrams rounds sockfd
    pure 0

  unfoldable pub datagram_client_main : List CString → Net ℕ
  datagram_client_main (host ∷ []) = do
    address ← checked (codes "gethostbyname") 1 (gethostbyname os host)
    sockfd ← checked (codes "socket") 1 (socket os)
    buf ← fgets os
    numbytes ← checked (codes "sendto") 1 (sendto os sockfd buf address 60000)
    emit (printed_nums (codes "Send %ld bytes to " ++ address ++ codes "\n") (length buf ∷ []))
    close sockfd
    pure 0
  datagram_client_main [] = print (codes "usage : client hostname\n") >> exit 1
  datagram_client_main (a ∷ b ∷ args) = print (codes "usage : client hostname\n") >> exit 1

  -- ch09/msg_client.c; htons keeps 16 bits of the port. The usage names the program first.
  unfoldable pub msg_client_main : List CString → Net ℕ
  msg_client_main (hostname ∷ port ∷ message ∷ []) = do
    address ← checked (codes "gethostbyname") 1 (gethostbyname os hostname)
    sockfd ← checked (codes "socket") 1 (socket os)
    nbytes ← checked (codes "sendto") 1 (sendto os sockfd message address (os.atoi port % 65536))
    emit (
        printed_nums (codes "Sent %d bytes to " ++ address ++ codes ":%d\n")
          (nbytes ∷ os.atoi port ∷ []))
    close sockfd
    pure 0
  msg_client_main [] = print (codes "usage: hostname port message\n") >> exit 1
  msg_client_main (a ∷ []) = print (codes "usage: hostname port message\n") >> exit 1
  msg_client_main (a ∷ b ∷ []) = print (codes "usage: hostname port message\n") >> exit 1
  msg_client_main (a ∷ b ∷ c ∷ d ∷ args) = print (codes "usage: hostname port message\n") >> exit 1
