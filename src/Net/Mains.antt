-- ===== src/Net/Mains.antt =====
-- All the programs of ch09 that make one exchange, and the chats, close what they open.
use linux_systemprogramming.Common.{◌%◌, refl, some, List, [], ◌∷◌}
use linux_systemprogramming.Common.Text.{CString, codes}
use linux_systemprogramming.Chat.Loop as Loop
use linux_systemprogramming.Net.Calls.{opened, received, sent_to, connected, looked_up, typed, Os}
use linux_systemprogramming.Net.Rules.{after_checked, after_test}
use linux_systemprogramming.Net.Chat.{
  select_server_main, poll_server_main, select_client_main, poll_client_main,
}
use linux_systemprogramming.Net.Hello.{greeting_client_main}
use linux_systemprogramming.Net.Datagram.{datagram_client_main, msg_client_main}
use linux_systemprogramming.Net.Closing.{IsClosing, server_closes, client_closes}

module _ (os : Os) where
  greeting_closes : (args : List CString) → IsClosing (greeting_client_main os args [])
  unfolding greeting_client_main
  greeting_closes [] = (refl, refl)
  greeting_closes (a ∷ b ∷ args) = (refl, refl)
  greeting_closes (host ∷ []) =
      after_checked (codes "gethostbyname") 1 [] _ _ (λ t. os.gethostbyname t host) (looked_up host)
        _ (refl, refl)
        (λ address.
          after_checked (codes "socket") 1 _ _ _ os.socket opened _ (refl, refl)
            (λ sockfd.
              after_test (codes "connect") 1 _ _ _ (λ t. os.connect t sockfd address 60000)
                (connected sockfd address 60000) _ (refl, refl)
                (after_checked (codes "recv") 1 _ _ _ (λ t. os.recv t sockfd 99)
                  (received sockfd 99) _ (refl, refl) (λ text. (refl, λ n. refl)))))

  datagram_closes : (args : List CString) → IsClosing (datagram_client_main os args [])
  unfolding datagram_client_main
  datagram_closes [] = (refl, refl)
  datagram_closes (a ∷ b ∷ args) = (refl, refl)
  datagram_closes (host ∷ []) =
      after_checked (codes "gethostbyname") 1 [] _ _ (λ t. os.gethostbyname t host) (looked_up host)
        _ (refl, refl)
        (λ address.
          after_checked (codes "socket") 1 _ _ _ os.socket opened _ (refl, refl)
            (λ sockfd.
              let opening = opened (some sockfd) ∷ looked_up host (some address) ∷ [] in
              let buf = os.fgets opening in
              after_checked (codes "sendto") 1 (typed buf ∷ opening) _ _
                (λ t. os.sendto t sockfd buf address 60000) (sent_to sockfd buf address 60000) _
                (refl, refl) (λ numbytes. (refl, λ n. refl))))

  msg_closes : (args : List CString) → IsClosing (msg_client_main os args [])
  unfolding msg_client_main
  msg_closes [] = (refl, refl)
  msg_closes (a ∷ []) = (refl, refl)
  msg_closes (a ∷ b ∷ []) = (refl, refl)
  msg_closes (a ∷ b ∷ c ∷ d ∷ args) = (refl, refl)
  msg_closes (hostname ∷ port ∷ message ∷ []) =
      after_checked (codes "gethostbyname") 1 [] _ _ (λ t. os.gethostbyname t hostname)
        (looked_up hostname) _ (refl, refl)
        (λ address.
          after_checked (codes "socket") 1 _ _ _ os.socket opened _ (refl, refl)
            (λ sockfd.
              after_checked (codes "sendto") 1 _ _ _
                (λ t. os.sendto t sockfd message address (os.atoi port % 65536))
                (sent_to sockfd message address (os.atoi port % 65536)) _ (refl, refl)
                (λ nbytes. (refl, λ n. refl))))

-- Each of the four chat programs, the greeting client, the datagram client and the message client,
-- under any kernel, returns, exits or goes on chatting: when it returns, it returns 0 and has closed
-- each descriptor that socket and accept gave it, as often as they gave it; when it exits, it exits
-- with 1 and its last act was to tell the user why.
pub mains_close :
    (os : Os) (args : List CString)
    → IsClosing (select_server_main os [])
      × IsClosing (poll_server_main os [])
      × IsClosing (select_client_main os args [])
      × IsClosing (poll_client_main os args [])
      × IsClosing (greeting_client_main os args [])
      × IsClosing (datagram_client_main os args [])
      × IsClosing (msg_client_main os args [])
unfolding Loop.select_server_round Loop.poll_server_round Loop.select_client_round
    Loop.poll_client_round select_server_main poll_server_main select_client_main poll_client_main
mains_close os args = (
  server_closes os Loop.select_server,
  server_closes os Loop.poll_server,
  client_closes os Loop.select_client args,
  client_closes os Loop.poll_client args,
  greeting_closes os args,
  datagram_closes os args,
  msg_closes os args,
)
