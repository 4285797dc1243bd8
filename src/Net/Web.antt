-- ===== src/Net/Web.antt =====
-- The main functions of ch09/webLED/webserver.c and ch09/chattingProgram/webserver.c, and the server
-- thread of ch09/chattingProgram/rpi6.c. What a connection's thread does is modelled elsewhere.
use linux_systemprogramming.Common.{
  ℕ, zero, suc, ◌%◌, Bool, true, false, Option, none, some, List, [], ◌∷◌, ◌++◌,
}
use linux_systemprogramming.Common.Text.{CString, codes}
use linux_systemprogramming.Net.Calls.{
  joined, detached, Trace, Os, returned, running, Net, pure, loops, ◌>>=◌, ◌>>◌, emit, print, close,
  checked, test, socket, bind, listen, accept, pthread_create,
}

-- `return -1` from `main`, as an exit status.
abbrev pub minus_one : ℕ
minus_one = 255

module _ (os : Os) where
  abbrev pub csock_of : Option (ℕ × CString) → Option ℕ
  csock_of none = none
  csock_of (some (fd, address)) = some fd

  -- The client's address and port as text, and what `mesg` holds if accept has failed.
  abbrev pub mesg_of : Option (ℕ × CString) → CString
  mesg_of none = os.stale_text
  mesg_of (some (fd, address)) = address

  -- The loop of the two web servers, for a number of rounds: the result of accept is not tested, and
  -- the connections are served one after the other.
  unfoldable pub serve_in_turn : ℕ → ℕ → Net ℕ
  serve_in_turn zero ssock = loops
  serve_in_turn (suc n) ssock = do
    client ← accept os ssock
    print (codes "Client IP : " ++ mesg_of client ++ codes "\n")
    started ← pthread_create os (csock_of client)
    emit (joined (csock_of client))
    serve_in_turn n ssock

  -- `main` on the arguments behind the program's name.
  unfoldable pub web_main : ℕ → List CString → Net ℕ
  unfolding serve_in_turn
  web_main rounds (port ∷ []) = do
    ssock ← checked (codes "socket()") minus_one (socket os)
    test (codes "bind()") minus_one (bind os ssock (os.atoi port % 65536))
    test (codes "listen()") minus_one (listen os ssock 10)
    serve_in_turn rounds ssock
  web_main rounds [] = print (codes "usage: <port>\n") >> pure minus_one
  web_main rounds (a ∷ b ∷ args) = print (codes "usage: <port>\n") >> pure minus_one

  unfoldable pub led_web_main : ℕ → List CString → Net ℕ
  unfolding web_main
  led_web_main = web_main

  unfoldable pub plain_web_main : ℕ → List CString → Net ℕ
  unfolding web_main
  plain_web_main = web_main

  -- `while (is_run)` of rpi6.c: a thread for each client; a failed accept ends it. `is_run` is looked at
  -- on the events so far, since another thread clears it.
  unfoldable pub serve_while : (Trace → Bool) → ℕ → ℕ → Net (Unit {0})
  serve_while is_run zero ssock t = running t
  serve_while is_run (suc n) ssock t = elim (is_run t) [
    | false ↦ returned tt t
    | true ↦
        (do
          client ← accept os ssock
          elim client [
            | none ↦ pure tt
            | some (csock, address) ↦ (do
              started ← pthread_create os (some csock)
              emit (detached (some csock))
              serve_while is_run n ssock)
          ])
          t
  ]

  -- `webserverFunction`; the result of setsockopt is not used.
  unfoldable pub webserver_function : (Trace → Bool) → ℕ → Net (Unit {0})
  unfolding serve_while
  webserver_function is_run rounds = do
    ssock ← checked (codes "socket()") 1 (socket os)
    test (codes "bind()") 1 (bind os ssock 8000)
    test (codes "listen()") 1 (listen os ssock 10)
    serve_while is_run rounds ssock
    close ssock
