-- ===== src/Net/Tests.antt =====
-- The main functions under a kernel in which all calls succeed.
use linux_systemprogramming.Common.{◌≡◌, refl, true, false, some, [], ◌∷◌}
use linux_systemprogramming.Common.Text.{codes}
use linux_systemprogramming.Chat.Loop as Loop
use linux_systemprogramming.Net.Calls.{
  Os, returned, exited, opened, bound, listened, accepted, closed, printed, complained, chatted,
}
use linux_systemprogramming.Net.Chat.{
  select_server_main, poll_server_main, select_client_main, poll_client_main,
}
use linux_systemprogramming.Net.Hello.{greeting_client_main}
use linux_systemprogramming.Net.Datagram.{datagram_client_main, msg_client_main}
use linux_systemprogramming.Net.Closing.{IsClosing}
use linux_systemprogramming.Net.Mains.{mains_close}

-- The other side closes at once.
abbrev working : Os
working = record {
  socket = λ t. some 3;
  bind = λ t fd port. true;
  listen = λ t fd n. true;
  accept = λ t fd. some (4, codes "10.0.0.1");
  connect = λ t fd address port. true;
  gethostbyname = λ t name. some (codes "10.0.0.2");
  recv = λ t fd n. some (codes "10.0.0.2", codes "Hello");
  send = λ t fd s. true;
  sendto = λ t fd s address port. some 5;
  fgets = λ t. codes "hi\n";
  pthread_create = λ t fd. true;
  atoi = λ s. 60001;
  epoll_create = λ t. true;
  epoll_add = λ t fd. true;
  poll = λ t. some (true, false);
  answers = λ t. (record { stdin = false; socket = true }, true, Loop.bytes []) ∷ [];
  input = λ t. [];
  stale_text = codes "?";
}

working_text :
    select_server_main working []
    ≡ returned 0 (
        closed 3
        ∷ chatted 4
            (Loop.printed (codes "연결 종료!\n") ∷ Loop.closed ∷ Loop.printed (codes "CUT.\n") ∷ [])
        ∷ printed (codes "연결 완료 10.0.0.1\n")
        ∷ accepted 3 (some (4, codes "10.0.0.1"))
        ∷ listened 3 10 true
        ∷ bound 3 60000 true
        ∷ opened (some 3)
        ∷ [])
unfolding select_server_main Loop.select_server_round
working_text = refl

-- The port is taken.
abbrev busy : Os
busy = record working { bind = λ t fd port. false }

busy_text :
    select_server_main busy []
    ≡ exited 1 (complained (codes "bind") ∷ bound 3 60000 false ∷ opened (some 3) ∷ [])
unfolding select_server_main
busy_text = refl

mains_close_example :
    IsClosing (select_server_main working [])
    × IsClosing (poll_server_main working [])
    × IsClosing (select_client_main working (codes "pi" ∷ []) [])
    × IsClosing (poll_client_main working (codes "pi" ∷ []) [])
    × IsClosing (greeting_client_main working (codes "pi" ∷ []) [])
    × IsClosing (datagram_client_main working (codes "pi" ∷ []) [])
    × IsClosing (msg_client_main working (codes "pi" ∷ []) [])
mains_close_example = mains_close working (codes "pi" ∷ [])
