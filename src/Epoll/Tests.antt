-- ===== src/Epoll/Tests.antt =====
-- The epoll programs on concrete reports.
use linux_systemprogramming.Common.{
  ◌≡◌, refl, true, false, none, some, List, [], ◌∷◌, ◌++◌, map, arith,
}
use linux_systemprogramming.Common.Text.{CString, codes}
use linux_systemprogramming.Epoll.Echo.{
  chunk, ended, again, echoed, Report, listening, readable, read_loop, serve, start,
}
use linux_systemprogramming.Epoll.Echo.ReadLoop.{whole, read_loop-echoes}
use linux_systemprogramming.Epoll.Echo.Balance.{IsBalanced, serve-IsBalanced}
use linux_systemprogramming.Epoll.Broadcast as Cast

abbrev typed : List CString
typed = codes "one\n" ∷ codes "two\n" ∷ []

read_loop-echoes_example :
    ((read_loop 7 (codes "0123456789") (map whole typed)).calls ≡ map (echoed 7) typed)
    × ((read_loop 7 (codes "0123456789") (map whole typed)).is_done ≡ false)
    × ((read_loop 7 (codes "0123456789") (map whole typed ++ ended ∷ [])).calls
        ≡ map (echoed 7) typed)
    × ((read_loop 7 (codes "0123456789") (map whole typed ++ ended ∷ [])).is_done ≡ true)
    × ((read_loop 7
          (codes "0123456789")
          (map whole typed ++ chunk (codes "..." ++ codes "\n") none ∷ [])).calls
        ≡ map (echoed 7) typed)
    × ((read_loop 7
          (codes "0123456789")
          (map whole typed ++ chunk (codes "..." ++ codes "\n") none ∷ [])).is_done
        ≡ true)
read_loop-echoes_example = read_loop-echoes 7 typed (codes "0123456789") (codes "\n") none [] refl

-- A line of eleven bytes is read in two pieces, and the second one goes over the front of the first.
long_line :
    (read_loop 7
      (codes "xxxxxxxxxx")
      (chunk (codes "0..3456789.") (some 10) ∷ chunk (codes ".") (some 1) ∷ [])).is_done
    ≡ true
unfolding read_loop
long_line = refl

-- Two clients, of which one leaves.
abbrev visits : List Report
visits =
    listening (some 5) true true
    ∷ listening (some 6) true true
    ∷ readable 5 (chunk (codes "hello\n") (some 6) ∷ again ∷ [])
    ∷ readable 5 (ended ∷ [])
    ∷ listening none true true
    ∷ []

visits_open : (serve visits (start [])).open_fds ≡ 6 ∷ []
unfolding serve
visits_open = refl

serve-IsBalanced_example : IsBalanced (serve visits (start []))
serve-IsBalanced_example = serve-IsBalanced [] visits

abbrev together : List Cast.Report
together = Cast.readable 5 (codes "hi") ∷ Cast.readable 6 (codes "ho") ∷ Cast.readable 7 [] ∷ []

abbrev open_clients : Cast.Server
open_clients = record { interest = 5 ∷ 6 ∷ 7 ∷ 8 ∷ []; log = [] }

-- The client 8 is watched and gets nothing.
together_missed : Cast.received 8 (Cast.round 3 together open_clients).log ≡ []
unfolding Cast.round
together_missed = refl

-- The client 7 ends first, and what 5 sends is not written to it.
together_refused :
    Cast.received 7
      (Cast.round 3 (Cast.readable 7 [] ∷ Cast.readable 5 (codes "hi") ∷ []) open_clients).log
    ≡ []
unfolding Cast.round
together_refused = refl

round-received_example :
    Cast.received 6 (Cast.round 3 together open_clients).log
    ≡ Cast.received 6 open_clients.log ++ Cast.owed 3 6 together together
round-received_example = Cast.round-received 3 6 together open_clients (omega arith) refl refl
