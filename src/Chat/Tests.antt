-- ===== src/Chat/Tests.antt =====
-- A chat of the select programs on concrete schedules.
use linux_systemprogramming.Common.{ℕ, ◌≡◌, refl, true, false, List, [], ◌∷◌, ◌++◌, arith}
use linux_systemprogramming.Common.Text.{CString, codes}
use linux_systemprogramming.Chat.Loop.{sent, shown, printed, closed, select_server, select_client}
use linux_systemprogramming.Chat.Pair.{Turn, Side, server, client, Talk, run, start, said, heard}
use linux_systemprogramming.Chat.Lossless.{IsLossless, run_carries, run-preserves}
use linux_systemprogramming.Chat.Ending.{IsOver, run_drains}

abbrev typing : Turn
typing = record { stdin = true; is_sent = true; is_received = true; amount = 0 }

abbrev reading : ℕ → Turn
reading n = record { stdin = false; is_sent = true; is_received = true; amount = n }

abbrev lines : List CString
lines = codes "hi\n" ∷ codes "exit\n" ∷ []

abbrev beginning : Talk
beginning = start (codes "?") lines [] []

-- The client gets "hi" in two pieces; then the server leaves, and its "exit" is on its way.
abbrev schedule : List (Side × Turn)
schedule = (server, typing) ∷ (client, reading 1) ∷ (client, reading 5) ∷ (server, typing) ∷ []

abbrev parted : Talk
parted = run select_server select_client schedule beginning

parted_text :
    parted.at_client.chatter.log
    ≡ shown (codes "[나야] < ") (codes "\n") ∷ shown (codes "[나야] < ") (codes "hi") ∷ []
unfolding run
parted_text = refl

parted_left :
    parted.at_server.chatter.log
    ≡ printed (codes "연결 종료!\n")
      ∷ closed
      ∷ printed (codes "BYE!\n")
      ∷ sent (codes "exit\n")
      ∷ sent (codes "hi\n")
      ∷ []
unfolding run
parted_left = refl

run_carries_example :
    let d = run select_server select_client schedule beginning in
    (heard d.at_client.chatter.log ++ d.at_client.inbox ≡ said d.at_server.chatter.log)
    × (heard d.at_server.chatter.log ++ d.at_server.inbox ≡ said d.at_client.chatter.log)
run_carries_example =
    run_carries select_server select_client schedule (codes "?") [] lines [] refl refl refl refl

parted-IsLossless : IsLossless parted
parted-IsLossless = run-preserves select_server select_client schedule beginning (
  record { buffer = refl; input = refl },
  record { buffer = refl; input = refl },
  record { texts = refl; arrives = refl },
  record { texts = refl; arrives = refl },
)

abbrev quiet_turns : List Turn
quiet_turns = reading 0 ∷ reading 0 ∷ reading 9 ∷ reading 0 ∷ reading 0 ∷ reading 0 ∷ []

run_drains_example : IsOver select_server select_client (
    run select_server select_client
      ((client, reading 0)
        ∷ (client, reading 0)
        ∷ (client, reading 9)
        ∷ (client, reading 0)
        ∷ (client, reading 0)
        ∷ (client, reading 0)
        ∷ [])
      parted)
unfolding run
run_drains_example =
    run_drains select_server select_client quiet_turns parted parted-IsLossless refl refl refl
      (omega arith)
