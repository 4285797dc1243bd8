-- ===== src/MsgServer/Tests.antt =====
-- Runs of the message server, and its theorems at such runs.
use linux_systemprogramming.Common.{◌≡◌, refl, false, some, List, [], ◌∷◌, ◌++◌, take, arith}
use linux_systemprogramming.Common.Text.{CString, codes}
use linux_systemprogramming.MsgServer.Collector.{run_with, run_with-unlogged}
use linux_systemprogramming.MsgServer.Buffer.{cstr, strncpy}
use linux_systemprogramming.MsgServer.Queue.{Queue, enqueue, initial, queue_size}
use linux_systemprogramming.MsgServer.Refine.{Message, Holds, initial-Holds, enqueue_refines}
use linux_systemprogramming.MsgServer.Server.{
  Turn, datagram, collect, Server, start, run, spec_run, received, run_refines, run_lossless,
}

abbrev host : CString
host = codes "127.0.0.1"

abbrev turns : List Turn
turns =
    datagram host (codes "one\n")
    ∷ collect
    ∷ collect
    ∷ datagram host []
    ∷ datagram host (codes "two")
    ∷ []

-- What the log and the queue hold after these turns.
turns_spec : spec_run turns ([], []) ≡ ((host, codes "two") ∷ [], (host, codes "one") ∷ [])
turns_spec = refl

overwritten : cstr (strncpy (codes "longer" ++ (0 ∷ [])) (codes "ab") 6) ≡ codes "ab"
unfolding strncpy
overwritten = refl

-- A queue with one message in it.
one_message :
    (q : Queue) × (enqueue host (codes "hi") initial ≡ some q) × Holds q ((host, codes "hi") ∷ [])
one_message = enqueue_refines host (codes "hi") initial [] initial-Holds refl refl

run_refines_example :
    (s : Server) × (run turns start ≡ some s)
    × Holds s.messages ((host, codes "two") ∷ [])
    × (s.log ≡ (host, codes "one") ∷ [])
run_refines_example = run_refines turns (refl, (tt, (tt, (refl, (refl, tt)))))

run_lossless_example :
    (s : Server) × (ms : List Message) × (run turns start ≡ some s)
    × Holds s.messages ms
    × (s.log ++ ms ≡ (host, codes "one") ∷ (host, codes "two") ∷ [])
run_lossless_example = run_lossless turns (refl, (tt, (tt, (refl, (refl, tt))))) (omega arith)

run_with-unlogged_example :
    (s : Server) × (run_with false turns ≡ some s)
    × (s.log ≡ [])
    × Holds s.messages (take queue_size (received turns))
run_with-unlogged_example = run_with-unlogged turns (refl, (tt, (tt, (refl, (refl, tt)))))
