-- ===== src/Streams/Tests.antt =====
-- Two lines and "quit" through the named pipe; a child's text through a pipe.
use linux_systemprogramming.Common.{
  ℕ, ◌≡◌, ◌≢◌, refl, true, none, some, List, [], ◌∷◌, ◌++◌, replicate, if◌then◌else◌, ltb, arith,
}
use linux_systemprogramming.Common.Text.{CString, codes}
use linux_systemprogramming.Streams.Fifo.{Move, sends, receives, run, start, exited, in_loop}
use linux_systemprogramming.Streams.Fifo.Lossless.{until_quit, heard}
use linux_systemprogramming.Streams.Fifo.Ending.{reads, run_delivers}
use linux_systemprogramming.Streams.Fifo.Endless.{run_endless}
use linux_systemprogramming.Children.{in_child}
use linux_systemprogramming.Daemon.Start.{Table}
use linux_systemprogramming.Streams.FromChild.{
  Answers, write_end, ls_main, became, faulted, max_size,
}
use linux_systemprogramming.Streams.FromChild.Shows.{ls_main-stdout, parents}

abbrev input : List CString
input = codes "ab\n" ∷ codes "c\n" ∷ codes "quit\n" ∷ codes "d\n" ∷ []

abbrev moves : List Move
moves = sends true ∷ receives (some 0) ∷ receives (some 7) ∷ receives (some 0) ∷ []

-- Reads of one byte and of the rest, and one that waits.
run_delivers_example :
    let d = run (moves ++ replicate 4 (sends true) ++ reads (replicate 6 1)) (start [] input) in
    (d.sender.phase ≡ exited 0)
    × (d.receiver.phase ≡ exited 0)
    × (heard d.receiver.told ≡ until_quit input ++ codes "\n")
run_delivers_example =
    run_delivers moves [] input 4 (replicate 6 1) refl refl (omega arith) (omega arith)

-- The line is sent three times.
run_endless_example :
    (run (replicate 3 (sends true)) (start [] (codes "ab\n" ∷ []))).sender.phase ≡ in_loop
run_endless_example = run_endless (replicate 3 (sends true)) [] (codes "ab\n" ∷ []) refl refl refl

abbrev terminal : Table
terminal fd = if ltb fd 3 then some (codes "terminal") else none

abbrev in_ls : Answers
in_ls = record {
  ends = some (3, 4);
  fork = in_child;
  executes = true;
  bytes = none;
  is_waited = true;
}

ls_main-stdout_example :
    (t : Table) × (ls_main 1024 in_ls terminal ≡ became (codes "ls") t)
    × (t 1 ≡ some write_end)
    × (t 3 ≡ none)
    × (t 4 ≡ none)
    × ((i : ℕ) → i ≢ 1 → i ≢ 3 → i ≢ 4 → t i ≡ terminal i)
ls_main-stdout_example =
    ls_main-stdout 1022 3 4 terminal (codes "terminal") in_ls refl refl refl (λ e. omega arith)
      (λ e. omega arith) (λ e. omega arith) (λ e. omega arith) (λ e. omega arith) refl

-- A listing of 4096 bytes.
ls_fills_buffer : ls_main 1024 (parents 3 4 9 (replicate max_size 97)) terminal ≡ faulted
unfolding ls_main
ls_fills_buffer = refl
