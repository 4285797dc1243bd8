-- ===== src/Dialogue/Tests.antt =====
-- The dialogue on concrete schedules.
use linux_systemprogramming.Common.{◌≡◌, refl, List, [], ◌∷◌, ◌++◌, replicate, arith}
use linux_systemprogramming.Common.Text.{CString, codes}
use linux_systemprogramming.Dialogue.System.{
  first_faulted, Program, exercise1, exercise2, run, start,
}
use linux_systemprogramming.Dialogue.Lossless.{IsLossless, run-IsLossless}
use linux_systemprogramming.Dialogue.OneWay
use linux_systemprogramming.Dialogue.OneWay.{Side, sends, receives, ended}
use linux_systemprogramming.Dialogue.OneWay.Letters.{until_end}
use linux_systemprogramming.Dialogue.OneWay.Ending.{run_delivers_lines}

abbrev hello : List CString
hello = codes "hello\n" ∷ []

abbrev the_end : List CString
the_end = codes "end\n" ∷ []

abbrev answered : List Program
answered = exercise1 ∷ exercise2 ∷ exercise2 ∷ exercise1 ∷ []

answered_text : (run answered (start hello the_end [] [])).first.shown ≡ the_end
unfolding run start
answered_text = refl

run-IsLossless_example : IsLossless (run answered (start hello the_end [] []))
run-IsLossless_example = run-IsLossless answered hello the_end [] []

-- The queues are removed before the last answer is fetched.
abbrev removed_early : List Program
removed_early = exercise1 ∷ exercise2 ∷ exercise2 ∷ exercise2 ∷ exercise2 ∷ exercise1 ∷ []

removed_early_text : (run removed_early (start hello the_end [] [])).first_pc ≡ first_faulted
unfolding run start
removed_early_text = refl

abbrev typed : List CString
typed = codes "one\n" ∷ codes "end\n" ∷ codes "two\n" ∷ []

abbrev sides : List Side
sides = receives ∷ sends ∷ receives ∷ []

run_delivers_lines_example :
    let d =
      OneWay.run (sides ++ replicate 3 sends ++ replicate 3 receives) (OneWay.start [] typed) in
    (d.sender_at ≡ ended) × (d.receiver_at ≡ ended) × (d.receiver.shown ≡ until_end typed)
run_delivers_lines_example = run_delivers_lines sides [] typed 3 3 refl (omega arith) (omega arith)
