-- ===== src/PosixShm/Tests.antt =====
-- Two processes that share the memory.
use linux_systemprogramming.Common.{
  ℕ, ◌≡◌, refl, true, false, none, some, map, List, [], ◌∷◌, ◌++◌, arith,
}
use linux_systemprogramming.Common.Text.{CString, codes}
use linux_systemprogramming.PosixShm.Program.{
  exists_already, attach, attached, new_memory, World, command, run, is_unlinked,
}
use linux_systemprogramming.PosixShm.Refine.{Board, board_run, Represents, run-refines}

abbrev beginning : World
beginning = record { memory = new_memory; is_open = λ i. true; shown = [] }

abbrev empty_board : Board
empty_board = record { text = []; is_open = λ i. true; shown = [] }

beginning-Represents : Represents beginning empty_board
beginning-Represents = record {
  zeros = 1023;
  filled = refl;
  size = refl;
  short = omega arith;
  text_only = refl;
  same_open = refl;
  same_shown = refl;
}

abbrev typed : List (ℕ × CString)
typed =
    (1, codes "hello")
    ∷ (2, codes "*")
    ∷ (2, codes "by")
    ∷ (2, codes ".")
    ∷ (2, codes "late")
    ∷ (1, codes "*")
    ∷ []

-- The end of "hello" stays behind "by".
typed_board : (board_run typed empty_board).shown ≡ codes "byllo" ∷ codes "hello" ∷ []
unfolding board_run
typed_board = refl

run-refines_example :
    (v : World) × (run (map (λ t. (t.0, t.1 ++ 10 ∷ [])) typed) beginning ≡ some v)
    × Represents v (board_run typed empty_board)
run-refines_example = run-refines typed beginning empty_board refl beginning-Represents

-- A line that begins with a NUL makes the program write in front of `input`.
nul_writes_before : command 1 (0 ∷ 10 ∷ []) beginning ≡ none
unfolding command
nul_writes_before = refl

second_attaches :
    attach (record {
      create = exists_already;
      is_stale_exist = false;
      truncates = true;
      reopen = some 3;
      maps = true;
    })
    ≡ attached 3 false
unfolding attach
second_attaches = refl

answered_yes : is_unlinked (codes "y\n") ≡ true
unfolding is_unlinked
answered_yes = refl
