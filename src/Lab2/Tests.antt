-- ===== src/Lab2/Tests.antt =====
-- The second shell on concrete lines.
use linux_systemprogramming.Common.{◌≡◌, refl, true, none, some, [], ◌∷◌}
use linux_systemprogramming.Common.Text.{codes}
use linux_systemprogramming.Lab.Parsing.{command_parse as first_parse}
use linux_systemprogramming.Lab2.Parsing.{command_parse, command_parse-agrees}
use linux_systemprogramming.Lab2.Plan.{cells}
use linux_systemprogramming.Lab2.Execute.{
  Kernel, forked, waited, sigint_restored, pipe_made, closed, dup2ed, execed, is_executable,
  is_executable-pipe,
}
use linux_systemprogramming.Lab2.Main.{Answers}

abbrev kernel : Kernel
kernel = record {
  fork = some 7;
  pipe = some (3, 4);
  open_file = λ name. some 5;
  is_execvp_done = λ argv. true;
  is_waitpid_done = λ pid. true;
}

abbrev answers : Answers
answers = record {
  shell = kernel;
  child = kernel;
  grandchild = kernel;
  surroundings = record {
    nodename = none;
    cwd = some (codes "/");
    home = none;
    is_dir = λ d. true;
  };
  stale = none;
}

command_parse-agrees_example :
    command_parse (some (codes "x")) (some (codes "ls -l\n")) ≡ first_parse (some (codes "ls -l\n"))
command_parse-agrees_example = command_parse-agrees (some (codes "x")) (some (codes "ls -l\n"))

is_executable-pipe_example :
    is_executable kernel kernel kernel (cells (codes "ls" ∷ codes "|" ∷ codes "wc" ∷ []) [])
    ≡ some (
      forked (some 7) ∷ waited 7 ∷ [],
      (
        sigint_restored
            ∷ pipe_made 3 4
            ∷ forked (some 7)
            ∷ closed (some 4)
            ∷ dup2ed (some 3) 0
            ∷ execed (codes "wc" ∷ [])
            ∷ [],
        closed (some 3) ∷ dup2ed (some 4) 1 ∷ execed (codes "ls" ∷ []) ∷ [],
      ),
      cells (codes "ls" ∷ codes "|" ∷ codes "wc" ∷ []) [],
    )
is_executable-pipe_example =
    is_executable-pipe kernel kernel kernel 7 7 3 4 (codes "ls" ∷ []) [] (codes "wc") [] refl refl
      refl refl refl refl refl
