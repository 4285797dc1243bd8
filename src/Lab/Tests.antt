-- ===== src/Lab/Tests.antt =====
-- Runs of the minishell of lab/ on small inputs, and its theorems at such inputs.
use linux_systemprogramming.Common.{◌+◌, ◌≡◌, refl, true, none, some, [], ◌∷◌, arith, inl}
use linux_systemprogramming.Common.Text.{CString, codes}
use linux_systemprogramming.Common.Text.Words.{words}
use linux_systemprogramming.Posix.{Trace, Os, HoldsText, nothing_yet, child}
use linux_systemprogramming.Posix.Count.{opens, closes}
use linux_systemprogramming.Lab.Parsing.{Args, delims, command_parse}
use linux_systemprogramming.Lab.Parsing.Laws.{
  array, parsed, command_parse-typed, command_parse-eq-words,
}
use linux_systemprogramming.Lab.OpType.{op_out, get_op_type}
use linux_systemprogramming.Lab.Cells.{Terminated}
use linux_systemprogramming.Lab.OpType.Named.{named}
use linux_systemprogramming.Lab.Chain.{is_executable}
use linux_systemprogramming.Lab.Chain.Total.{is_executable_total}
use linux_systemprogramming.Lab.Chain.Balance.{is_executable_balanced}
use linux_systemprogramming.Lab.ChildHandler.{
  child_handler, returned, reaped_all, child_handler_reaps_all,
}
use linux_systemprogramming.Lab.Main.{main}
use linux_systemprogramming.Lab.Main.Total.{main_total}

-- A kernel that grants everything; one child has ended when the handler first asks.
abbrev kernel : Os
kernel = record {
  pipe = λ t. some (5, 6);
  open_file = λ t path m. some 7;
  dup = λ t fd. some (fd + 10);
  dup2 = λ t old new. true;
  fork = λ t. some 42;
  waitpid = λ t pid. some 0;
  reap = elim [ [] ↦ child 42 | e ∷ t ↦ nothing_yet ];
  chdir = λ t dir. true;
  home = λ t. none;
  nodename = λ t. none;
  getcwd = λ t. some (codes "/");
  stale_int = 0;
  stale_text = none;
}

cwd_known : HoldsText kernel
cwd_known t = λ e. cc

abbrev line : CString
line = codes "ls  -l|\tx\n"

parses : command_parse (some line) ≡ some (array (codes "ls" ∷ codes "-l|" ∷ codes "x" ∷ []))
unfolding command_parse
parses = refl

blank_line : command_parse (some (codes " \t\n")) ≡ none
unfolding command_parse
blank_line = refl

-- ls > f | wc
abbrev pipeline : Args
pipeline = array (codes "ls" ∷ codes ">" ∷ codes "f" ∷ codes "|" ∷ codes "wc" ∷ [])

first_operator :
    get_op_type pipeline 0
    ≡ some (
      op_out,
      1,
      some (codes "ls")
          ∷ none
          ∷ some (codes "f")
          ∷ some (codes "|")
          ∷ some (codes "wc")
          ∷ none
          ∷ [],
    )
unfolding get_op_type
first_operator = refl

command_parse-typed_example :
    command_parse (some (codes "ls -l\n")) ≡ some (array (codes "ls" ∷ codes "-l" ∷ []))
command_parse-typed_example =
    command_parse-typed ((codes "ls", b' ') ∷ (codes "-l", b'\n') ∷ []) refl

command_parse-eq-words_example : command_parse (some line) ≡ parsed (words delims line)
command_parse-eq-words_example = command_parse-eq-words line

is_executable_total_example :
    (args' : Args) × (t' : Trace) × (is_executable kernel pipeline [] ≡ some (args', t'))
    × Terminated args'
is_executable_total_example =
    is_executable_total kernel cwd_known pipeline [] refl refl (omega arith)

is_executable_balanced_example :
    (args' : Args) × (t' : Trace) × (is_executable kernel pipeline [] ≡ some (args', t'))
    × (opens 7 t' + closes 7 [] ≡ opens 7 [] + closes 7 t')
unfolding named
is_executable_balanced_example =
    is_executable_balanced kernel cwd_known 7 pipeline [] refl refl (omega arith) refl

two_reaped : child_handler kernel 2 [] ≡ returned (reaped_all kernel (42 ∷ []) [])
two_reaped = child_handler_reaps_all kernel (42 ∷ []) 2 [] (refl, inl refl) (omega arith)

main_total_example : (t' : Trace) × (main kernel (line ∷ codes "exit\n" ∷ []) [] ≡ some (tt, t'))
main_total_example = main_total kernel cwd_known (line ∷ codes "exit\n" ∷ []) [] (omega arith)
