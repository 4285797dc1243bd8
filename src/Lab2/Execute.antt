-- ===== src/Lab2/Execute.antt =====
-- lab2/is_executable.c: the child that runs a line, and the shell that starts it.
use linux_systemprogramming.Common.{
  ℕ, ◌≡◌, refl, Bool, true, false, Option, none, some, List, [], ◌∷◌, ◌++◌, if◌then◌else◌, sym, ◌∙◌,
  all, not, append_assoc,
}
use linux_systemprogramming.Common.Text.{CString, codes, str_eq}
use linux_systemprogramming.Lab.Parsing.{Args}
use linux_systemprogramming.Lab2.Plan.{
  Plan, simple, piped, redirected, is_background, find_operator, argv, cells, is_operator,
  argv-cells, find_operator_lem, is_background_lem,
}

-- What the kernel answers in one process. `none` is the error return, and an execvp that succeeds
-- does not return.
pub record Kernel : Type 0 where
  pub fork : Option ℕ
  pub pipe : Option (ℕ × ℕ)
  pub open_file : Option CString → Option ℕ
  pub is_execvp_done : List CString → Bool
  pub is_waitpid_done : ℕ → Bool

pub data Event : Type 0 where
  forked : Option ℕ → Event
  waited : ℕ → Event
  sigint_restored : Event
  pipe_made : ℕ → ℕ → Event
  opened : Option CString → Option ℕ → Event
  dup2ed : Option ℕ → ℕ → Event
  closed : Option ℕ → Event
  execed : List CString → Event
  complained : CString → Event
  exited : ℕ → Event

-- `exit(-1)`: the status that the parent sees.
abbrev pub failure : ℕ
failure = 255

-- `execvp`, and what the process does if it returns.
unfoldable pub execvp : Kernel → Args → List Event → List Event
execvp k args otherwise =
    execed (argv args) ∷ (if k.is_execvp_done (argv args) then [] else otherwise)

-- `case 0` of the fork for a pipe: the left command.
unfoldable pub pipe_left : Kernel → ℕ → ℕ → Args → List Event
unfolding execvp
pipe_left k r w args1 =
    closed (some r)
    ∷ dup2ed (some w) 1
    ∷ execvp k args1 (complained (codes "execvp") ∷ exited 1 ∷ [])

-- `default` of the fork for a pipe: the right command.
unfoldable pub pipe_right : Kernel → ℕ → ℕ → ℕ → Args → List Event
unfolding execvp
pipe_right k pid r w args2 =
    closed (some w)
    ∷ dup2ed (some r) 0
    ∷ execvp k args2 (
        complained (codes "execvp")
        ∷ closed (some r)
        ∷ waited pid
        ∷ (if k.is_waitpid_done pid
            then exited failure ∷ []
            else complained (codes "waitpid") ∷ exited 1 ∷ []))

-- The child's branch for a pipe, up to the fork; the two processes behind it.
unfoldable pub run_pipe : Kernel → Kernel → Args → Args → List Event × List Event
unfolding pipe_left pipe_right
run_pipe k k' args1 args2 = elim k.pipe [
  | none ↦ (complained (codes "pipe") ∷ exited 1 ∷ [], [])
  | some (r, w) ↦ elim k.fork [
    | none ↦ (pipe_made r w ∷ forked none ∷ complained (codes "fork") ∷ exited 1 ∷ [], [])
    | some pid ↦
        (pipe_made r w ∷ forked (some pid) ∷ pipe_right k pid r w args2, pipe_left k' r w args1)
  ]
]

abbrev pub file_name : Args → Option CString
file_name [] = none
file_name (cell ∷ r) = cell

-- The child's branch for `>`. A NULL file name and a failed open are not looked at.
unfoldable pub run_redirected : Kernel → Args → Args → List Event
unfolding execvp
run_redirected k args1 args2 =
    let fd = k.open_file (file_name args2) in
    opened (file_name args2) fd ∷ dup2ed fd 1 ∷ closed fd ∷ execvp k args1 (exited failure ∷ [])

-- What the child does behind the reset of SIGINT, and what the child of the child does.
unfoldable pub child : Kernel → Kernel → Plan → List Event × List Event
unfolding execvp run_pipe run_redirected
child k k' (simple args) = (execvp k args (complained (codes "execvp") ∷ exited failure ∷ []), [])
child k k' (piped args1 args2) = run_pipe k k' args1 args2
child k k' (redirected args1 args2) = (run_redirected k args1 args2, [])

-- What the shell does itself: fork, and wait for a child in the foreground.
unfoldable pub parent : Kernel → Bool → List Event
parent k is_foreground = elim k.fork [
  | none ↦ forked none ∷ complained (codes "fork") ∷ exited failure ∷ []
  | some pid ↦ forked (some pid) ∷ (if is_foreground then waited pid ∷ [] else [])
]

-- The processes that a fork starts: none if it fails.
abbrev pub started : Option ℕ → List Event × List Event → List Event × List Event
started none es = ([], [])
started (some pid) es = (sigint_restored ∷ es.0, es.1)

-- `is_executable`: what the shell does, its child and the child of its child, and the array behind
-- the call. The three processes are answered by `k`, `k1` and `k2`.
unfoldable pub is_executable :
    Kernel → Kernel → Kernel → Args → Option (List Event × (List Event × List Event) × Args)
unfolding is_background find_operator child parent
is_executable k k1 k2 args = elim (is_background args) [
  | none ↦ none
  | some (is_foreground, args') ↦ elim (find_operator args') [
    | none ↦ none
    | some plan ↦ some (parent k is_foreground, started k.fork (child k1 k2 plan), args')
  ]
]

is_executable-planned :
    (k k1 k2 : Kernel) (args args' : Args) (is_foreground : Bool) (plan : Plan)
    → is_background args ≡ some (is_foreground, args')
    → find_operator args' ≡ some plan
    → is_executable k k1 k2 args
      ≡ some (parent k is_foreground, started k.fork (child k1 k2 plan), args')
unfolding is_executable
is_executable-planned k k1 k2 args args' is_foreground plan b o = rw (is_executable, b, o) refl

-- A line of two commands around a "|", when every call succeeds: the shell waits for its child,
-- which becomes the right command with the read end as its input; the child's child becomes the
-- left command with the write end as its output. Each has closed the end of the other by then.
pub is_executable-pipe :
    (k k1 k2 : Kernel) (pid pid' r w : ℕ) (ws vs : List CString) (v : CString) (rest : Args)
    → k.fork ≡ some pid
    → k1.pipe ≡ some (r, w)
    → k1.fork ≡ some pid'
    → k1.is_execvp_done (vs ++ v ∷ []) ≡ true
    → k2.is_execvp_done ws ≡ true
    → all (λ s. not (is_operator s)) ws ≡ true
    → str_eq v (codes "&") ≡ false
    → is_executable k k1 k2 (cells (ws ++ codes "|" ∷ (vs ++ v ∷ [])) rest)
      ≡ some (
        forked (some pid) ∷ waited pid ∷ [],
        (
          sigint_restored
              ∷ pipe_made r w
              ∷ forked (some pid')
              ∷ closed (some w)
              ∷ dup2ed (some r) 0
              ∷ execed (vs ++ v ∷ [])
              ∷ [],
          closed (some r) ∷ dup2ed (some w) 1 ∷ execed ws ∷ [],
        ),
        cells (ws ++ codes "|" ∷ (vs ++ v ∷ [])) rest,
      )
unfolding parent child run_pipe pipe_left pipe_right execvp
is_executable-pipe k k1 k2 pid pid' r w ws vs v rest f p f' x1 x2 h nv =
    is_executable-planned k k1 k2 _ _ true _ foreground
      (find_operator_lem ws (vs ++ v ∷ []) rest h).1
    ∙ rw
        (
          f,
          p,
          f',
          argv-cells ws (cells (vs ++ v ∷ []) rest),
          argv-cells (vs ++ v ∷ []) rest,
          x1,
          x2,
        )
        refl
  where
    foreground :
        is_background (cells (ws ++ codes "|" ∷ (vs ++ v ∷ [])) rest)
        ≡ some (true, cells (ws ++ codes "|" ∷ (vs ++ v ∷ [])) rest)
    foreground =
        rw (sym (append_assoc ws (codes "|" ∷ vs) (v ∷ [])))
          (is_background_lem (ws ++ codes "|" ∷ vs) v rest ∙ rw nv refl)
