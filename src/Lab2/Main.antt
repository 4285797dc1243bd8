-- ===== src/Lab2/Main.antt =====
-- lab2/main.c: one line of input, from the test for "exit" to the prompt; Loop has main.
pub mod Loop
use linux_systemprogramming.Common.{
  ◌⊎◌, inl, inr, ◌≡◌, refl, ap, ◌∙◌, false, Option, none, some, List, [], ◌∷◌, ◌++◌, if◌then◌else◌,
}
use linux_systemprogramming.Common.Text.{CString, codes, strn_eq}
use linux_systemprogramming.Common.Text.Words.{words}
use linux_systemprogramming.Lab.Parsing.{Args}
use linux_systemprogramming.Lab.Parsing.Laws.{parsed, command_parse-eq-words}
use linux_systemprogramming.Lab2.Parsing.{
  delims, command_parse, command_freelist, command_parse-agrees,
}
use linux_systemprogramming.Lab2.Builtin.{
  Surroundings, Output, has_builtin, print_cwd, find_builtin, bfunc, func_cd,
}
use linux_systemprogramming.Lab2.Execute.{Kernel, Event, is_executable}

-- What one line leads to.
pub data Round : Type 0 where
  left : Round
  -- what a built-in and the prompt put out
  built_in : List Output → Round
  -- the shell ends itself behind a fork that fails
  gave_up : List Event → Round
  -- the shell, its child and the child of its child, and the prompt
  executed : List Event → List Event × List Event → List Output → Round

-- The line's answers: three processes, the surroundings, and what realloc leaves.
pub record Answers : Type 0 where
  pub shell : Kernel
  pub child : Kernel
  pub grandchild : Kernel
  pub surroundings : Surroundings
  pub stale : Option CString

-- `command_freelist(args); print_cwd();`
unfoldable pub release : Answers → Option Args → (List Output → Round) → Option Round
unfolding command_freelist
release a args result = elim (command_freelist args) [
  | none ↦ none
  | some freed ↦ elim (print_cwd a.surroundings) [
    | none ↦ none
    | some prompt ↦ some (result prompt)
  ]
]

-- `none` is an access out of bounds or through NULL.
unfoldable pub run_args : Answers → Args → Option Round
unfolding release
run_args a args = elim (has_builtin a.surroundings args) [
  | none ↦ none
  | some (some out) ↦ release a (some args) (λ prompt. built_in (out ++ prompt))
  | some none ↦ elim (is_executable a.shell a.child a.grandchild args) [
    | none ↦ none
    | some (es, cs, args') ↦ elim a.shell.fork [
      | none ↦ some (gave_up es)
      | some pid ↦ release a (some args') (λ prompt. executed es cs prompt)
    ]
  ]
]

unfoldable pub handle : Answers → Option Args → Option Round
unfolding run_args
handle a none = release a none (λ prompt. built_in prompt)
handle a (some args) = run_args a args

unfoldable pub round : Answers → CString → Option Round
unfolding handle
round a line =
    if strn_eq 4 line (codes "exit")
    then some left
    else handle a (command_parse a.stale (some line))

parsed_line :
    (a : Answers) (line : CString) (ws : List CString)
    → words delims line ≡ ws
    → command_parse a.stale (some line) ≡ parsed ws
parsed_line a line ws e =
    command_parse-agrees a.stale (some line) ∙ command_parse-eq-words line ∙ ap parsed e

-- A line without words reads through NULL, since `command_freelist` gets the NULL that
-- `command_parse` returned, and a line "cd" without an argument reads past its array, since
-- `func_cd` looks at `args[2]`; in both cases unless the line begins with "exit".
pub round_crashes :
    (a : Answers) (line : CString)
    → strn_eq 4 line (codes "exit") ≡ false
    → (words delims line ≡ []) ⊎ (words delims line ≡ codes "cd" ∷ [])
    → round a line ≡ none
unfolding round handle run_args release command_freelist has_builtin find_builtin bfunc func_cd
round_crashes a line x (inl e) = rw (x, parsed_line a line [] e) refl
round_crashes a line x (inr e) = rw (x, parsed_line a line (codes "cd" ∷ []) e) refl
