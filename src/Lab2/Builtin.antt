-- ===== src/Lab2/Builtin.antt =====
-- lab2/minishell.c: the built-in commands and the prompt.
use linux_systemprogramming.Common.{
  Bool, Option, none, some, List, [], ◌∷◌, ◌++◌, ◌+◌, length, ltb, get_elem?, if◌then◌else◌,
}
use linux_systemprogramming.Common.Text.{CString, codes, str_eq}
use linux_systemprogramming.Lab.Parsing.{Args}

-- What uname, getcwd, getenv and chdir answer.
pub record Surroundings : Type 0 where
  pub nodename : Option CString
  pub cwd : Option CString
  pub home : Option CString
  pub is_dir : Option CString → Bool

pub data Output : Type 0 where
  printed : CString → Output
  complained : CString → Output
  changed_dir : Option CString → Output

pub data BtFunc : Type 0 where
  hostname cd pwd : BtFunc

unfoldable pub func_hostname : Surroundings → List Output
func_hostname s = elim s.nodename [
  | none ↦ complained (codes "uname") ∷ []
  | some n ↦ printed (codes "hostname: " ++ n ++ codes "\n") ∷ []
]

-- The directory that a `cd` with at most one argument goes to.
unfoldable pub enter : Surroundings → Option CString → List Output
enter s none = if s.is_dir s.home then changed_dir s.home ∷ [] else []
enter s (some d) =
    if s.is_dir (some d) then changed_dir (some d) ∷ [] else complained (codes "chdir") ∷ []

-- `args[2]` is read first. `none` is a read past the array.
unfoldable pub func_cd : Surroundings → Args → Option (List Output)
unfolding enter
func_cd s args = elim (get_elem? args 2) [
  | none ↦ none
  | some (some extra) ↦ some (complained (codes "cd: too many arguments\n") ∷ [])
  | some none ↦ elim (get_elem? args 1) [ none ↦ none | some dir ↦ some (enter s dir) ]
]

unfoldable pub func_pwd : Surroundings → List Output
func_pwd s = elim s.cwd [ none ↦ complained (codes "getcwd") ∷ [] | some d ↦ printed d ∷ [] ]

-- `strcat(cwd, "> ")` into the array of 1024 bytes; `none` is a write behind it.
unfoldable pub print_cwd : Surroundings → Option (List Output)
print_cwd s = elim s.cwd [
  | none ↦ some (complained (codes "getcwd") ∷ [])
  | some d ↦ if ltb (length d + 2) 1024 then some (printed (d ++ codes "> ") ∷ []) else none
]

abbrev pub builtin_list : List (CString × BtFunc)
builtin_list = (codes "hostname", hostname) ∷ (codes "cd", cd) ∷ (codes "pwd", pwd) ∷ []

unfoldable pub find_builtin : List (CString × BtFunc) → CString → Option BtFunc
find_builtin [] name = none
find_builtin ((cmd, f) ∷ l) name = if str_eq cmd name then some f else find_builtin l name

unfoldable pub bfunc : BtFunc → Surroundings → Args → Option (List Output)
unfolding func_hostname func_cd func_pwd
bfunc hostname s args = some (func_hostname s)
bfunc cd s args = func_cd s args
bfunc pwd s args = some (func_pwd s)

-- The output of the built-in, if `args[0]` names one: the result is 1 in that case.
unfoldable pub has_builtin : Surroundings → Args → Option (Option (List Output))
unfolding find_builtin bfunc
has_builtin s [] = none
has_builtin s (none ∷ r) = none
has_builtin s (some name ∷ r) = elim (find_builtin builtin_list name) [
  | none ↦ some none
  | some f ↦ elim (bfunc f s (some name ∷ r)) [ none ↦ none | some out ↦ some (some out) ]
]
