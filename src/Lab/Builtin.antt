-- ===== src/Lab/Builtin.antt =====
-- lab/isbuiltin.c: the table of built-in commands and their functions.
use linux_systemprogramming.Common.{
  Bool, true, false, Option, none, some, List, [], ◌∷◌, ◌++◌, get_elem?, if◌then◌else◌,
}
use linux_systemprogramming.Common.Text.{CString, codes, str_eq}
use linux_systemprogramming.Posix.{
  Os, Io, pure, ◌>>=◌, ◌>>◌, deref, print, perror, chdir, home, nodename, getcwd,
}
use linux_systemprogramming.Lab.Parsing.{Args}

-- `bt_func`
pub data BtFunc : Type 0 where
  hostname_func cd_func pwd_func : BtFunc

-- `BT_TYPE`
pub record BtType : Type 0 where
  pub cmd : CString
  pub bt_func : BtFunc

-- `bt_array`; the end of the list is the `{NULL, NULL}` entry.
abbrev pub bt_array : List BtType
bt_array =
    record { cmd = codes "hostname"; bt_func = hostname_func }
    ∷ record { cmd = codes "cd"; bt_func = cd_func }
    ∷ record { cmd = codes "pwd"; bt_func = pwd_func }
    ∷ []

-- The first entry with that name.
unfoldable pub find_builtin : List BtType → CString → Option BtFunc
find_builtin [] name = none
find_builtin (b ∷ bs) name = if str_eq b.cmd name then some b.bt_func else find_builtin bs name

module _ (os : Os) where
  pub hostname : Args → Io (Unit {0})
  hostname arg = do
    node ← nodename os
    elim node [
      | none ↦ perror (codes "uname")
      | some name ↦ print (codes "hostname: " ++ name ++ codes " \n")
    ]

  pub cd : Args → Io (Unit {0})
  cd arg = do
    dir ← deref (get_elem? arg 1)
    elim dir [
      | none ↦ (do homedir ← home os; chdir os homedir; pure tt)
      | some d ↦ (do
        moved ← chdir os (some d)
        if moved
            then print (codes "Success change directory: " ++ d ++ codes "\n")
            else perror (codes "chdir"))
    ]

  -- The result of getcwd is not looked at: after a failure the array holds what it held, and printf
  -- reads behind it if that has no NUL.
  pub pwd : Args → Io (Unit {0})
  pwd arg = do
    result ← getcwd os
    path ← deref (elim result [ none ↦ os.stale_text | some p ↦ some p ])
    print (codes "Pwd: " ++ path)

  unfoldable pub call : BtFunc → Args → Io (Unit {0})
  unfolding hostname cd pwd
  call hostname_func arg = hostname arg
  call cd_func arg = cd arg
  call pwd_func arg = pwd arg

  unfoldable pub check_builtin : Args → Io Bool
  unfolding call find_builtin
  check_builtin arglist = do
    cell ← deref (get_elem? arglist 0)
    -- strcmp reads the string
    name ← deref cell
    elim (find_builtin bt_array name) [
      | none ↦ pure false
      | some f ↦ (do call f arglist; pure true)
    ]
