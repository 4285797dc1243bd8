-- ===== src/Daemon/Start.antt =====
-- `main` of ch09/chattingProgram/daemon.c on a table of descriptors. open(2) and dup(2) take the
-- lowest free descriptor below the soft limit, as POSIX says.
use linux_systemprogramming.Common.{
  ℕ, zero, suc, Bool, true, false, ◌&&◌, Option, none, some, List, [], ◌∷◌, ◌++◌, if◌then◌else◌,
  ◌==◌,
}
use linux_systemprogramming.Common.Text.{CString, codes}

-- What each descriptor is open on.
abbrev pub Table : Type 0
Table = ℕ → Option CString

abbrev pub set : ℕ → Option CString → Table → Table
set fd v table i = if i == fd then v else table i

pub data Limit : Type 0 where
  infinity : Limit
  at_most : ℕ → Limit

pub data Forked : Type 0 where
  fork_failed : Forked
  parent : Forked
  child : Forked

-- The answers of the calls; `stale_max` is what the uninitialised `rl.rlim_max` holds.
pub record Answers : Type 0 where
  pub max : Option Limit
  pub stale_max : Limit
  pub soft : ℕ
  pub fork : Forked
  pub ignores : Bool
  pub enters_root : Bool
  pub has_dev_null : Bool
  -- whether the socket of syslog can be made and connected; one that cannot is closed again
  pub has_log : Bool

pub data Event : Type 0 where
  printed : CString → Event
  complained : CString → Event
  logged : CString → Event
  unexpected : Option ℕ → Option ℕ → Option ℕ → Event

-- `main` returns, or goes on for ever; with what was told, oldest first, and the descriptors.
pub data End : Type 0 where
  returned : ℕ → List Event → Table → End
  working : List Event → Table → End

abbrev pub limit_of : Limit → ℕ
limit_of infinity = 1024
limit_of (at_most n) = n

-- `for(i = 0; i < n; i++) close(i);`
unfoldable pub close_all : ℕ → Table → Table
close_all zero table = table
close_all (suc n) table = set n none (close_all n table)

-- The lowest free descriptor from `i` on, among `n`.
unfoldable pub lowest : ℕ → ℕ → Table → Option ℕ
lowest zero i table = none
lowest (suc n) i table =
    let rest = lowest n (suc i) table in elim (table i) [ none ↦ some i | some file ↦ rest ]

unfoldable pub open_file : ℕ → Bool → CString → Table → Option ℕ × Table
unfolding lowest
open_file soft is_there file table =
    if is_there
    then elim (lowest soft 0 table) [
      | none ↦ (none, table)
      | some fd ↦ (some fd, set fd (some file) table)
    ]
    else (none, table)

unfoldable pub dup : ℕ → ℕ → Table → Option ℕ × Table
unfolding open_file
dup soft old table = elim (table old) [
  | none ↦ (none, table)
  | some file ↦ open_file soft true file table
]

-- fd0, fd1 and fd2.
unfoldable pub reopen : ℕ → Bool → Table → (Option ℕ × Option ℕ × Option ℕ) × Table
reopen soft has_dev_null table =
    let first = open_file soft has_dev_null (codes "/dev/null") table in
    let second = dup soft 0 first.1 in
    let third = dup soft 0 second.1 in ((first.0, second.0, third.0), third.1)

abbrev pub is_fd : ℕ → Option ℕ → Bool
is_fd n none = false
is_fd n (some fd) = fd == n

-- The first syslog opens its socket, and keeps it.
unfoldable pub syslog : ℕ → Bool → Table → Table
unfolding open_file
syslog soft has_log table = (open_file soft has_log (codes "/dev/log") table).1

-- `if(call < 0) perror(...)`
abbrev pub unless : Bool → CString → List Event
unless true s = []
unless false s = complained s ∷ []

-- Behind fork, in the daemon.
unfoldable pub daemon : Limit → List Event → Answers → Table → End
daemon max told a table =
    let told' =
      told
      ++ unless a.ignores (codes "sigaction() : Can't ignore SIGHUP")
      ++ unless a.enters_root (codes "cd()") in
    let closed = close_all (limit_of max) table in
    let (fds, opened) = reopen a.soft a.has_dev_null closed in
    let final = syslog a.soft a.has_log opened in
    if is_fd 0 fds.0 && is_fd 1 fds.1 && is_fd 2 fds.2
    then working (told' ++ logged (codes "Daemon Process") ∷ []) final
    else returned 255 (told' ++ unexpected fds.0 fds.1 fds.2 ∷ []) final

-- getrlimit and its error.
abbrev pub limit_told : Option Limit → List Event
limit_told none = complained (codes "getlimit()") ∷ []
limit_told (some m) = []

abbrev pub max_of : Answers → Limit
max_of a = elim a.max [ none ↦ a.stale_max | some m ↦ m ]

unfoldable pub main : List CString → Answers → Table → End
main [] a table = returned 255 (printed (codes "Usage : command\n") ∷ []) table
main (command ∷ args) a table =
    let told = limit_told a.max in
    let max = max_of a in
    elim a.fork [
      | parent ↦ returned 0 told table
      | fork_failed ↦ daemon max (told ++ complained (codes "error()") ∷ []) a table
      | child ↦ daemon max told a table
    ]
