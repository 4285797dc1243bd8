-- ===== src/Children/Waiting.antt =====
-- ch05/ex02.c, ch05/ex03.c, ch05/ex05.c and ch05/ex06.c: a process and its child, of which each `main`
-- runs one, as the answer of fork says. The times for which they sleep are left out.
use linux_systemprogramming.Common.{
  ℕ, ◌%◌, ◌≡◌, refl, Bool, Option, none, some, List, [], ◌∷◌, ◌++◌, if◌then◌else◌,
}
use linux_systemprogramming.Common.Text.{CString, codes}
use linux_systemprogramming.Children.{Forked, fork_failed, in_child, in_parent}

-- What wait and waitpid say of a child: WIFEXITED with WEXITSTATUS, or WIFSIGNALED.
pub data Status : Type 0 where
  exited_with : ℕ → Status
  ended_by : ℕ → Status

pub data Event : Type 0 where
  complained : CString → Event
  printed : CString → Event
  printed_num : CString → ℕ → Event
  ran : CString → Event

-- `faulted` is a look at a `status` that a failed wait has not written.
pub data End : Type 0 where
  exited : ℕ → List Event → End
  became : CString → List Event → End
  ended_by_signal : ℕ → End
  faulted : End

abbrev pub introduced : CString → ℕ → Event
introduced name self = printed_num (name ++ codes " PROCESS : ") self

abbrev pub shell_calls : CString → List Event
shell_calls name = ran (codes "echo " ++ name) ∷ ran (codes "ps -l") ∷ []

-- The child of ex02.c and ex03.c.
abbrev pub child_main : ℕ → End
child_main self = exited 0 (introduced (codes "CHILD") self ∷ shell_calls (codes "CHILD"))

abbrev pub parent_start : ℕ → ℕ → List Event
parent_start self pid =
    introduced (codes "PARENT") self ∷ printed_num (codes "Return Value of fork : ") pid ∷ []

-- ex02.c does not wait.
unfoldable pub main_unwaited : Forked → ℕ → End
main_unwaited fork_failed self = exited 0 (complained (codes "fork") ∷ [])
main_unwaited in_child self = child_main self
main_unwaited (in_parent pid) self =
    exited 0 (parent_start self pid ++ shell_calls (codes "PARENT"))

abbrev pub reason : Status → Event
reason (exited_with n) = printed (codes "Child Process is deaded by exit()\n")
reason (ended_by s) = printed (codes "Child Process is deaded by Signal\n")

-- ex03.c, with what waitpid gives.
unfoldable pub main_waitpid : Forked → ℕ → Option Status → End
main_waitpid fork_failed self waited = exited 0 (complained (codes "fork") ∷ [])
main_waitpid in_child self waited = child_main self
main_waitpid (in_parent pid) self none = faulted
main_waitpid (in_parent pid) self (some status) =
    exited 0 (parent_start self pid ++ reason status ∷ shell_calls (codes "PARENT"))

abbrev pub exit_code : Status → List Event
exit_code (exited_with n) = printed_num (codes "exit code of child process : ") n ∷ []
exit_code (ended_by s) = []

-- ex05.c, with what wait gives.
unfoldable pub main_exit_code : Forked → Option Status → End
main_exit_code fork_failed waited = exited 1 (complained (codes "fork") ∷ [])
main_exit_code in_child waited = exited 1 []
main_exit_code (in_parent pid) none = faulted
main_exit_code (in_parent pid) (some status) = exited 0 (exit_code status)

-- ex06.c; `exit(-1)` is status 255.
unfoldable pub main_exec : Forked → Bool → End
main_exec fork_failed executes = exited 255 (complained (codes "fork()") ∷ [])
main_exec in_child executes =
    let told = printed (codes "CHILD Process\n") ∷ [] in
    if executes
    then became (codes "ls -l") told
    else exited 0 (told ++ complained (codes "execlp") ∷ [])
main_exec (in_parent pid) executes = exited 0 (printed (codes "child is dead\n") ∷ [])

-- What wait says of a process with this end.
abbrev pub status_of : End → Option Status
status_of (exited n told) = some (exited_with (n % 256))
status_of (became program told) = none
status_of (ended_by_signal s) = some (ended_by s)
status_of faulted = none

-- The parents tell the end of their children as they are written: ex05.c tells the code 1 and ex03.c an
-- exit; and ex03.c tells a signal when one has ended the child instead.
parents_tell :
    (self pid s : ℕ)
    → (main_exit_code (in_parent pid) (status_of (main_exit_code in_child none))
        ≡ exited 0 (printed_num (codes "exit code of child process : ") 1 ∷ []))
      × (main_waitpid (in_parent pid) self (status_of (main_waitpid in_child pid none))
          ≡ exited 0 (
              parent_start self pid
              ++ printed (codes "Child Process is deaded by exit()\n")
                ∷ shell_calls (codes "PARENT")))
      × (main_waitpid (in_parent pid) self (status_of (ended_by_signal s))
          ≡ exited 0 (
              parent_start self pid
              ++ printed (codes "Child Process is deaded by Signal\n")
                ∷ shell_calls (codes "PARENT")))
unfolding main_exit_code main_waitpid
parents_tell self pid s = (refl, refl, refl)
