-- ===== src/Children/Reaping.antt =====
-- ch06/exercise.c: a parent with two children does nothing, and its SIGCHLD handler collects them.
pub mod Zombies
pub mod Collecting
use linux_systemprogramming.Common.{
  ℕ, zero, suc, ◌+◌, ◌≤◌, ◌<◌, ◌≡◌, ◌≢◌, ◌⊎◌, refl, sym, ap, ◌∙◌, Bool, true, false, not, ◌&&◌,
  ◌||◌, Option, none, some, List, [], ◌∷◌, ◌++◌, length, length-append, replicate, all,
  if◌then◌else◌, ◌==◌, hit, Bool-cases, inl, inr, arith,
}
use linux_systemprogramming.Common.Text.{CString, codes}
use linux_systemprogramming.Children.{
  Kids, Forked, fork_failed, in_child, in_parent, Answer, child, nothing_yet, no_children,
  wait_nohang, end_child, is_in, count, among, size, among-end_child, size-end_child, count-append,
}

pub data Event : Type 0 where
  complained : CString → Event
  -- `printf(".. : %d\n", getpid())`
  introduced : CString → ℕ → Event
  reported : ℕ → Event

-- The parent is in `while(1)`, in the handler, or has called abort in it.
pub data Phase : Type 0 where
  spinning handling aborted : Phase

-- The parent. SIGCHLD is pending at most once. What was told is newest first.
pub record Parent : Type 0 where
  pub kids : Kids
  pub is_pending : Bool
  pub phase : Phase
  pub told : List Event

-- What happens: a child ends, the handler is entered, or it calls waitpid; the call may fail with an
-- error besides ECHILD.
pub data Move : Type 0 where
  ends : ℕ → Move
  enters : Move
  reaps : Move
  reap_fails : Move

-- One round of the loop of child_handler.
unfoldable pub child_handler : Parent → Parent
unfolding wait_nohang
child_handler p =
    let (answer, kids) = wait_nohang p.kids in
    elim answer [
      | child pid ↦ record p { kids = kids; told = reported pid ∷ p.told }
      | nothing_yet ↦ record p { phase = spinning }
      | no_children ↦ record p { phase = spinning }
    ]

-- The handler runs with all signals blocked.
unfoldable pub enter : Phase → Bool → Parent → Parent
enter spinning true p = record p { is_pending = false; phase = handling }
enter spinning false p = p
enter handling pending p = p
enter aborted pending p = p

unfoldable pub act : Move → Parent → Parent
unfolding child_handler enter end_child
act (ends pid) p = record p {
  kids = end_child pid p.kids;
  is_pending = is_in pid p.kids.running || p.is_pending;
}
act enters p = enter p.phase p.is_pending p
act reaps p = elim p.phase [ handling ↦ child_handler p | spinning ↦ p | aborted ↦ p ]
act reap_fails p = elim p.phase [
  | handling ↦ record p { phase = aborted; told = complained (codes "waitpid") ∷ p.told }
  | spinning ↦ p
  | aborted ↦ p
]

unfoldable pub run : List Move → Parent → Parent
unfolding act
run [] p = p
run (m ∷ ms) p = run ms (act m p)

pub data End : Type 0 where
  exited : ℕ → List Event → End
  -- execlp has put `sleep` with this argument in place of the process
  became : CString → List Event → End
  goes_on : Parent → End

-- In a child.
abbrev pub exec_sleep : Bool → CString → CString → List Event → End
exec_sleep true seconds name told = became seconds told
exec_sleep false seconds name told = exited 1 (complained name ∷ told)

abbrev pub with_child : ℕ → Parent → Parent
with_child pid p = record p { kids = record p.kids { running = p.kids.running ++ pid ∷ [] } }

abbrev pub childless : Parent
childless = record {
  kids = record { running = []; ended = [] };
  is_pending = false;
  phase = spinning;
  told = [];
}

abbrev pub tell : Event → Parent → Parent
tell e p = record p { told = e ∷ p.told }

-- Behind the first fork: when the handler has not yet returned, the second fork is still to come.
unfoldable pub go_on : Forked → ℕ → Bool → List Move → Parent → End
unfolding run
go_on second self execs later p = elim p.phase [
  | handling ↦ goes_on p
  | aborted ↦ goes_on p
  | spinning ↦ elim second [
    | fork_failed ↦ exited 1 (complained (codes "fork") ∷ p.told)
    | in_child ↦
        exec_sleep execs (codes "30") (codes "child2") (introduced (codes "CHILD 2") self ∷ [])
    | in_parent b ↦ goes_on (run later (tell (introduced (codes "PARENT") self) (with_child b p)))
  ]
]

-- `main` of the process that the two forks say, whose pid is `self`, with the moves between the forks
-- and behind them, and whether execlp succeeds.
unfoldable pub main : Forked → Forked → ℕ → Bool → List Move → List Move → End
unfolding run go_on
main fork_failed second self execs between later = exited 1 (complained (codes "fork") ∷ [])
main in_child second self execs between later =
    exec_sleep execs (codes "20") (codes "child1") (introduced (codes "CHILD 1") self ∷ [])
main (in_parent a) second self execs between later =
    go_on second self execs later (run between (with_child a childless))

-- The pids that were reported.
abbrev pub reports : List Event → List ℕ
reports [] = []
reports (reported pid ∷ l) = pid ∷ reports l
reports (e ∷ l) = reports l

-- How often a pid was reported or is still to be.
abbrev pub accounted : ℕ → Parent → ℕ
accounted n p = count n (reports p.told) + among n p.kids
