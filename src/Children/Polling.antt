-- ===== src/Children/Polling.antt =====
-- ch05/ex04.c: a parent with two children asks without waiting whether one of them has ended, and goes
-- on with its own work in between.
pub mod Reports
use linux_systemprogramming.Common.{
  ℕ, zero, suc, ◌+◌, ◌*◌, ◌≤◌, ◌<◌, ◌≡◌, refl, sym, ap, ◌∙◌, Bool, Option, none, some, List, [],
  ◌∷◌, ◌++◌, length, if◌then◌else◌, ◌==◌, hit, Bool-cases, inl, inr, arith,
}
use linux_systemprogramming.Common.Text.{CString, codes}
use linux_systemprogramming.Children.{
  Kids, Forked, fork_failed, in_child, in_parent, Answer, child, nothing_yet, no_children,
  wait_nohang, end_child, end_all, remove, count, among, size, among-end_all, size-end_all,
}

pub data Event : Type 0 where
  complained : CString → Event
  -- `printf("%d : ..", getpid())` in a child
  introduced : ℕ → CString → Event
  reported : ℕ → Event
  dot : Event
  said_no_child : Event

-- The parent in its loop. What it has told is newest first.
pub record Parent : Type 0 where
  pub kids : Kids
  pub i : ℕ
  pub told : List Event

pub data End : Type 0 where
  exited : ℕ → List Event → End
  in_loop : Parent → End

-- The work of a round in which no child is to be collected.
unfoldable pub work : Parent → Parent
work p =
    if p.i == 100_000 then record p { i = 1; told = dot ∷ p.told } else record p { i = p.i + 1 }

-- One call of waitpid and what follows it. errno is ECHILD when waitpid has failed and at no other
-- time: it is 0 at the start.
unfoldable pub round : Kids → Parent → (Parent → End) → End
unfolding wait_nohang work
round k p next =
    let (answer, kids) = wait_nohang k in
    elim answer [
      | child pid ↦ next (record p { kids = kids; told = reported pid ∷ p.told })
      | nothing_yet ↦ next (work (record p { kids = kids }))
      | no_children ↦ exited 0 (said_no_child ∷ p.told)
    ]

-- The two loops as one, with one call of waitpid in each round; the list has the children that end in
-- front of each call.
unfoldable pub collect : List (List ℕ) → Parent → End
unfolding end_all round
collect [] p = in_loop p
collect (pids ∷ later) p = round (end_all pids p.kids) p (collect later)

abbrev pub newborn : ℕ → ℕ → Parent
newborn a b = record { kids = record { running = a ∷ b ∷ []; ended = [] }; i = 0; told = [] }

-- `main` of the process that the answers of the two forks say; `self` is its pid.
unfoldable pub main : Forked → Forked → ℕ → List (List ℕ) → End
unfolding collect
main fork_failed second self calls = exited 1 (complained (codes "fork1") ∷ [])
main in_child second self calls = exited 0 (introduced self (codes "long time child process") ∷ [])
main (in_parent a) fork_failed self calls = exited 1 (complained (codes "fork2") ∷ [])
main (in_parent a) in_child self calls =
    exited 0 (introduced self (codes "short time child process") ∷ [])
main (in_parent a) (in_parent b) self calls = collect calls (newborn a b)

-- The pids that were reported.
abbrev pub reports : List Event → List ℕ
reports [] = []
reports (reported pid ∷ l) = pid ∷ reports l
reports (e ∷ l) = reports l

-- How often a pid was reported or is still to be.
abbrev pub accounted : ℕ → End → ℕ
accounted n (exited status told) = count n (reports told)
accounted n (in_loop p) = count n (reports p.told) + among n p.kids
