-- ===== src/Children/Reaping/Zombies.antt =====
-- ch06/exercise.c: no zombie is left behind an entry into the handler, in any order of events.
use mathlib.Core.Path.{subst}
use linux_systemprogramming.Common.{ℕ, ◌≡◌, refl, Bool, true, false, List, [], ◌∷◌, arith}
use linux_systemprogramming.Common.Text.{codes}
use linux_systemprogramming.Children.{
  Forked, fork_failed, in_child, in_parent, wait_nohang, end_child,
}
use linux_systemprogramming.Children.Reaping.{
  introduced, Phase, spinning, handling, aborted, Parent, Move, ends, enters, reaps, reap_fails,
  child_handler, enter, act, run, goes_on, with_child, childless, tell, go_on, main,
}

-- Outside of the handler and with no SIGCHLD pending there is no zombie.
abbrev pub Cared : Parent → Type 0
Cared p = p.phase ≡ spinning → p.is_pending ≡ false → p.kids.ended ≡ []

child_handler-Cared : (p : Parent) → p.phase ≡ handling → Cared (child_handler p)
unfolding child_handler wait_nohang
child_handler-Cared p h = go p.kids.running p.kids.ended
  where
    go :
        (r e : List ℕ)
        → Cared (child_handler (record p { kids = record { running = r; ended = e } }))
    go r (pid ∷ e) = λ k _. cc
    go (pid ∷ r) [] = λ _ _. refl
    go [] [] = λ _ _. refl

act-Cared : (m : Move) (p : Parent) → Cared p → Cared (act m p)
unfolding act enter end_child
act-Cared (ends pid) p h = ground (arith, h)
act-Cared enters p h = ground (arith, h)
act-Cared reaps p h = ground (arith, h, child_handler-Cared p)
act-Cared reap_fails p h = ground (arith, h)

pub run-Cared : (ms : List Move) (p : Parent) → Cared p → Cared (run ms p)
unfolding run
run-Cared [] p h = h
run-Cared (m ∷ ms) p h = run-Cared ms (act m p) (act-Cared m p h)

go_on-Cared :
    (second : Forked) (self : ℕ) (execs : Bool) (later : List Move) (p q : Parent)
    → Cared p
    → go_on second self execs later p ≡ goes_on q
    → Cared q
unfolding go_on
go_on-Cared second self execs later p q h e = go p.phase second execs refl e
  where
    go :
        (ph : Phase) (second : Forked) (execs : Bool)
        → p.phase ≡ ph
        → go_on second self execs later (record p { phase = ph }) ≡ goes_on q
        → Cared q
    go handling second execs k e = λ f. absurd (ground (arith, e, f))
    go aborted second execs k e = λ f. absurd (ground (arith, e, f))
    go spinning fork_failed execs k e = cc
    go spinning in_child true k e = cc
    go spinning in_child false k e = cc
    go spinning (in_parent b) execs k e =
        let same : run later (tell (introduced (codes "PARENT") self) (with_child b p)) ≡ q = cc in
        subst Cared same (run-Cared later _ (λ _. h k))

-- Whatever ends and whenever the handler runs, also between the two forks: in `while(1)`, with no
-- SIGCHLD pending, no child that has ended is left to be waited for.
pub main-Cared :
    (second : Forked) (a self : ℕ) (execs : Bool) (between later : List Move) (q : Parent)
    → main (in_parent a) second self execs between later ≡ goes_on q
    → q.phase ≡ spinning
    → q.is_pending ≡ false
    → q.kids.ended ≡ []
unfolding main
main-Cared second a self execs between later q e =
    go_on-Cared second self execs later (run between (with_child a childless)) q
      (run-Cared between (with_child a childless) (λ _ _. refl)) e
