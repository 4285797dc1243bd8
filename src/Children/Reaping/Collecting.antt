-- ===== src/Children/Reaping/Collecting.antt =====
-- ch06/exercise.c: the handler reports each child once.
use mathlib.Core.Path.{subst}
use linux_systemprogramming.Common.{
  ℕ, zero, suc, ◌+◌, ◌≤◌, ◌<◌, ◌≡◌, ◌≢◌, refl, sym, ap, ◌∙◌, Bool, true, false, List, [], ◌∷◌, ◌++◌,
  length, length-append, replicate, hit, arith,
}
use linux_systemprogramming.Common.Text.{codes}
use linux_systemprogramming.Children.{
  in_parent, wait_nohang, count, size, among-end_child, size-end_child, count-append,
}
use linux_systemprogramming.Children.Reaping.{
  introduced, Phase, spinning, handling, aborted, Parent, Move, ends, enters, reaps, reap_fails,
  child_handler, enter, act, run, goes_on, with_child, childless, tell, go_on, main, reports,
  accounted,
}
use linux_systemprogramming.Children.Reaping.Zombies.{Cared, run-Cared}

child_handler-accounted : (n : ℕ) (p : Parent) → accounted n (child_handler p) ≡ accounted n p
unfolding child_handler wait_nohang
child_handler-accounted n p = ground arith

act-accounted : (n : ℕ) (m : Move) (p : Parent) → accounted n (act m p) ≡ accounted n p
unfolding act
act-accounted n (ends pid) p = omega (arith, among-end_child n pid p.kids)
act-accounted n enters p = ground arith
act-accounted n reaps p = ground (arith, child_handler-accounted n p)
act-accounted n reap_fails p = ground arith

run-accounted : (n : ℕ) (ms : List Move) (p : Parent) → accounted n (run ms p) ≡ accounted n p
unfolding run
run-accounted n [] p = refl
run-accounted n (m ∷ ms) p = run-accounted n ms (act m p) ∙ act-accounted n m p

abbrev calls : ℕ → List Move
calls n = replicate n reaps

-- Out of the handler with nothing left, and nothing else has changed.
abbrev Left : Parent → Parent → Type 0
Left p q =
    (q.phase ≡ spinning)
    × (q.kids.ended ≡ [])
    × (q.is_pending ≡ p.is_pending)
    × (q.kids.running ≡ p.kids.running)

act-spinning : (p : Parent) → p.phase ≡ spinning → act reaps p ≡ p
unfolding act
act-spinning p h = ground arith

calls_idle : (n : ℕ) (p : Parent) → p.phase ≡ spinning → run (calls n) p ≡ p
unfolding run
calls_idle zero p h = refl
calls_idle (suc n) p h = ap (run (calls n)) (act-spinning p h) ∙ calls_idle n p h

act-handling : (p : Parent) → p.phase ≡ handling → act reaps p ≡ child_handler p
unfolding act
act-handling p h = ground arith

calls_leave :
    (n : ℕ) (p : Parent) → p.phase ≡ handling → length p.kids.ended < n → Left p (run (calls n) p)
unfolding run child_handler wait_nohang
calls_leave zero p h lt = absurd (omega arith)
calls_leave (suc n) p h lt =
    subst (Left p) (sym (ap (run (calls n)) (act-handling p h)))
      (go (λ q. calls_leave n q) p.kids.running p.kids.ended lt)
  where
    idle : (q : Parent) → q.phase ≡ spinning → q.kids.ended ≡ [] → Left q (run (calls n) q)
    idle q k e = subst (Left q) (sym (calls_idle n q k)) (k, e, refl, refl)

    go :
        ((q : Parent) → q.phase ≡ handling → length q.kids.ended < n → Left q (run (calls n) q))
        → (r e : List ℕ) → length e < suc n
        → let q : Parent = record p { kids = record { running = r; ended = e } } in
          Left q (run (calls n) (child_handler q))
    go hyp r (pid ∷ e) lt = hyp _ h (omega arith)
    go hyp (pid ∷ r) [] lt = idle _ refl refl
    go hyp [] [] lt = idle _ refl refl

-- The handler comes to its end, and runs once more if SIGCHLD is pending.
abbrev pub settle : ℕ → List Move
settle n = calls n ++ enters ∷ calls n

run-append : (ms ns : List Move) (p : Parent) → run (ms ++ ns) p ≡ run ns (run ms p)
unfolding run
run-append [] ns p = refl
run-append (m ∷ ms) ns p = run-append ms ns (act m p)

-- Nothing is left, whether the handler ran or not.
abbrev Clean : Parent → Parent → Type 0
Clean p q = (q.phase ≡ spinning) × (q.kids.ended ≡ []) × (q.kids.running ≡ p.kids.running)

enter-Clean :
    (n : ℕ) (p : Parent)
    → p.phase ≡ spinning
    → Cared p
    → length p.kids.ended < n
    → Clean p (run (enters ∷ calls n) p)
unfolding run act enter
enter-Clean n p k h lt =
    subst (λ ph. Clean p (run (calls n) (enter ph p.is_pending p))) (sym k) (go p.is_pending (h k))
  where
    go : (b : Bool) → (b ≡ false → p.kids.ended ≡ []) → Clean p (run (calls n) (enter spinning b p))
    go true e =
        let q : Parent = record p { is_pending = false; phase = handling } in
        let (k', e', _, r) = calls_leave n q refl lt in (k', e', r)
    go false e = subst (Clean p) (sym (calls_idle n p k)) (k, e refl, refl)

-- A parent that has not called abort comes out of its handler, or enters it and comes out, with no
-- zombie left.
run_settles :
    (n : ℕ) (p : Parent)
    → p.phase ≢ aborted
    → Cared p
    → length p.kids.ended < n
    → Clean p (run (settle n) p)
run_settles n p h cared lt =
    subst (Clean p) (sym (run-append (calls n) (enters ∷ calls n) p)) (go p.phase refl)
  where
    go : (ph : Phase) → p.phase ≡ ph → Clean p (run (enters ∷ calls n) (run (calls n) p))
    go aborted k = absurd (h k)
    go spinning k =
        subst (λ q. Clean p (run (enters ∷ calls n) q)) (sym (calls_idle n p k))
          (enter-Clean n p k cared lt)
    go handling k =
        let (k', e', _, r) = calls_leave n p k lt in
        let (l, f, r') =
          enter-Clean n (run (calls n) p) k' (λ _ _. e') (omega (arith, ap length e')) in
        (l, f, r' ∙ r)

-- Behind both forks, with what happened between them.
abbrev pub launched : ℕ → ℕ → ℕ → List Move → Parent
launched a b self between =
    tell (introduced (codes "PARENT") self) (with_child b (run between (with_child a childless)))

size-act : (m : Move) (p : Parent) → size (act m p).kids ≤ size p.kids
unfolding act enter child_handler wait_nohang
size-act (ends pid) p = omega (arith, size-end_child pid p.kids)
size-act enters p = ground arith
size-act reaps p = ground arith
size-act reap_fails p = ground arith

size-run : (ms : List Move) (p : Parent) → size (run ms p).kids ≤ size p.kids
unfolding run
size-run [] p = omega arith
size-run (m ∷ ms) p = omega (arith, size-act m p, size-run ms (act m p))

go_on-spinning :
    (b self : ℕ) (execs : Bool) (later : List Move) (p : Parent)
    → p.phase ≡ spinning
    → go_on (in_parent b) self execs later p
      ≡ goes_on (run later (tell (introduced (codes "PARENT") self) (with_child b p)))
unfolding go_on
go_on-spinning b self execs later p h = ground arith

size-launched : (between : List Move) (a b self : ℕ) → size (launched a b self between).kids ≤ 2
size-launched between a b self =
    let m = run between (with_child a childless) in
    omega (arith, length-append m.kids.running (b ∷ []), size-run between (with_child a childless))

launched-accounted :
    (n a b self : ℕ) (between : List Move)
    → accounted n (launched a b self between) ≡ hit n a + hit n b
launched-accounted n a b self between =
    let m = run between (with_child a childless) in
    omega (
      arith,
      count-append n m.kids.running (b ∷ []),
      run-accounted n between (with_child a childless),
    )

-- When the handler has returned between the two forks, the parent has not called abort, and both
-- children have ended by some time, then once the handler has come to its end, three calls of waitpid
-- on each run being enough, each child has been reported once and no other pid, and none is left.
pub main_collects :
    (between later : List Move) (a b self : ℕ) (execs : Bool)
    → (run between (with_child a childless)).phase ≡ spinning
    → (run later (launched a b self between)).phase ≢ aborted
    → (run later (launched a b self between)).kids.running ≡ []
    → (p : Parent) × (main (in_parent a) (in_parent b) self execs between (later ++ settle 3)
        ≡ goes_on p)
      × (p.kids.ended ≡ [])
      × ((n : ℕ) → count n (reports p.told) ≡ hit n a + hit n b)
unfolding main go_on
main_collects between later a b self execs h k e =
    let l = launched a b self between in
    let l' = run later l in
    let few : length l'.kids.ended < 3 =
      omega (arith, size-run later l, size-launched between a b self) in
    let cared : Cared l' =
      run-Cared later l (λ _. run-Cared between (with_child a childless) (λ _ _. refl) h) in
    let (_, f, r) = run_settles 3 l' k cared few in
    (
      run (settle 3) l',
      go_on-spinning b self execs (later ++ settle 3) _ h
          ∙ ap goes_on (run-append later (settle 3) l),
      f,
      λ n. omega (
        arith,
        run-accounted n (settle 3) l',
        run-accounted n later l,
        launched-accounted n a b self between,
        ap (count n) f,
        ap (count n) (r ∙ e),
      ),
    )
