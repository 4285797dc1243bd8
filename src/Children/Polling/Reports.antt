-- ===== src/Children/Polling/Reports.antt =====
-- ch05/ex04.c: the parent reports each child once and then ends.
use linux_systemprogramming.Common.{
  ℕ, ◌+◌, ◌≤◌, ◌<◌, ◌≡◌, refl, ap, ◌∙◌, List, [], ◌∷◌, ◌++◌, length, ◌==◌, hit, Bool-cases, inl,
  inr, arith,
}
use linux_systemprogramming.Children.{
  Kids, in_parent, wait_nohang, end_child, end_all, remove, count, among, size, among-end_all,
  size-end_all,
}
use linux_systemprogramming.Children.Polling.{
  Event, reported, Parent, End, exited, work, round, collect, newborn, main, reports, accounted,
}

work-keeps :
    (n : ℕ) (p : Parent) → (reports (work p).told ≡ reports p.told) × ((work p).kids ≡ p.kids)
unfolding work
work-keeps n p = elim (Bool-cases (p.i == 100_000)) [
  | inl e ↦ rw e (refl, refl)
  | inr e ↦ rw e (refl, refl)
]

module _ (n : ℕ) (p : Parent) (next : Parent → End) where
  round-accounted :
      (k : Kids)
      → ((q : Parent) → accounted n (next q) ≡ count n (reports q.told) + among n q.kids)
      → accounted n (round k p next) ≡ count n (reports p.told) + among n k
  unfolding round wait_nohang
  round-accounted k hyp = go k.running k.ended
    where
      go :
          (r e : List ℕ)
          → let now : Kids = record { running = r; ended = e } in
            accounted n (round now p next) ≡ count n (reports p.told) + among n now
      go r (pid ∷ e) =
          let now = record p {
            kids = record { running = r; ended = e };
            told = reported pid ∷ p.told;
          } in
          omega (arith, hyp now)
      go (pid ∷ r) [] =
          let q = record p { kids = record { running = pid ∷ r; ended = [] } } in
          let (told, kids) = work-keeps n q in
          omega (arith, hyp (work q), ap (count n) told, ap (among n) kids)
      go [] [] = omega arith

-- No call of waitpid makes or loses a child, in any round.
collect-accounted :
    (n : ℕ) (calls : List (List ℕ)) (p : Parent)
    → accounted n (collect calls p) ≡ count n (reports p.told) + among n p.kids
unfolding collect
collect-accounted n [] p = refl
collect-accounted n (pids ∷ later) p = omega (
  arith,
  round-accounted n p (collect later) (end_all pids p.kids) (collect-accounted n later),
  among-end_all n pids p.kids,
)

abbrev pub remove_all : List ℕ → List ℕ → List ℕ
remove_all [] running = running
remove_all (pid ∷ pids) running = remove_all pids (remove pid running)

-- The children that are left when these have ended.
abbrev pub left_of : List (List ℕ) → List ℕ → List ℕ
left_of [] running = running
left_of (pids ∷ later) running = left_of later (remove_all pids running)

running-end_all : (pids : List ℕ) (k : Kids) → (end_all pids k).running ≡ remove_all pids k.running
unfolding end_all end_child
running-end_all [] k = refl
running-end_all (pid ∷ pids) k = running-end_all pids (end_child pid k)

remove_all-nil : (pids : List ℕ) → remove_all pids [] ≡ []
remove_all-nil [] = refl
remove_all-nil (pid ∷ pids) = remove_all-nil pids

abbrev Exits : End → Type 0
Exits e = (told : List Event) × (e ≡ exited 0 told)

-- A round collects a child, or leaves them, or is the last; it leaves them only if one is running.
round-Exits :
    (k : Kids) (p : Parent) (next : Parent → End)
    → ((q : Parent)
        → q.kids.running ≡ k.running
        → size q.kids ≤ size k
        → (k.running ≡ [] → size q.kids < size k)
        → Exits (next q))
    → Exits (round k p next)
unfolding round wait_nohang
round-Exits k p next = go k.running k.ended
  where
    go :
        (r e : List ℕ)
        → let k : Kids = record { running = r; ended = e } in
          ((q : Parent)
            → q.kids.running ≡ r
            → size q.kids ≤ size k
            → (r ≡ [] → size q.kids < size k)
            → Exits (next q))
          → Exits (round k p next)
    go r (pid ∷ e) hyp = hyp _ refl (omega arith) (λ _. omega arith)
    go (pid ∷ r) [] hyp =
        let q : Parent = record p { kids = record { running = pid ∷ r; ended = [] } } in
        let e = (work-keeps 0 q).1 in
        hyp (work q) (ap (λ k. k.running) e) (omega (arith, ap size e)) (λ h. cc)
    go [] [] hyp = (_, refl)

collect-Exits :
    (early late : List (List ℕ)) (p : Parent)
    → left_of early p.kids.running ≡ []
    → size p.kids < length late
    → Exits (collect (early ++ late) p)
unfolding collect
collect-Exits [] [] p h lt = absurd (omega arith)
collect-Exits [] (pids ∷ late) p h lt =
    round-Exits (end_all pids p.kids) p (collect late) (λ q e _ less.
      let none_left = running-end_all pids p.kids ∙ ap (remove_all pids) h ∙ remove_all-nil pids in
      collect-Exits [] late q (e ∙ none_left)
        (omega (arith, less none_left, size-end_all pids p.kids)))
collect-Exits (pids ∷ early) late p h lt =
    round-Exits (end_all pids p.kids) p (collect (early ++ late)) (λ q e le _.
      collect-Exits early late q (ap (left_of early) (e ∙ running-end_all pids p.kids) ∙ h)
        (omega (arith, le, size-end_all pids p.kids)))

-- When both children have ended by some call, the parent exits with status 0 at the latest three calls
-- later, and has then reported each child once and no other pid.
pub main-reports :
    (early late : List (List ℕ)) (a b self : ℕ)
    → left_of early (a ∷ b ∷ []) ≡ []
    → 2 < length late
    → (told : List Event) × (main (in_parent a) (in_parent b) self (early ++ late) ≡ exited 0 told)
      × ((n : ℕ) → count n (reports told) ≡ hit n a + hit n b)
unfolding main
main-reports early late a b self h lt =
    let (told, e) = collect-Exits early late (newborn a b) h lt in
    (
      told,
      e,
      λ n. omega (arith, collect-accounted n (early ++ late) (newborn a b), ap (accounted n) e),
    )
