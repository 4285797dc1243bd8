-- ===== src/Children.antt =====
-- The children of a process as waitpid(-1, .., WNOHANG) sees them: those that run and those that
-- have ended and are not yet waited for, the first one to end in front.
pub mod Polling
pub mod Reaping
pub mod Waiting
mod Tests
use linux_systemprogramming.Common.{
  ℕ, ◌+◌, ◌≤◌, ◌≡◌, refl, ◌∙◌, Bool, true, false, ◌||◌, List, [], ◌∷◌, ◌++◌, if◌then◌else◌, ◌==◌,
  hit, length, length-append, Bool-cases, inl, inr, arith,
}

pub record Kids : Type 0 where
  pub running : List ℕ
  pub ended : List ℕ

abbrev pub count : ℕ → List ℕ → ℕ
count n [] = 0
count n (m ∷ ms) = hit n m + count n ms

abbrev pub is_in : ℕ → List ℕ → Bool
is_in n [] = false
is_in n (m ∷ ms) = (n == m) || is_in n ms

abbrev pub remove : ℕ → List ℕ → List ℕ
remove n [] = []
remove n (m ∷ ms) = let rest = remove n ms in if n == m then ms else m ∷ rest

-- A child ends; for a pid that is not a running child nothing happens.
unfoldable pub end_child : ℕ → Kids → Kids
end_child pid k = record {
  running = remove pid k.running;
  ended = if is_in pid k.running then k.ended ++ pid ∷ [] else k.ended;
}

-- What fork says in the process: -1, 0 or the pid of the child.
pub data Forked : Type 0 where
  fork_failed : Forked
  in_child : Forked
  in_parent : ℕ → Forked

pub data Answer : Type 0 where
  child : ℕ → Answer
  nothing_yet : Answer
  no_children : Answer

-- `waitpid(-1, NULL, WNOHANG)`: the pid of a child that has ended, 0 if all of them still run, or -1
-- with ECHILD if there are none.
unfoldable pub wait_nohang : Kids → Answer × Kids
wait_nohang k = elim k.ended [
  | pid ∷ pids ↦ (child pid, record k { ended = pids })
  | [] ↦ elim k.running [ [] ↦ (no_children, k) | pid ∷ pids ↦ (nothing_yet, k) ]
]

-- How often a pid is among the children, and how many there are.
abbrev pub among : ℕ → Kids → ℕ
among n k = count n k.running + count n k.ended

abbrev pub size : Kids → ℕ
size k = length k.running + length k.ended

pub count-append : (n : ℕ) (xs ys : List ℕ) → count n (xs ++ ys) ≡ count n xs + count n ys
count-append n [] ys = omega arith
count-append n (x ∷ xs) ys = omega (arith, count-append n xs ys)

count-remove :
    (n m : ℕ) (l : List ℕ) → is_in m l ≡ true → count n l ≡ hit n m + count n (remove m l)
count-remove n m [] h = cc
count-remove n m (x ∷ xs) h = elim (Bool-cases (m == x)) [
  | inl e ↦ rw e (ground arith)
  | inr e ↦ rw e (let k = count-remove n m xs (ground arith) in omega (arith, k))
]

remove-absent : (m : ℕ) (l : List ℕ) → is_in m l ≡ false → remove m l ≡ l
remove-absent m [] h = refl
remove-absent m (x ∷ xs) h = ground (arith, remove-absent m xs)

length-remove : (m : ℕ) (l : List ℕ) → is_in m l ≡ true → length l ≡ 1 + length (remove m l)
length-remove m [] h = cc
length-remove m (x ∷ xs) h = elim (Bool-cases (m == x)) [
  | inl e ↦ rw e (omega arith)
  | inr e ↦ rw e (let k = length-remove m xs (ground arith) in omega (arith, k))
]

-- No end makes or loses a child.
pub among-end_child : (n pid : ℕ) (k : Kids) → among n (end_child pid k) ≡ among n k
unfolding end_child
among-end_child n pid k = elim (Bool-cases (is_in pid k.running)) [
  | inl e ↦ rw e (omega (arith, count-remove n pid k.running e, count-append n k.ended (pid ∷ [])))
  | inr e ↦ rw (e, remove-absent pid k.running e) refl
]

pub size-end_child : (pid : ℕ) (k : Kids) → size (end_child pid k) ≡ size k
unfolding end_child
size-end_child pid k = elim (Bool-cases (is_in pid k.running)) [
  | inl e ↦ rw e (omega (arith, length-remove pid k.running e, length-append k.ended (pid ∷ [])))
  | inr e ↦ rw (e, remove-absent pid k.running e) refl
]

-- Several children end.
unfoldable pub end_all : List ℕ → Kids → Kids
unfolding end_child
end_all [] k = k
end_all (pid ∷ pids) k = end_all pids (end_child pid k)

pub among-end_all : (n : ℕ) (pids : List ℕ) (k : Kids) → among n (end_all pids k) ≡ among n k
unfolding end_all
among-end_all n [] k = refl
among-end_all n (pid ∷ pids) k = among-end_all n pids (end_child pid k) ∙ among-end_child n pid k

pub size-end_all : (pids : List ℕ) (k : Kids) → size (end_all pids k) ≡ size k
unfolding end_all
size-end_all [] k = refl
size-end_all (pid ∷ pids) k = size-end_all pids (end_child pid k) ∙ size-end_child pid k
