-- ===== src/Mutex/Main.antt =====
-- `main` of ch08/ex05.c and ch08/exercise.c around the counting threads.
use linux_systemprogramming.Common.{
  ℕ, ◌≡◌, refl, Bool, true, false, List, [], ◌∷◌, map, all, all-append, &&-left, &&-right, arith,
}
use linux_systemprogramming.Common.Text.{CString, codes}
use linux_systemprogramming.Mutex.System.{
  complained, Program, ex05, exercise, ended, gave_up, stuck, Thread, System, Step, pick, start,
  fresh, Shared, Move, lock, fail_lock, announce, load, store, show, unlock, fail_unlock, leave,
  Reach, here, next, ex05_threads, exercise_threads,
}
use linux_systemprogramming.Mutex.Invariant.{numbers, countdown, IsQuiet}
use linux_systemprogramming.Mutex.Exact.{is_ended, Reach-counts_end}

-- pthread_join comes back: the thread has returned, at its end or early.
abbrev pub has_returned : Thread → Bool
has_returned t = elim t.place [ ended ↦ true | gave_up ↦ true | stuck ↦ true | _ ↦ false ]

-- `perror("pthread_create")`
abbrev pub complain : System → System
complain s = record s {
  shared = record s.shared { log = complained (codes "pthread_create") ∷ s.shared.log };
}

-- How `main` of ex05.c ends, for the results of the two pthread_create and for what errno holds: in
-- which state and with which status. The process ends with `exit(errno)` in the middle of what its
-- first thread does.
pub data Ex05Ends (errno : ℕ) : Bool → Bool → System → ℕ → Type 0 where
  no_first : (second : Bool) → Ex05Ends errno false second (complain (start [])) errno
  no_second :
      {n : ℕ} {s : System}
      → Reach ex05 (codes "thread1" ∷ []) n s
      → Ex05Ends errno true false (complain s) errno
  joined :
      {n : ℕ} {s : System}
      → Reach ex05 ex05_threads n s
      → all has_returned s.threads ≡ true
      → Ex05Ends errno true true s 0

-- How `main` of exercise.c ends when each pthread_create succeeds, which it does not test.
pub data ExerciseEnds : System → Type 0 where
  returned :
      {n : ℕ} {s : System}
      → Reach exercise exercise_threads n s
      → all has_returned s.threads ≡ true
      → ExerciseEnds s

-- A thread has not returned early.
abbrev is_regular : Thread → Bool
is_regular t = elim t.place [ gave_up ↦ false | stuck ↦ false | _ ↦ true ]

module _ (p : Program) (names : List CString) (h : p.is_checked ≡ false) where
  Move-regular : {m m' : Shared} {t t' : Thread} → Move p m t m' t' → is_regular t' ≡ true
  Move-regular (lock c l n k lt) = refl
  Move-regular (fail_lock m n k e lt) = cc
  Move-regular (announce m n k) = refl
  Move-regular (load m n k) = refl
  Move-regular (store m n k temp) = refl
  Move-regular (show m n k) = refl
  Move-regular (unlock m n k) = refl
  Move-regular (fail_unlock m n k e) = cc
  Move-regular (leave m n k le) = refl

  Step-regular :
      {s s' : System}
      → Step p s s'
      → all is_regular s.threads ≡ true
      → all is_regular s'.threads ≡ true
  Step-regular (pick before behind {m} {m'} {t} {t'} move) e = ground (
    arith,
    all-append is_regular before (t ∷ behind),
    all-append is_regular before (t' ∷ behind),
    Move-regular move,
    e,
  )

  fresh-regular : (names : List CString) → all is_regular (map fresh names) ≡ true
  fresh-regular [] = refl
  fresh-regular (n ∷ names) = fresh-regular names

  Reach-regular : {n : ℕ} {s : System} → Reach p names n s → all is_regular s.threads ≡ true
  Reach-regular here = fresh-regular names
  Reach-regular (next r step) = Step-regular step (Reach-regular r)

one : (t : Thread) → is_regular t ≡ true → has_returned t ≡ true → is_ended t ≡ true
one t r h = ground (arith, r, h)

regular-ended :
    (ts : List Thread)
    → all is_regular ts ≡ true
    → all has_returned ts ≡ true
    → all is_ended ts ≡ true
regular-ended [] r h = refl
regular-ended (t ∷ ts) r h =
    let first = one t (&&-left _ _ r) (&&-left _ _ h) in
    let others = regular-ended ts (&&-right _ _ r) (&&-right _ _ h) in rw (first, others) refl

exercise-IsQuiet : IsQuiet exercise
exercise-IsQuiet name n l = refl

-- When `main` of exercise.c returns, in any interleaving, the counter is 15 and just the counts from 1
-- to 15 were printed, in order.
pub exercise_counts :
    {s : System} → ExerciseEnds s → (s.shared.counter ≡ 15) × (numbers s.shared.log ≡ countdown 15)
exercise_counts (returned {n} {s} r h) =
    Reach-counts_end exercise exercise_threads exercise-IsQuiet r
      (regular-ended s.threads (Reach-regular exercise exercise_threads refl r) h)

ex05-IsQuiet : IsQuiet ex05
ex05-IsQuiet name n l = refl

-- When `main` of ex05.c returns and no lock or unlock has failed, the counter is 20.
ex05_counts :
    (errno : ℕ) {s : System}
    → Ex05Ends errno true true s 0
    → all is_ended s.threads ≡ true
    → (s.shared.counter ≡ 20) × (numbers s.shared.log ≡ countdown 20)
ex05_counts errno (joined r h) e = Reach-counts_end ex05 ex05_threads ex05-IsQuiet r e
