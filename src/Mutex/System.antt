-- ===== src/Mutex/System.antt =====
-- The thread functions of ch08/ex05.c and ch08/exercise.c, one move for each statement that touches
-- shared state, and their interleavings. The mutex is free or taken; a lock waits until it is free.
use linux_systemprogramming.Common.{
  ℕ, suc, ◌+◌, ◌<◌, ◌≤◌, ◌≡◌, Bool, true, false, List, [], ◌∷◌, ◌++◌, map,
}
use linux_systemprogramming.Common.Text.{CString, codes}

-- What is printed, newest first; a text with a number is kept as its number.
pub data Event : Type 0 where
  announced_from : CString → ℕ → Event
  printed_count : ℕ → Event
  complained : CString → Event

-- Where the two programs differ: the rounds of the loop, what is printed behind the lock, and
-- whether the results of lock and unlock are tested.
pub record Program : Type 0 where
  pub rounds : ℕ
  pub announcement : CString → ℕ → List Event
  pub is_checked : Bool

abbrev pub ex05 : Program
ex05 = record {
  rounds = 10;
  announcement = λ name n. announced_from name n ∷ [];
  is_checked = true;
}

abbrev pub exercise : Program
exercise = record { rounds = 5; announcement = λ name n. []; is_checked = false }

-- Where a thread is: at the test of the loop, behind the lock, behind the announcement, with `temp`,
-- behind the store, behind the print, at the end, or returned early.
pub data Place : Type 0 where
  waiting locked announced stored shown ended gave_up stuck : Place
  loaded : ℕ → Place

pub record Thread : Type 0 where
  pub name : CString
  pub round : ℕ
  pub place : Place

pub record Shared : Type 0 where
  pub is_taken : Bool
  pub counter : ℕ
  pub log : List Event

pub data Move (p : Program) : Shared → Thread → Shared → Thread → Type 0 where
  lock :
      (c : ℕ) (l : List Event) (n : CString) (k : ℕ)
      → k < p.rounds
      → Move p
          (record { is_taken = false; counter = c; log = l })
          (record { name = n; round = k; place = waiting })
          (record { is_taken = true; counter = c; log = l })
          (record { name = n; round = k; place = locked })
  fail_lock :
      (m : Shared) (n : CString) (k : ℕ)
      → p.is_checked ≡ true
      → k < p.rounds
      → Move p m
          (record { name = n; round = k; place = waiting })
          (record m { log = complained (codes "pthread_mutex_lock") ∷ m.log })
          (record { name = n; round = k; place = gave_up })
  announce :
      (m : Shared) (n : CString) (k : ℕ)
      → Move p m
          (record { name = n; round = k; place = locked })
          (record m { log = p.announcement n m.counter ++ m.log })
          (record { name = n; round = k; place = announced })
  load :
      (m : Shared) (n : CString) (k : ℕ)
      → Move p m
          (record { name = n; round = k; place = announced })
          m
          (record { name = n; round = k; place = loaded m.counter })
  store :
      (m : Shared) (n : CString) (k temp : ℕ)
      → Move p m
          (record { name = n; round = k; place = loaded temp })
          (record m { counter = temp + 1 })
          (record { name = n; round = k; place = stored })
  show :
      (m : Shared) (n : CString) (k : ℕ)
      → Move p m
          (record { name = n; round = k; place = stored })
          (record m { log = printed_count m.counter ∷ m.log })
          (record { name = n; round = k; place = shown })
  unlock :
      (m : Shared) (n : CString) (k : ℕ)
      → Move p m
          (record { name = n; round = k; place = shown })
          (record m { is_taken = false })
          (record { name = n; round = suc k; place = waiting })
  fail_unlock :
      (m : Shared) (n : CString) (k : ℕ)
      → p.is_checked ≡ true
      → Move p m
          (record { name = n; round = k; place = shown })
          (record m { log = complained (codes "pthread_mutex_unlock") ∷ m.log })
          (record { name = n; round = k; place = stuck })
  leave :
      (m : Shared) (n : CString) (k : ℕ)
      → p.rounds ≤ k
      → Move p m
          (record { name = n; round = k; place = waiting })
          m
          (record { name = n; round = k; place = ended })

pub record System : Type 0 where
  pub shared : Shared
  pub threads : List Thread

-- Any thread moves.
pub data Step (p : Program) : System → System → Type 0 where
  pick :
      (before behind : List Thread) {m m' : Shared} {t t' : Thread}
      → Move p m t m' t'
      → Step p
          (record { shared = m; threads = before ++ t ∷ behind })
          (record { shared = m'; threads = before ++ t' ∷ behind })

abbrev pub fresh : CString → Thread
fresh n = record { name = n; round = 0; place = waiting }

-- Behind pthread_create.
abbrev pub start : List CString → System
start names = record {
  shared = record { is_taken = false; counter = 0; log = [] };
  threads = map fresh names;
}

-- The states that are reached in so many steps.
pub data Reach (p : Program) (names : List CString) : ℕ → System → Type 0 where
  here : Reach p names 0 (start names)
  next : {n : ℕ} {s t : System} → Reach p names n s → Step p s t → Reach p names (suc n) t

-- The threads of the two programs.
abbrev pub ex05_threads : List CString
ex05_threads = codes "thread1" ∷ codes "thread2" ∷ []

abbrev pub exercise_threads : List CString
exercise_threads = [] ∷ [] ∷ [] ∷ []
