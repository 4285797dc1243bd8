-- ===== src/Semaphore/SetUp.antt =====
-- The beginnings and the ends of ch07/exercise-3.c and ch07/exercise-4.c, with their error exits.
use linux_systemprogramming.Common.{ℕ, Bool, true, false, Option, none, some, List, [], ◌∷◌}
use linux_systemprogramming.Common.Text.{CString, codes}

-- What shmat gives: NULL, the `(void *)-1` of an error, or an address.
pub data Attached : Type 0 where
  null : Attached
  minus_one : Attached
  mapped : Attached

-- The answers of the calls; shmget and semget are asked with IPC_EXCL first.
pub record Answers : Type 0 where
  pub shm_created : Option ℕ
  pub shm_opened : Option ℕ
  pub sem_created : Option ℕ
  pub sem_opened : Option ℕ
  pub shmat : Attached
  pub shmdt : Bool
  pub shmctl : Bool

-- `exit(1)` behind perror, or the identifiers and the address.
pub data SetUp : Type 0 where
  gave_up : CString → SetUp
  ready : ℕ → ℕ → Attached → SetUp

abbrev pub first_of : Option ℕ → Option ℕ → Option ℕ
first_of (some id) opened = some id
first_of none opened = opened

-- Only NULL is taken for an error of shmat.
abbrev attach : Answers → ℕ → ℕ → SetUp
attach a shmid semid = elim a.shmat [
  | null ↦ gave_up (codes "shmat")
  | minus_one ↦ ready shmid semid minus_one
  | mapped ↦ ready shmid semid mapped
]

abbrev find_semaphores : Answers → ℕ → SetUp
find_semaphores a shmid = elim (first_of a.sem_created a.sem_opened) [
  | none ↦ gave_up (codes "semget")
  | some semid ↦ attach a shmid semid
]

-- Both programs; the sender sets the two semaphores in front of shmat.
unfoldable pub begin : Answers → SetUp
begin a = elim (first_of a.shm_created a.shm_opened) [
  | none ↦ gave_up (codes "shmget")
  | some shmid ↦ find_semaphores a shmid
]

-- What is removed at the end; IPC_RMID removes the whole set of semaphores, by either index.
pub data Removed : Type 0 where
  semaphores : Removed
  memory : Removed

-- Behind the loop of the sender: the status, what is told, and what is removed.
unfoldable pub sender_end : Answers → ℕ × List CString × List Removed
sender_end a = elim a.shmdt [
  | false ↦ (1, codes "shmdt" ∷ [], [])
  | true ↦ (0, [], semaphores ∷ semaphores ∷ [])
]

-- Behind the loop of the receiver.
unfoldable pub receiver_end : Answers → ℕ × List CString × List Removed
receiver_end a = elim a.shmdt [
  | false ↦ (1, codes "shmdt" ∷ [], [])
  | true ↦ elim a.shmctl [
    | false ↦ (1, codes "shmctl" ∷ [], [])
    | true ↦ (0, [], memory ∷ semaphores ∷ [])
  ]
]
