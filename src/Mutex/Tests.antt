-- ===== src/Mutex/Tests.antt =====
-- The counting threads of ch08/ex05.c on concrete runs.
use linux_systemprogramming.Common.{
  ℕ, suc, ◌+◌, ◌*◌, ◌≤◌, ◌<◌, ◌≡◌, ◌⊎◌, refl, true, List, [], ◌∷◌, length, all, arith,
}
use linux_systemprogramming.Common.Text.{CString, codes}
use linux_systemprogramming.Mutex.System.{
  Event, announced_from, printed_count, ex05, leave, System, Step, pick, Reach, here, next,
  ex05_threads, ended, exercise, exercise_threads,
}
use linux_systemprogramming.Mutex.Sums.{total, holds, prints, pending}
use linux_systemprogramming.Mutex.Invariant.{numbers, countdown, IsQuiet}
use linux_systemprogramming.Mutex.Runs.{free, at_test, at_end, turn, finish}
use linux_systemprogramming.Mutex.Main.{ExerciseEnds, returned, exercise_counts}
use linux_systemprogramming.Mutex.Exact.{Reach-counts}
use linux_systemprogramming.Mutex.Ending.{is_over, Reach-ends}

ex05-IsQuiet : IsQuiet ex05
ex05-IsQuiet name n l = refl

abbrev first : CString
first = codes "thread1"

abbrev second : CString
second = codes "thread2"

-- A state of a run of ex05, with how it was reached.
record Run : Type 0 where
  steps : ℕ
  state : System
  reach : Reach ex05 ex05_threads steps state

-- One round of each thread.
both :
    (k c : ℕ) (l : List Event) {i : ℕ}
    → k < 10
    → Reach ex05 ex05_threads i
        (record { shared = free c l; threads = at_test first k ∷ at_test second k ∷ [] })
    → Reach ex05 ex05_threads
        (suc (suc (suc (suc (suc (suc (suc (suc (suc (suc (suc (suc i))))))))))))
        (record {
          shared = free (c + 1 + 1) (
              printed_count (c + 1 + 1)
              ∷ announced_from second (c + 1)
              ∷ printed_count (c + 1)
              ∷ announced_from first c
              ∷ l);
          threads = at_test first (suc k) ∷ at_test second (suc k) ∷ [];
        })
both k c l lt r =
    turn ex05 ex05_threads (at_test first (suc k) ∷ []) [] second (c + 1) _ k lt
      (turn ex05 ex05_threads [] (at_test second k ∷ []) first c l k lt r)

abbrev all_rounds : Run
all_rounds =
    let r0 = here in
    let r1 = both 0 0 _ (omega arith) r0 in
    let r2 = both 1 2 _ (omega arith) r1 in
    let r3 = both 2 4 _ (omega arith) r2 in
    let r4 = both 3 6 _ (omega arith) r3 in
    let r5 = both 4 8 _ (omega arith) r4 in
    let r6 = both 5 10 _ (omega arith) r5 in
    let r7 = both 6 12 _ (omega arith) r6 in
    let r8 = both 7 14 _ (omega arith) r7 in
    let r9 = both 8 16 _ (omega arith) r8 in
    let r10 = both 9 18 _ (omega arith) r9 in
    let r11 = next r10 (pick [] (at_test second 10 ∷ []) (leave _ first 10 (omega arith))) in
    record {
      steps = _;
      state = _;
      reach = next r11 (
          pick (record { name = first; round = 10; place = ended } ∷ []) []
            (leave _ second 10 (omega arith)));
    }

all_rounds_text : all_rounds.state.shared.counter ≡ 20
all_rounds_text = refl

Reach-counts_example :
    (total holds all_rounds.state.threads ≤ 1)
    × (numbers all_rounds.state.shared.log ≡ countdown (total prints all_rounds.state.threads))
    × (all_rounds.state.shared.counter
        ≡ total prints all_rounds.state.threads + total pending all_rounds.state.threads)
Reach-counts_example = Reach-counts ex05 ex05_threads ex05-IsQuiet all_rounds.reach

Reach-ends_example :
    (all_rounds.steps ≤ length ex05_threads * (6 * ex05.rounds + 1))
    × ((all is_over all_rounds.state.threads ≡ true)
        ⊎ ((t : System) × Step ex05 all_rounds.state t))
Reach-ends_example = Reach-ends ex05 ex05_threads ex05-IsQuiet all_rounds.reach refl

-- The three threads of exercise.c, one after the other.
abbrev one_by_one : (s : System) × ExerciseEnds s
one_by_one =
    let (c, l, k, i, r) =
      finish exercise exercise_threads [] (at_test [] 0 ∷ at_test [] 0 ∷ []) [] 5 0 [] 0 refl
        here in
    let (c', l', k', i', r') =
      finish exercise exercise_threads (at_end [] k ∷ []) (at_test [] 0 ∷ []) [] 5 c l 0 refl r in
    let (c'', l'', k'', i'', r'') =
      finish exercise exercise_threads (at_end [] k ∷ at_end [] k' ∷ []) [] [] 5 c' l' 0 refl r' in
    (
      record { shared = free c'' l''; threads = at_end [] k ∷ at_end [] k' ∷ at_end [] k'' ∷ [] },
      returned r'' refl,
    )

exercise_counts_example :
    (one_by_one.0.shared.counter ≡ 15) × (numbers one_by_one.0.shared.log ≡ countdown 15)
exercise_counts_example = exercise_counts one_by_one.1
