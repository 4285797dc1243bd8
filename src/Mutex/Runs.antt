-- ===== src/Mutex/Runs.antt =====
-- Runs of the counting threads one after the other.
use linux_systemprogramming.Common.{ℕ, zero, suc, ◌+◌, ◌<◌, ◌≡◌, false, List, ◌∷◌, ◌++◌, arith}
use linux_systemprogramming.Common.Text.{CString}
use linux_systemprogramming.Mutex.System.{
  Event, printed_count, Program, waiting, ended, Thread, Shared, lock, announce, load, store, show,
  unlock, leave, pick, Reach, next,
}

abbrev pub free : ℕ → List Event → Shared
free c l = record { is_taken = false; counter = c; log = l }

abbrev pub at_test : CString → ℕ → Thread
at_test n k = record { name = n; round = k; place = waiting }

abbrev pub at_end : CString → ℕ → Thread
at_end n k = record { name = n; round = k; place = ended }

module _ (p : Program) (names : List CString) (before behind : List Thread) (n : CString) where
  -- One thread does a whole round while the others stay where they are.
  pub turn :
      (c : ℕ) (l : List Event) (k : ℕ) {i : ℕ}
      → k < p.rounds
      → Reach p names i (record { shared = free c l; threads = before ++ at_test n k ∷ behind })
      → Reach p names (suc (suc (suc (suc (suc (suc i)))))) (record {
        shared = free (c + 1) (printed_count (c + 1) ∷ p.announcement n c ++ l);
        threads = before ++ at_test n (suc k) ∷ behind;
      })
  turn c l k lt r =
      let r1 = next r (pick before behind (lock c l n k lt)) in
      let r2 = next r1 (pick before behind (announce _ n k)) in
      let r3 = next r2 (pick before behind (load _ n k)) in
      let r4 = next r3 (pick before behind (store _ n k c)) in
      let r5 = next r4 (pick before behind (show _ n k)) in
      next r5 (pick before behind (unlock _ n k))

  -- A thread does its last rounds and ends.
  abbrev pub Finished : Type 0
  Finished =
      (c : ℕ) × (l : List Event) × (k : ℕ) × (i : ℕ) × Reach p names i
        (record { shared = free c l; threads = before ++ at_end n k ∷ behind })

  pub finish :
      (j c : ℕ) (l : List Event) (k : ℕ) {i : ℕ}
      → j + k ≡ p.rounds
      → Reach p names i (record { shared = free c l; threads = before ++ at_test n k ∷ behind })
      → Finished
  finish zero c l k e r =
      (c, l, k, _, next r (pick before behind (leave (free c l) n k (omega (arith, e)))))
  finish (suc j) c l k e r =
      finish j (c + 1) _ (suc k) (omega (arith, e)) (turn c l k (omega (arith, e)) r)
