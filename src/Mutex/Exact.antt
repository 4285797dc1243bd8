-- ===== src/Mutex/Exact.antt =====
-- What the counting threads promise: exclusion, no lost update, and an end.
use linux_systemprogramming.Common.{
  ℕ, ◌+◌, ◌*◌, ◌≤◌, ◌≡◌, refl, sym, ap, ◌∙◌, Bool, true, false, List, [], ◌∷◌, ◌++◌, map, length,
  all, arith, &&-left, &&-right,
}
use linux_systemprogramming.Common.Text.{CString}
use linux_systemprogramming.Mutex.System.{
  Program, Place, waiting, locked, announced, stored, shown, ended, gave_up, stuck, loaded, Thread,
  System, Step, pick, fresh, Reach, here, next,
}
use linux_systemprogramming.Mutex.Sums.{total, holds, pending, prints, misplaced}
use linux_systemprogramming.Mutex.Invariant.{numbers, countdown, IsQuiet, Reach-IsExact}

abbrev pub is_ended : Thread → Bool
is_ended t = elim t.place [ ended ↦ true | _ ↦ false ]

ended-prints :
    (p : Program) (t : Thread)
    → is_ended t ≡ true
    → misplaced p t ≡ 0
    → (prints t ≡ p.rounds) × (pending t ≡ 0)
ended-prints p t e k = go t.place e k
  where
    go :
        (x : Place)
        → is_ended (record t { place = x }) ≡ true
        → misplaced p (record t { place = x }) ≡ 0
        → (prints (record t { place = x }) ≡ p.rounds) × (pending (record t { place = x }) ≡ 0)
    go ended e k = (ground (arith, k), refl)
    go waiting e k = cc
    go locked e k = cc
    go announced e k = cc
    go stored e k = cc
    go shown e k = cc
    go gave_up e k = cc
    go stuck e k = cc
    go (loaded n) e k = cc

-- Threads that have all ended have done all their rounds.
ended-total :
    (p : Program) (ts : List Thread)
    → all is_ended ts ≡ true
    → total (misplaced p) ts ≡ 0
    → (total prints ts ≡ length ts * p.rounds) × (total pending ts ≡ 0)
ended-total p [] e k = (omega arith, refl)
ended-total p (t ∷ ts) e k =
    let (a, b) = ended-prints p t (&&-left (is_ended t) (all is_ended ts) e) (omega (arith, k)) in
    let (c, d) = ended-total p ts (&&-right (is_ended t) (all is_ended ts) e) (omega (arith, k)) in
    (grind (arith, a, c), omega (arith, b, d))

length-split :
    (before behind : List Thread) (t t' : Thread)
    → length (before ++ t ∷ behind) ≡ length (before ++ t' ∷ behind)
length-split [] behind t t' = refl
length-split (b ∷ before) behind t t' = omega (arith, length-split before behind t t')

Step-length : (p : Program) {s t : System} → Step p s t → length s.threads ≡ length t.threads
Step-length p (pick before behind {m} {m'} {t} {t'} move) = length-split before behind t t'

length-fresh : (names : List CString) → length (map fresh names) ≡ length names
length-fresh [] = refl
length-fresh (n ∷ names) = omega (arith, length-fresh names)

Reach-length :
    (p : Program) (names : List CString) {n : ℕ} {s : System}
    → Reach p names n s
    → length s.threads ≡ length names
Reach-length p names here = length-fresh names
Reach-length p names (next r st) = sym (Step-length p st) ∙ Reach-length p names r

-- In every interleaving two threads never hold the mutex together; what was printed are the counts 1,
-- 2, 3 and so on, each once; and the counter is the number of counts printed, and one more between
-- a store and its print. Lock and unlock may fail where their results are tested; the announcement
-- is taken to print no count on a line of its own.
pub Reach-counts :
    (p : Program) (names : List CString) {n : ℕ} {s : System}
    → IsQuiet p
    → Reach p names n s
    → (total holds s.threads ≤ 1)
      × (numbers s.shared.log ≡ countdown (total prints s.threads))
      × (s.shared.counter ≡ total prints s.threads + total pending s.threads)
Reach-counts p names {n} {s} q r =
    let h = Reach-IsExact p names q r in (ground (arith, h.one), h.ordered, h.counted)

-- When all threads have ended by the test of their loop, in any interleaving, the counter is the
-- number of threads times the number of rounds, and just the counts up to it were printed, in order;
-- for an announcement that prints no count on a line of its own.
pub Reach-counts_end :
    (p : Program) (names : List CString) {n : ℕ} {s : System}
    → IsQuiet p
    → Reach p names n s
    → all is_ended s.threads ≡ true
    → (s.shared.counter ≡ length names * p.rounds)
      × (numbers s.shared.log ≡ countdown (length names * p.rounds))
Reach-counts_end p names {n} {s} q r e =
    let h = Reach-IsExact p names q r in
    let (a, b) = ended-total p s.threads e h.punctual in
    let whole = a ∙ ap (λ k. k * p.rounds) (Reach-length p names r) in
    (omega (arith, h.counted, b, whole), h.ordered ∙ ap countdown whole)
