-- ===== src/Mutex/Ending.antt =====
-- The counting threads come to an end: no run is longer than the loops, and none stops before.
use linux_systemprogramming.Common.{
  not-true, ℕ, suc, ◌+◌, ◌-◌, ◌*◌, ◌≤◌, ◌<◌, ◌≡◌, ◌⊎◌, inl, inr, refl, sym, ap, ◌∙◌, Bool, true,
  false, not, Bool-cases, List, [], ◌∷◌, ◌++◌, map, length, all, arith, ◌==◌, ltb, ◌&&◌, &&-left,
  &&-right, all-append,
}
use linux_systemprogramming.Common.Text.{CString}
use linux_systemprogramming.Mutex.System.{
  Program, Place, waiting, locked, announced, stored, shown, ended, gave_up, stuck, loaded, Thread,
  Shared, Move, lock, fail_lock, announce, load, store, show, unlock, fail_unlock, leave, System,
  Step, pick, fresh, Reach, here, next,
}
use linux_systemprogramming.Mutex.Sums.{total, holds, total-append}
use linux_systemprogramming.Mutex.Invariant.{IsQuiet, Reach-IsExact}

-- The moves that a thread may still make.
abbrev left : Program → Thread → ℕ
left p t = elim t.place [
  | waiting ↦ 6 * (p.rounds - t.round) + 1
  | locked ↦ 6 * (p.rounds - suc t.round) + 6
  | announced ↦ 6 * (p.rounds - suc t.round) + 5
  | loaded temp ↦ 6 * (p.rounds - suc t.round) + 4
  | stored ↦ 6 * (p.rounds - suc t.round) + 3
  | shown ↦ 6 * (p.rounds - suc t.round) + 2
  | ended ↦ 0
  | gave_up ↦ 0
  | stuck ↦ 0
]

Move-left : (p : Program) {m m' : Shared} {t t' : Thread} → Move p m t m' t' → left p t' < left p t
Move-left p (lock c l n k a) = omega arith
Move-left p (fail_lock m n k a b) = omega arith
Move-left p (announce m n k) = omega arith
Move-left p (load m n k) = omega arith
Move-left p (store m n k temp) = omega arith
Move-left p (show m n k) = omega arith
Move-left p (unlock m n k) = omega arith
Move-left p (fail_unlock m n k a) = omega arith
Move-left p (leave m n k a) = omega arith

Step-left :
    (p : Program) {s t : System} → Step p s t → total (left p) t.threads < total (left p) s.threads
Step-left p (pick before behind {m} {m'} {t} {t'} move) = omega (
  arith,
  Move-left p move,
  total-append (left p) before behind t,
  total-append (left p) before behind t',
)

fresh-left :
    (p : Program) (names : List CString)
    → total (left p) (map fresh names) ≡ length names * (6 * p.rounds + 1)
fresh-left p [] = omega arith
fresh-left p (n ∷ names) = grind (arith, fresh-left p names)

Reach-left :
    (p : Program) (names : List CString) {n : ℕ} {s : System}
    → Reach p names n s
    → n + total (left p) s.threads ≤ length names * (6 * p.rounds + 1)
Reach-left p names here = omega (arith, fresh-left p names)
Reach-left p names (next r st) = omega (arith, Reach-left p names r, Step-left p st)

abbrev pub is_over : Thread → Bool
is_over t = elim t.place [ ended ↦ true | gave_up ↦ true | _ ↦ false ]

abbrev pub is_stuck : Thread → Bool
is_stuck t = elim t.place [ stuck ↦ true | _ ↦ false ]

-- A thread that a test picks out, with those before and behind it.
record Found (f : Thread → Bool) (ts : List Thread) : Type 0 where
  before : List Thread
  behind : List Thread
  thread : Thread
  split : ts ≡ before ++ thread ∷ behind
  passes : f thread ≡ true

find : (f : Thread → Bool) (ts : List Thread) → Found f ts ⊎ (all (λ t. not (f t)) ts ≡ true)
find f [] = inr refl
find f (t ∷ ts) = elim (Bool-cases (f t)) [
  | inl e ↦ inl (record { before = []; behind = ts; thread = t; split = refl; passes = e })
  | inr e ↦ elim (find f ts) [
    | inl r ↦ inl (record {
      before = t ∷ r.before;
      behind = r.behind;
      thread = r.thread;
      split = ap (λ l. t ∷ l) r.split;
      passes = r.passes;
    })
    | inr n ↦ inr (rw (e, n) refl)
  ]
]

abbrev CanMove : Program → Shared → Thread → Type 0
CanMove p m t = (m' : Shared) × (t' : Thread) × Move p m t m' t'

abbrev is_holder : Thread → Bool
is_holder t = holds t == 1

holder-moves :
    (p : Program) (m : Shared) (t : Thread)
    → is_holder t ≡ true
    → is_stuck t ≡ false
    → CanMove p m t
holder-moves p m t h s = go t.place h s
  where
    go :
        (x : Place)
        → is_holder (record t { place = x }) ≡ true
        → is_stuck (record t { place = x }) ≡ false
        → CanMove p m (record t { place = x })
    go locked h s = (_, _, announce m t.name t.round)
    go announced h s = (_, _, load m t.name t.round)
    go (loaded temp) h s = (_, _, store m t.name t.round temp)
    go stored h s = (_, _, show m t.name t.round)
    go shown h s = (_, _, unlock m t.name t.round)
    go waiting h s = cc
    go ended h s = cc
    go gave_up h s = cc
    go stuck h s = cc

waiter-moves :
    (p : Program) (m : Shared) (t : Thread)
    → m.is_taken ≡ false
    → is_holder t ≡ false
    → is_over t ≡ false
    → CanMove p m t
waiter-moves p m t f h o = go m.is_taken t.place f h o
  where
    go :
        (b : Bool) (x : Place)
        → b ≡ false
        → is_holder (record t { place = x }) ≡ false
        → is_over (record t { place = x }) ≡ false
        → CanMove p (record m { is_taken = b }) (record t { place = x })
    go true x f h o = cc
    go false waiting f h o = elim (Bool-cases (ltb t.round p.rounds)) [
      | inl e ↦ (_, _, lock m.counter m.log t.name t.round (ground arith))
      | inr e ↦ (_, _, leave (record m { is_taken = false }) t.name t.round (ground arith))
    ]
    go false locked f h o = cc
    go false announced f h o = cc
    go false (loaded n) f h o = cc
    go false stored f h o = cc
    go false shown f h o = cc
    go false ended f h o = cc
    go false gave_up f h o = cc
    go false stuck f h o = cc

all-at :
    (f : Thread → Bool) (before behind : List Thread) (t : Thread)
    → all f (before ++ t ∷ behind) ≡ true
    → f t ≡ true
all-at f before behind t h =
    &&-left (f t) (all f behind)
      (&&-right (all f before) (f t && all f behind) (sym (all-append f before (t ∷ behind)) ∙ h))

holds_lt : (t : Thread) → holds t < 2
holds_lt t = go t.place
  where
    go : (x : Place) → holds (record t { place = x }) < 2
    go (loaded temp) = omega arith
    go waiting = omega arith
    go ended = omega arith
    go gave_up = omega arith
    go locked = omega arith
    go announced = omega arith
    go stored = omega arith
    go shown = omega arith
    go stuck = omega arith

none-holds : (ts : List Thread) → all (λ t. not (is_holder t)) ts ≡ true → total holds ts ≡ 0
none-holds [] h = refl
none-holds (t ∷ ts) h = omega (
  arith,
  none-holds ts (&&-right (not (is_holder t)) (all (λ t. not (is_holder t)) ts) h),
  zero_of t (holds_lt t)
      (not-true (is_holder t) (&&-left (not (is_holder t)) (all (λ t. not (is_holder t)) ts) h)),
)
  where
    zero_of : (t : Thread) → holds t < 2 → is_holder t ≡ false → holds t ≡ 0
    zero_of t l h = ground arith

all-not-not :
    (f : Thread → Bool) (ts : List Thread) → all (λ t. not (not (f t))) ts ≡ true → all f ts ≡ true
all-not-not f [] h = refl
all-not-not f (t ∷ ts) h = ground (arith, all-not-not f ts)

moved :
    (p : Program) (s : System) (f : Thread → Bool) (r : Found f s.threads)
    → CanMove p s.shared r.thread
    → (t : System) × Step p s t
moved p s f r (m', t', move) = (
  record { shared = m'; threads = r.before ++ t' ∷ r.behind },
  rw r.split (pick r.before r.behind move),
)

-- A run of the threads has at most six steps for each round of each thread and one more for each
-- thread; and in every state that a run reaches without a failed unlock either all threads are at
-- an end or some thread can move. So every run that goes on while it can ends with all threads at
-- an end. The announcement is taken to print no count on a line of its own.
pub Reach-ends :
    (p : Program) (names : List CString) {n : ℕ} {s : System}
    → IsQuiet p
    → Reach p names n s
    → all (λ t. not (is_stuck t)) s.threads ≡ true
    → (n ≤ length names * (6 * p.rounds + 1))
      × ((all is_over s.threads ≡ true) ⊎ ((t : System) × Step p s t))
Reach-ends p names {n} {s} q r u = (omega (arith, Reach-left p names r), progress)
  where
    free : total holds s.threads ≡ 0 → s.shared.is_taken ≡ false
    free z = let e = (Reach-IsExact p names q r).one in ground arith

    progress : (all is_over s.threads ≡ true) ⊎ ((t : System) × Step p s t)
    progress = elim (find is_holder s.threads) [
      | inl f ↦ inr (
          moved p s is_holder f (
            holder-moves p s.shared f.thread f.passes (
              not-true _
                (all-at (λ t. not (is_stuck t)) f.before f.behind f.thread (rw f.split at u)))))
      | inr none ↦ elim (find (λ t. not (is_over t)) s.threads) [
        | inl f ↦ inr (
            moved p s (λ t. not (is_over t)) f
              (waiter-moves p s.shared f.thread (free (none-holds s.threads none))
                (not-true _
                  (all-at (λ t. not (is_holder t)) f.before f.behind f.thread (rw f.split at none)))
                (not-true _ f.passes)))
        | inr over ↦ inl (all-not-not is_over s.threads over)
      ]
    ]
