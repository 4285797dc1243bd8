-- ===== src/Mutex/Sums.antt =====
-- Sums over the threads of ch08/ex05.c and ch08/exercise.c.
use linux_systemprogramming.Common.{
  ℕ, suc, ◌+◌, ◌≤◌, ◌≡◌, refl, List, [], ◌∷◌, ◌++◌, arith, if◌then◌else◌, ◌==◌, ltb, leb,
}
use linux_systemprogramming.Mutex.System.{
  Place, waiting, locked, announced, stored, shown, ended, gave_up, stuck, loaded, Thread, Program,
}

abbrev pub total : (Thread → ℕ) → List Thread → ℕ
total w [] = 0
total w (t ∷ ts) = w t + total w ts

-- 1 for a thread that holds the mutex.
abbrev pub holds : Thread → ℕ
holds t = elim t.place [
  | waiting ↦ 0
  | ended ↦ 0
  | gave_up ↦ 0
  | locked ↦ 1
  | announced ↦ 1
  | loaded temp ↦ 1
  | stored ↦ 1
  | shown ↦ 1
  | stuck ↦ 1
]

-- 1 for a thread that has stored and not yet printed.
abbrev pub pending : Thread → ℕ
pending t = elim t.place [ stored ↦ 1 | _ ↦ 0 ]

-- How often a thread has printed the counter.
abbrev pub prints : Thread → ℕ
prints t = elim t.place [ shown ↦ suc t.round | stuck ↦ suc t.round | _ ↦ t.round ]

-- 1 for a thread whose `temp` is not the counter.
abbrev pub stale : ℕ → Thread → ℕ
stale c t = elim t.place [ loaded temp ↦ (if temp == c then 0 else 1) | _ ↦ 0 ]

-- 1 for a thread that is past its last round, or at the end before it.
abbrev pub misplaced : Program → Thread → ℕ
misplaced p t = elim t.place [
  | waiting ↦ (if leb t.round p.rounds then 0 else 1)
  | ended ↦ (if t.round == p.rounds then 0 else 1)
  | gave_up ↦ 0
  | stuck ↦ 0
  | _ ↦ (if ltb t.round p.rounds then 0 else 1)
]

pub total-append :
    (w : Thread → ℕ) (before behind : List Thread) (t : Thread)
    → total w (before ++ t ∷ behind) ≡ w t + total w (before ++ behind)
total-append w [] behind t = refl
total-append w (b ∷ before) behind t = omega (arith, total-append w before behind t)

pub total_le :
    (w v : Thread → ℕ) → ((t : Thread) → w t ≤ v t) → (ts : List Thread) → total w ts ≤ total v ts
total_le w v h [] = omega arith
total_le w v h (t ∷ ts) = omega (arith, total_le w v h ts, h t)

pub stale-holds : (c : ℕ) (t : Thread) → stale c t ≤ holds t
stale-holds c t = go t.place
  where
    go : (x : Place) → stale c (record t { place = x }) ≤ holds (record t { place = x })
    go (loaded temp) = ground arith
    go waiting = omega arith
    go ended = omega arith
    go gave_up = omega arith
    go locked = omega arith
    go announced = omega arith
    go stored = omega arith
    go shown = omega arith
    go stuck = omega arith

pub pending-holds : (t : Thread) → pending t ≤ holds t
pending-holds t = go t.place
  where
    go : (x : Place) → pending (record t { place = x }) ≤ holds (record t { place = x })
    go (loaded temp) = omega arith
    go waiting = omega arith
    go ended = omega arith
    go gave_up = omega arith
    go locked = omega arith
    go announced = omega arith
    go stored = omega arith
    go shown = omega arith
    go stuck = omega arith
