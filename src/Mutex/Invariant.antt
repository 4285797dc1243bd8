-- ===== src/Mutex/Invariant.antt =====
-- What holds after every step of the counting threads.
use linux_systemprogramming.Common.{
  ℕ, zero, suc, ◌+◌, ◌≡◌, refl, sym, ap, ◌∙◌, Bool, true, List, [], ◌∷◌, ◌++◌, map, arith,
  if◌then◌else◌,
}
use linux_systemprogramming.Common.Text.{CString}
use linux_systemprogramming.Mutex.System.{
  Event, printed_count, Program, Thread, Shared, Move, lock, fail_lock, announce, load, store, show,
  unlock, fail_unlock, leave, System, Step, pick, fresh, start, Reach, here, next,
}
use linux_systemprogramming.Mutex.Sums.{
  total, holds, pending, prints, stale, misplaced, total-append, total_le, stale-holds,
  pending-holds,
}

-- The counts that were printed.
abbrev pub numbers : List Event → List ℕ
numbers [] = []
numbers (printed_count n ∷ l) = n ∷ numbers l
numbers (e ∷ l) = numbers l

abbrev pub countdown : ℕ → List ℕ
countdown zero = []
countdown (suc n) = suc n ∷ countdown n

-- The announcement prints no count on a line of its own.
abbrev pub IsQuiet : Program → Type 0
IsQuiet p =
    (name : CString) (n : ℕ) (l : List Event) → numbers (p.announcement name n ++ l) ≡ numbers l

-- What holds of the shared state, one thread and the others.
record Fits (p : Program) (m : Shared) (t : Thread) (rest : List Thread) : Type 0 where
  one : holds t + total holds rest ≡ (if m.is_taken then 1 else 0)
  fresh_temp : stale m.counter t + total (stale m.counter) rest ≡ 0
  counted : m.counter ≡ (prints t + pending t) + (total prints rest + total pending rest)
  punctual : misplaced p t + total (misplaced p) rest ≡ 0
  ordered : numbers m.log ≡ countdown (prints t + total prints rest)

-- The mutex is taken as often as threads hold it; no thread holds an old value; the counter is the
-- number of prints and of those that are due; the prints are 1, 2, 3 and so on.
pub record IsExact (p : Program) (s : System) : Type 0 where
  pub one : total holds s.threads ≡ (if s.shared.is_taken then 1 else 0)
  pub fresh_temp : total (stale s.shared.counter) s.threads ≡ 0
  pub counted : s.shared.counter ≡ total prints s.threads + total pending s.threads
  pub punctual : total (misplaced p) s.threads ≡ 0
  pub ordered : numbers s.shared.log ≡ countdown (total prints s.threads)

-- While one thread holds the mutex no other does.
alone : (b : Bool) (n : ℕ) → 1 + n ≡ (if b then 1 else 0) → (b ≡ true) × (n ≡ 0)
alone b n h = ground arith

stale_none : (c : ℕ) (rest : List Thread) → total holds rest ≡ 0 → total (stale c) rest ≡ 0
stale_none c rest h = omega (arith, h, total_le (stale c) holds (stale-holds c) rest)

pending_none : (rest : List Thread) → total holds rest ≡ 0 → total pending rest ≡ 0
pending_none rest h = omega (arith, h, total_le pending holds pending-holds rest)

module _ (p : Program) (q : IsQuiet p) (rest : List Thread) where
  Move-Fits :
      {m m' : Shared} {t t' : Thread} → Move p m t m' t' → Fits p m t rest → Fits p m' t' rest
  Move-Fits (lock c l n k a) h = record {
    one = omega (arith, h.one);
    fresh_temp = h.fresh_temp;
    counted = h.counted;
    punctual = ground (arith, h.punctual);
    ordered = h.ordered;
  }
  Move-Fits (fail_lock m n k a b) h = record {
    one = h.one;
    fresh_temp = h.fresh_temp;
    counted = h.counted;
    punctual = ground (arith, h.punctual);
    ordered = h.ordered;
  }
  Move-Fits (announce m n k) h = record {
    one = h.one;
    fresh_temp = h.fresh_temp;
    counted = h.counted;
    punctual = h.punctual;
    ordered = q n m.counter m.log ∙ h.ordered;
  }
  Move-Fits (load m n k) h = record {
    one = h.one;
    fresh_temp = ground (arith, h.fresh_temp);
    counted = h.counted;
    punctual = h.punctual;
    ordered = h.ordered;
  }
  Move-Fits (store m n k temp) h =
      let (_, free) = alone m.is_taken (total holds rest) h.one in
      record {
        one = h.one;
        fresh_temp = omega (arith, stale_none (temp + 1) rest free);
        counted = ground (arith, h.fresh_temp, h.counted);
        punctual = h.punctual;
        ordered = h.ordered;
      }
  Move-Fits (show m n k) h =
      let (_, free) = alone m.is_taken (total holds rest) h.one in
      let up : suc (k + total prints rest) ≡ suc k + total prints rest = omega arith in
      let now : m.counter ≡ suc (k + total prints rest) =
        omega (arith, h.counted, pending_none rest free) in
      record {
        one = h.one;
        fresh_temp = h.fresh_temp;
        counted = omega (arith, h.counted);
        punctual = h.punctual;
        ordered = rw (now, h.ordered) (ap countdown up);
      }
  Move-Fits (unlock m n k) h =
      let (_, free) = alone m.is_taken (total holds rest) h.one in
      record {
        one = omega (arith, free);
        fresh_temp = h.fresh_temp;
        counted = h.counted;
        punctual = ground (arith, h.punctual);
        ordered = h.ordered;
      }
  Move-Fits (fail_unlock m n k a) h = record {
    one = h.one;
    fresh_temp = h.fresh_temp;
    counted = h.counted;
    punctual = ground (arith, h.punctual);
    ordered = h.ordered;
  }
  Move-Fits (leave m n k a) h = record {
    one = h.one;
    fresh_temp = h.fresh_temp;
    counted = h.counted;
    punctual = ground (arith, h.punctual);
    ordered = h.ordered;
  }

framed :
    (p : Program) (before behind : List Thread) (m : Shared) (t : Thread)
    → IsExact p (record { shared = m; threads = before ++ t ∷ behind })
    → Fits p m t (before ++ behind)
framed p before behind m t h = record {
  one = sym (total-append holds before behind t) ∙ h.one;
  fresh_temp = sym (total-append (stale m.counter) before behind t) ∙ h.fresh_temp;
  counted =
      omega (
        arith,
        h.counted,
        total-append prints before behind t,
        total-append pending before behind t,
      );
  punctual = sym (total-append (misplaced p) before behind t) ∙ h.punctual;
  ordered = h.ordered ∙ ap countdown (total-append prints before behind t);
}

unframed :
    (p : Program) (before behind : List Thread) (m : Shared) (t : Thread)
    → Fits p m t (before ++ behind)
    → IsExact p (record { shared = m; threads = before ++ t ∷ behind })
unframed p before behind m t h = record {
  one = total-append holds before behind t ∙ h.one;
  fresh_temp = total-append (stale m.counter) before behind t ∙ h.fresh_temp;
  counted =
      omega (
        arith,
        h.counted,
        total-append prints before behind t,
        total-append pending before behind t,
      );
  punctual = total-append (misplaced p) before behind t ∙ h.punctual;
  ordered = h.ordered ∙ ap countdown (sym (total-append prints before behind t));
}

pub Step-IsExact : (p : Program) {s t : System} → IsQuiet p → Step p s t → IsExact p s → IsExact p t
Step-IsExact p q (pick before behind {m} {m'} {t} {t'} move) h =
    unframed p before behind m' t'
      (Move-Fits p q (before ++ behind) move (framed p before behind m t h))

fresh-total :
    (w : Thread → ℕ)
    → ((n : CString) → w (fresh n) ≡ 0)
    → (names : List CString) → total w (map fresh names) ≡ 0
fresh-total w h [] = refl
fresh-total w h (n ∷ names) = omega (arith, h n, fresh-total w h names)

start-IsExact : (p : Program) (names : List CString) → IsExact p (start names)
start-IsExact p names = record {
  one = fresh-total holds (λ n. refl) names;
  fresh_temp = fresh-total (stale 0) (λ n. refl) names;
  counted =
      omega (arith, fresh-total prints (λ n. refl) names, fresh-total pending (λ n. refl) names);
  punctual = fresh-total (misplaced p) (λ n. ground arith) names;
  ordered = sym (ap countdown (fresh-total prints (λ n. refl) names));
}

pub Reach-IsExact :
    (p : Program) (names : List CString) {n : ℕ} {s : System}
    → IsQuiet p
    → Reach p names n s
    → IsExact p s
Reach-IsExact p names q here = start-IsExact p names
Reach-IsExact p names q (next r st) = Step-IsExact p q st (Reach-IsExact p names q r)
