-- ===== src/Threads/Routing/Safety.antt =====
-- ch08/ex09.c: each of the two signals is handled by its own thread, and neither ends the process.
use linux_systemprogramming.Common.{
  ℕ, ◌≡◌, ◌⊎◌, inl, inr, refl, Bool, true, false, not, ◌&&◌, some, List, [], ◌∷◌, ◌==◌, all,
  Bool-cases, &&-right, not-true, arith,
}
use linux_systemprogramming.Signals.Blocking.{sigint, sigusr1, sigusr2, sigdelset}
use linux_systemprogramming.Threads.Routing.{
  Who, thread1, thread2, signal_of, Place, absent, installing, unblocking, looping, returned,
  Thread, MainPlace, creating_first, creating_second, joining_first, joining_second, exited,
  Process, main_mask, start, Move, main_moves, works, arrives, delivers_to_main, delivers,
  has_returned, is_there, created, main_step, thread_step, work, has_handler, take_signal,
  thread_of, act, is_over, run,
}

-- What a thread lets through is SIGINT, or its own signal when that has a handler, as it has in front of
-- pthread_sigmask.
record Guards (own : ℕ) (t : Thread) (handled : Bool) : Type 0 where
  installed : t.place ≡ unblocking → handled ≡ true
  lets : (s : ℕ) → t.mask s ≡ false → (s ≡ sigint) ⊎ ((s ≡ own) × (handled ≡ true))

abbrev pub is_routed : Who × ℕ → Bool
is_routed (who, s) = s == signal_of who

record Routes (p : Process) : Type 0 where
  first : Guards sigusr1 p.first p.usr1_handled
  second : Guards sigusr2 p.second p.usr2_handled
  routed : all is_routed p.handled ≡ true
  survives : (s : ℕ) → p.killed_by ≡ some s → s ≡ sigint

start-Guards : (own : ℕ) → Guards own (record { place = absent; mask = main_mask }) false
start-Guards own = record { installed = λ e. cc; lets = λ s h. inl (ground (arith, h)) }

created-Guards : (own : ℕ) (t : Thread) (b : Bool) → Guards own t b → Guards own (created t) b
created-Guards own t b g = record { installed = λ e. cc; lets = g.lets }

thread_step-Guards :
    (own : ℕ) (t : Thread) (b : Bool)
    → Guards own t b
    → let (t', b') = thread_step own t.place t b in Guards own t' b'
unfolding thread_step
thread_step-Guards own t b g = go t.place g.installed
  where
    stays : (s : ℕ) → t.mask s ≡ false → (s ≡ sigint) ⊎ ((s ≡ own) × (true ≡ true))
    stays s h = ground (arith, g.lets s h)

    opened :
        b ≡ true
        → (s : ℕ) → sigdelset t.mask own s ≡ false
        → ((s == own) ≡ true) ⊎ ((s == own) ≡ false)
        → (s ≡ sigint) ⊎ ((s ≡ own) × (b ≡ true))
    opened h s k (inl e) = inr (ground (arith, e), h)
    opened h s k (inr e) = g.lets s (ground (arith, k, e))

    go :
        (pl : Place)
        → (pl ≡ unblocking → b ≡ true)
        → let (t', b') = thread_step own pl t b in Guards own t' b'
    go absent h = g
    go returned h = g
    go installing h = record { installed = λ _. refl; lets = stays }
    go unblocking h = record {
      installed = λ e. cc;
      lets = λ s k. opened (h refl) s k (Bool-cases (s == own));
    }
    go (looping i) h = record { installed = λ e. absurd (ground (arith, e)); lets = g.lets }

-- Main changes its place, and threads that it creates.
keeps :
    (p : Process) (m : MainPlace) (t u : Thread)
    → Routes p
    → Guards sigusr1 t p.usr1_handled
    → Guards sigusr2 u p.usr2_handled
    → Routes (record p { main = m; first = t; second = u })
keeps p m t u h g k = record { first = g; second = k; routed = h.routed; survives = h.survives }

main_step-Routes : (ok : Bool) (m : MainPlace) (p : Process) → Routes p → Routes (main_step ok m p)
unfolding main_step
main_step-Routes true creating_first p h =
    keeps p creating_second (created p.first) p.second h (created-Guards _ _ _ h.first) h.second
main_step-Routes false creating_first p h = keeps p (exited 1) p.first p.second h h.first h.second
main_step-Routes true creating_second p h =
    keeps p joining_first p.first (created p.second) h h.first (created-Guards _ _ _ h.second)
main_step-Routes false creating_second p h = keeps p (exited 1) p.first p.second h h.first h.second
main_step-Routes ok joining_first p h = elim (Bool-cases (has_returned p.first)) [
  | inl e ↦ rw (main_step, e) (keeps p joining_second p.first p.second h h.first h.second)
  | inr e ↦ rw (main_step, e) h
]
main_step-Routes ok joining_second p h = elim (Bool-cases (has_returned p.second)) [
  | inl e ↦ rw (main_step, e) (keeps p (exited 0) p.first p.second h h.first h.second)
  | inr e ↦ rw (main_step, e) h
]
main_step-Routes ok (exited status) p h = h

work-Routes : (who : Who) (p : Process) → Routes p → Routes (work who p)
unfolding work
work-Routes thread1 p h = record {
  first = thread_step-Guards sigusr1 p.first p.usr1_handled h.first;
  second = h.second;
  routed = h.routed;
  survives = h.survives;
}
work-Routes thread2 p h = record {
  first = h.first;
  second = thread_step-Guards sigusr2 p.second p.usr2_handled h.second;
  routed = h.routed;
  survives = h.survives;
}

dies : (s : ℕ) (p : Process) → s ≡ sigint → Routes p → Routes (record p { killed_by = some s })
dies s p e h = record {
  first = h.first;
  second = h.second;
  routed = h.routed;
  survives = λ s' k. ground (arith, k, e);
}

handles :
    (who : Who) (s : ℕ) (p : Process)
    → s ≡ signal_of who
    → Routes p
    → Routes (record p { pending = sigdelset p.pending s; handled = (who, s) ∷ p.handled })
handles who s p e h = record {
  first = h.first;
  second = h.second;
  routed = ground (arith, e, h.routed);
  survives = h.survives;
}

lets_through :
    (who : Who) (s : ℕ) (p : Process)
    → (thread_of who p).mask s ≡ false
    → Routes p
    → (s ≡ sigint) ⊎ ((s ≡ signal_of who) × (has_handler p s ≡ true))
lets_through thread1 s p e h = ground (arith, h.first.lets s e)
lets_through thread2 s p e h = ground (arith, h.second.lets s e)

take_signal-Routes :
    (who : Who) (s : ℕ) (p : Process)
    → (thread_of who p).mask s ≡ false
    → Routes p
    → Routes (take_signal who s p)
take_signal-Routes who s p e h = elim (lets_through who s p e h) [
  | inl k ↦
      let none_there : has_handler p s ≡ false = ground (arith, k) in rw none_there (dies s p k h)
  | inr (k, there) ↦ rw there (handles who s p k h)
]

abbrev is_due : Who → ℕ → Process → Bool
is_due who s p = p.pending s && is_there (thread_of who p) && not ((thread_of who p).mask s)

act-Routes : (m : Move) (p : Process) → Routes p → Routes (act m p)
unfolding act
act-Routes (main_moves ok) p h = main_step-Routes ok p.main p h
act-Routes (works who) p h = work-Routes who p h
act-Routes (arrives s) p h = record {
  first = h.first;
  second = h.second;
  routed = h.routed;
  survives = h.survives;
}
act-Routes (delivers_to_main s) p h = elim (Bool-cases (p.pending s && not (main_mask s))) [
  | inl e ↦ rw (act, e) (dies s p (ground (arith, e)) h)
  | inr e ↦ rw (act, e) h
]
act-Routes (delivers who s) p h = elim (Bool-cases (is_due who s p)) [
  | inl e ↦ rw (act, e) (take_signal-Routes who s p (not-true _ (&&-right _ _ e)) h)
  | inr e ↦ rw (act, e) h
]

start-Routes : Routes start
start-Routes = record {
  first = start-Guards sigusr1;
  second = start-Guards sigusr2;
  routed = refl;
  survives = λ s e. cc;
}

run-Routes : (ms : List Move) (p : Process) → Routes p → Routes (run ms p)
unfolding run
run-Routes [] p h = h
run-Routes (m ∷ ms) p h = elim (Bool-cases (is_over p)) [
  | inl e ↦ rw (run, e) h
  | inr e ↦ rw (run, e) (run-Routes ms (act m p) (act-Routes m p h))
]

-- Whatever signals arrive behind main's pthread_sigmask, SIGKILL and SIGSTOP aside, and in any order of
-- the moves: each call of sig_handler is in the thread whose signal it gets, and the only signal that can
-- end the process is SIGINT.
pub run-routes :
    (ms : List Move) (s : ℕ)
    → (all is_routed (run ms start).handled ≡ true)
      × ((run ms start).killed_by ≡ some s → s ≡ sigint)
run-routes ms s = let h = run-Routes ms start start-Routes in (h.routed, h.survives s)
