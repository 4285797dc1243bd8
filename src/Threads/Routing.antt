-- ===== src/Threads/Routing.antt =====
-- ch08/ex09.c: two threads, each of which handles one signal. A signal that is sent to the process stays
-- pending until it is delivered to some thread that does not block it; it is pending at most once. A
-- handler runs with all signals blocked, as one move. SIGKILL and SIGSTOP, which no mask blocks, do not
-- arrive.
pub mod Safety
use linux_systemprogramming.Common.{
  ℕ, suc, ◌+◌, ◌≡◌, Bool, true, false, not, ◌&&◌, ◌||◌, Option, none, some, List, [], ◌∷◌,
  if◌then◌else◌, ltb, ◌==◌,
}
use linux_systemprogramming.Signals.Blocking.{
  SignalSet, sigint, sigusr1, sigusr2, sigfillset, sigemptyset, sigaddset, sigdelset,
}

-- thread1_function and thread2_function, which are the same up to the signal.
pub data Who : Type 0 where
  thread1 thread2 : Who

abbrev pub signal_of : Who → ℕ
signal_of thread1 = sigusr1
signal_of thread2 = sigusr2

-- A thread does not exist yet, is in front of sigaction or of pthread_sigmask, is in a round of its loop,
-- or has returned.
pub data Place : Type 0 where
  absent installing unblocking returned : Place
  looping : ℕ → Place

pub record Thread : Type 0 where
  pub place : Place
  pub mask : SignalSet

-- Main creates the two threads, waits for them, and exits.
pub data MainPlace : Type 0 where
  creating_first creating_second joining_first joining_second : MainPlace
  exited : ℕ → MainPlace

pub record Process : Type 0 where
  pub main : MainPlace
  pub first : Thread
  pub second : Thread
  -- whether SIGUSR1 and SIGUSR2 have their handler
  pub usr1_handled : Bool
  pub usr2_handled : Bool
  pub pending : SignalSet
  -- the calls of sig_handler, newest first
  pub handled : List (Who × ℕ)
  pub killed_by : Option ℕ

-- What main has set before it creates a thread, and what the threads inherit.
abbrev pub main_mask : SignalSet
main_mask = sigdelset sigfillset sigint

-- The process behind main's pthread_sigmask.
abbrev pub start : Process
start = record {
  main = creating_first;
  first = record { place = absent; mask = main_mask };
  second = record { place = absent; mask = main_mask };
  usr1_handled = false;
  usr2_handled = false;
  pending = sigemptyset;
  handled = [];
  killed_by = none;
}

pub data Move : Type 0 where
  -- main's next call; whether pthread_create succeeds
  main_moves : Bool → Move
  -- a thread's next statement
  works : Who → Move
  arrives : ℕ → Move
  delivers_to_main : ℕ → Move
  delivers : Who → ℕ → Move

abbrev pub has_returned : Thread → Bool
has_returned t = elim t.place [ returned ↦ true | _ ↦ false ]

abbrev pub is_there : Thread → Bool
is_there t = elim t.place [ absent ↦ false | returned ↦ false | _ ↦ true ]

abbrev pub created : Thread → Thread
created t = record t { place = installing }

unfoldable pub main_step : Bool → MainPlace → Process → Process
main_step ok creating_first p =
    if ok
    then record p { main = creating_second; first = created p.first }
    else record p { main = exited 1 }
main_step ok creating_second p =
    if ok
    then record p { main = joining_first; second = created p.second }
    else record p { main = exited 1 }
main_step ok joining_first p =
    if has_returned p.first then record p { main = joining_second } else p
main_step ok joining_second p = if has_returned p.second then record p { main = exited 0 } else p
main_step ok (exited status) p = p

-- The statements of a thread: what becomes of it, and whether its signal has a handler now.
unfoldable pub thread_step : ℕ → Place → Thread → Bool → Thread × Bool
thread_step s absent t handled = (t, handled)
thread_step s installing t handled = (record t { place = unblocking }, true)
thread_step s unblocking t handled =
    (record t { place = looping 0; mask = sigdelset t.mask s }, handled)
thread_step s (looping i) t handled =
    (record t { place = if ltb i 10 then looping (i + 1) else returned }, handled)
thread_step s returned t handled = (t, handled)

unfoldable pub work : Who → Process → Process
unfolding thread_step
work thread1 p =
    let (t, b) = thread_step sigusr1 p.first.place p.first p.usr1_handled in
    record p { first = t; usr1_handled = b }
work thread2 p =
    let (t, b) = thread_step sigusr2 p.second.place p.second p.usr2_handled in
    record p { second = t; usr2_handled = b }

abbrev pub has_handler : Process → ℕ → Bool
has_handler p s =
    (if s == sigusr1 then p.usr1_handled else if s == sigusr2 then p.usr2_handled else false)

-- sig_handler in a thread, or the default, which ends the process.
abbrev pub take_signal : Who → ℕ → Process → Process
take_signal who s p =
    if has_handler p s
    then record p { pending = sigdelset p.pending s; handled = (who, s) ∷ p.handled }
    else record p { killed_by = some s }

abbrev pub thread_of : Who → Process → Thread
thread_of thread1 p = p.first
thread_of thread2 p = p.second

-- A signal that has a handler does not reach main, which blocks it.
unfoldable pub act : Move → Process → Process
unfolding main_step work
act (main_moves ok) p = main_step ok p.main p
act (works who) p = work who p
act (arrives s) p = record p { pending = sigaddset p.pending s }
act (delivers_to_main s) p =
    if p.pending s && not (main_mask s) then record p { killed_by = some s } else p
act (delivers who s) p =
    if p.pending s && is_there (thread_of who p) && not ((thread_of who p).mask s)
    then take_signal who s p
    else p

abbrev is_exited : MainPlace → Bool
is_exited m = elim m [ exited status ↦ true | _ ↦ false ]

-- The process has exited or is ended by a signal.
unfoldable pub is_over : Process → Bool
is_over p = elim p.killed_by [ none ↦ is_exited p.main | some s ↦ true ]

unfoldable pub run : List Move → Process → Process
unfolding act is_over
run [] p = p
run (m ∷ ms) p = if is_over p then p else run ms (act m p)
