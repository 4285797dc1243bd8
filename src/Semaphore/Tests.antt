-- ===== src/Semaphore/Tests.antt =====
-- The handshake on concrete schedules.
use linux_systemprogramming.Common.{
  ℕ, ◌+◌, ◌/◌, ◌%◌, ◌≡◌, refl, List, [], ◌∷◌, replicate, arith, if◌then◌else◌, ltb, true, none,
  some,
}
use linux_systemprogramming.Common.Text.{CString, codes}
use linux_systemprogramming.Semaphore.SetUp as SetUp
use linux_systemprogramming.Semaphore.Sender.{sender_done, rounds}
use linux_systemprogramming.Semaphore.Receiver.{receiver_done}
use linux_systemprogramming.Semaphore.System.{Process, sender, receiver, run, start, texts}
use linux_systemprogramming.Semaphore.Handshake.{IsSound, run-IsSound, run_ends, flatten}

-- `%d` for numbers of up to two digits.
abbrev digits : ℕ → CString
digits n = if ltb n 10 then (48 + n) ∷ [] else (48 + n / 10) ∷ (48 + n % 10) ∷ []

abbrev eager_receiver : List Process
eager_receiver =
    receiver ∷ sender ∷ receiver ∷ sender ∷ sender ∷ sender ∷ receiver ∷ receiver ∷ receiver ∷ []

first_text : (run digits eager_receiver (start [])).printed ≡ codes "shared memory test 1" ∷ []
unfolding run start
first_text = refl

run-IsSound_example : IsSound digits (run digits eager_receiver (start []))
run-IsSound_example = run-IsSound digits [] eager_receiver

abbrev alternating : List (List Process)
alternating = replicate 125 (sender ∷ receiver ∷ [])

run_ends_example :
    ((run digits (flatten alternating) (start [])).sender_pc ≡ sender_done)
    × ((run digits (flatten alternating) (start [])).receiver_pc ≡ receiver_done)
    × ((run digits (flatten alternating) (start [])).printed ≡ texts digits rounds)
run_ends_example = run_ends digits [] alternating refl (omega arith)

-- The error of shmat is no NULL, and passes the test.
failed_shmat_passes :
    SetUp.begin (record {
      shm_created = some 1;
      shm_opened = none;
      sem_created = none;
      sem_opened = some 2;
      shmat = SetUp.minus_one;
      shmdt = true;
      shmctl = true;
    })
    ≡ SetUp.ready 1 2 SetUp.minus_one
unfolding SetUp.begin
failed_shmat_passes = refl
