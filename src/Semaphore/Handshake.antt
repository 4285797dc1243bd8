-- ===== src/Semaphore/Handshake.antt =====
-- What the handshake of ch07/exercise-3.c and ch07/exercise-4.c guarantees.
use linux_systemprogramming.Common.{
  ℕ, suc, ◌+◌, ◌-◌, ◌≤◌, ◌≡◌, refl, ap, Bool, true, false, ◌&&◌, List, [], ◌∷◌, ◌++◌, length, all,
  &&-left, &&-right, arith, if◌then◌else◌, ltb, Bool-cases, inl, inr, ◌⊎◌, ◌≢◌,
}
use linux_systemprogramming.Common.Text.{CString}
use linux_systemprogramming.Semaphore.Sender.{
  SenderPc, writing, writing_end, sender_done, rounds, next_round,
}
use linux_systemprogramming.Semaphore.Receiver.{ReceiverPc, reading, releasing, receiver_done}
use linux_systemprogramming.Semaphore.System.{System, Process, sender, receiver, run, start, texts}
use linux_systemprogramming.Semaphore.Phases.{
  Phase, free, write, signal, unread, read, release, write_end, remove, removed, read_end, done,
  next, is_turn, system_of, phase_of, run-phase, IsReached, next-IsReached, phase_of-IsReached,
  left, left-next,
}

start-phase : (digits : ℕ → CString) (old : CString) → start old ≡ system_of digits old (free 0)
unfolding start system_of
start-phase digits old = refl

-- The sender may write the memory.
abbrev pub is_writing : SenderPc → Bool
is_writing (writing i) = true
is_writing writing_end = true
is_writing _ = false

-- The receiver reads the memory.
abbrev pub is_reading : ReceiverPc → Bool
is_reading reading = true
is_reading releasing = true
is_reading _ = false

-- The promise in one state: the two do not access the memory at once, what is printed are the
-- first texts in order, each once, and it is all of them when the receiver has ended.
abbrev pub IsSound : (ℕ → CString) → System → Type 0
IsSound digits st =
    ((is_writing st.sender_pc && is_reading st.receiver_pc) ≡ false)
    × ((n : ℕ) × (n ≤ rounds)
        × (st.printed ≡ texts digits n)
        × ((st.receiver_pc ≢ receiver_done) ⊎ (n ≡ rounds)))

next_round-is_writing : (i : ℕ) → is_writing (next_round i) ≡ false
unfolding next_round
next_round-is_writing i = elim (Bool-cases (ltb i rounds)) [ inl e ↦ rw e refl | inr e ↦ rw e refl ]

phase-IsSound :
    (digits : ℕ → CString) (old : CString) (ph : Phase)
    → IsReached ph
    → IsSound digits (system_of digits old ph)
unfolding system_of
phase-IsSound digits old (free i) h =
    (rw (next_round-is_writing i) refl, (i, h, refl, inl (λ e. cc)))
phase-IsSound digits old (write i) h = (refl, (i, omega arith, refl, inl (λ e. cc)))
phase-IsSound digits old (signal i) h = (refl, (i, omega arith, refl, inl (λ e. cc)))
phase-IsSound digits old (unread i) h =
    (rw (next_round-is_writing (i + 1)) refl, (i, omega arith, refl, inl (λ e. cc)))
phase-IsSound digits old (read i) h =
    (rw (next_round-is_writing (i + 1)) refl, (i, omega arith, refl, inl (λ e. cc)))
phase-IsSound digits old (release i) h =
    (rw (next_round-is_writing (i + 1)) refl, (suc i, omega arith, refl, inl (λ e. cc)))
phase-IsSound digits old (write_end i) h = (refl, (i, omega arith, refl, inl (λ e. cc)))
phase-IsSound digits old (remove i) h = (refl, (i, omega arith, refl, inl (λ e. cc)))
phase-IsSound digits old (removed i) h = (refl, (i, omega arith, refl, inl (λ e. cc)))
phase-IsSound digits old (read_end i) h = (refl, (i, omega arith, refl, inl (λ e. cc)))
phase-IsSound digits old (done i) h = (refl, (i, omega arith, refl, inr h))

-- In every interleaving of the two programs the sender never writes while the receiver reads, and
-- the receiver has printed the first texts of the sender, in order and each once; if it has ended,
-- all twenty. The result of `%d` and the old content of the memory are arbitrary.
pub run-IsSound :
    (digits : ℕ → CString) (old : CString) (ps : List Process)
    → IsSound digits (run digits ps (start old))
run-IsSound digits old ps =
    rw (start-phase digits old, run-phase digits old ps (free 0))
      (phase-IsSound digits old (phase_of ps (free 0))
        (phase_of-IsReached ps (free 0) (omega arith)))

abbrev pub contains_sender : List Process → Bool
contains_sender [] = false
contains_sender (sender ∷ ps) = true
contains_sender (receiver ∷ ps) = contains_sender ps

abbrev pub contains_receiver : List Process → Bool
contains_receiver [] = false
contains_receiver (receiver ∷ ps) = true
contains_receiver (sender ∷ ps) = contains_receiver ps

-- A slice of the schedule in which each of the two is scheduled at least once.
abbrev pub is_fair : List Process → Bool
is_fair ps = contains_sender ps && contains_receiver ps

abbrev pub flatten : List (List Process) → List Process
flatten [] = []
flatten (ps ∷ pss) = ps ++ flatten pss

left-phase_of : (ps : List Process) (ph : Phase) → IsReached ph → left (phase_of ps ph) ≤ left ph
left-phase_of [] ph h = omega arith
left-phase_of (p ∷ ps) ph h = elim (Bool-cases (is_turn p ph)) [
  | inl e ↦ rw e (omega (arith, left-phase_of ps (next ph) (next-IsReached ph h), left-next ph h))
  | inr e ↦ rw e (left-phase_of ps ph h)
]

left-sender :
    (ps : List Process) (ph : Phase)
    → IsReached ph
    → contains_sender ps ≡ true
    → is_turn sender ph ≡ true
    → left (phase_of ps ph) ≤ left ph - 1
left-sender [] ph h c t = cc
left-sender (sender ∷ ps) ph h c t =
    rw t (omega (arith, left-phase_of ps (next ph) (next-IsReached ph h), left-next ph h))
left-sender (receiver ∷ ps) ph h c t = elim (Bool-cases (is_turn receiver ph)) [
  | inl e ↦ rw e (omega (arith, left-phase_of ps (next ph) (next-IsReached ph h), left-next ph h))
  | inr e ↦ rw e (left-sender ps ph h c t)
]

left-receiver :
    (ps : List Process) (ph : Phase)
    → IsReached ph
    → contains_receiver ps ≡ true
    → is_turn receiver ph ≡ true
    → left (phase_of ps ph) ≤ left ph - 1
left-receiver [] ph h c t = cc
left-receiver (receiver ∷ ps) ph h c t =
    rw t (omega (arith, left-phase_of ps (next ph) (next-IsReached ph h), left-next ph h))
left-receiver (sender ∷ ps) ph h c t = elim (Bool-cases (is_turn sender ph)) [
  | inl e ↦ rw e (omega (arith, left-phase_of ps (next ph) (next-IsReached ph h), left-next ph h))
  | inr e ↦ rw e (left-receiver ps ph h c t)
]

-- One of the two can run, unless both have ended.
turn_cases :
    (ph : Phase) → (is_turn sender ph ≡ true) ⊎ (is_turn receiver ph ≡ true) ⊎ (left ph ≡ 0)
turn_cases (free i) = inl refl
turn_cases (write i) = inl refl
turn_cases (signal i) = inl refl
turn_cases (unread i) = inr (inl refl)
turn_cases (read i) = inr (inl refl)
turn_cases (release i) = inr (inl refl)
turn_cases (write_end i) = inl refl
turn_cases (remove i) = inl refl
turn_cases (removed i) = inr (inl refl)
turn_cases (read_end i) = inr (inl refl)
turn_cases (done i) = inr (inr refl)

-- A fair slice makes a step, unless all is done.
left-fair :
    (ps : List Process) (ph : Phase)
    → IsReached ph
    → is_fair ps ≡ true
    → left (phase_of ps ph) ≤ left ph - 1
left-fair ps ph h f = elim (turn_cases ph) [
  | inl t ↦ left-sender ps ph h (&&-left _ _ f) t
  | inr (inl t) ↦ left-receiver ps ph h (&&-right _ _ f) t
  | inr (inr z) ↦ omega (arith, left-phase_of ps ph h)
]

phase_of-append :
    (ps qs : List Process) (ph : Phase) → phase_of (ps ++ qs) ph ≡ phase_of qs (phase_of ps ph)
phase_of-append [] qs ph = refl
phase_of-append (p ∷ ps) qs ph = phase_of-append ps qs (if is_turn p ph then next ph else ph)

left-flatten :
    (pss : List (List Process)) (ph : Phase)
    → IsReached ph
    → all is_fair pss ≡ true
    → left (phase_of (flatten pss) ph) ≤ left ph - length pss
left-flatten [] ph h f = omega arith
left-flatten (ps ∷ pss) ph h f = rw (phase_of-append ps (flatten pss) ph) (
    omega (
      arith,
      left-fair ps ph h (&&-left _ _ f),
      left-flatten pss (phase_of ps ph) (phase_of-IsReached ps ph h) (&&-right _ _ f),
    ))

ended :
    (digits : ℕ → CString) (old : CString) (ph : Phase)
    → IsReached ph
    → left ph ≡ 0
    → ((system_of digits old ph).sender_pc ≡ sender_done)
      × ((system_of digits old ph).receiver_pc ≡ receiver_done)
      × ((system_of digits old ph).printed ≡ texts digits rounds)
unfolding system_of
ended digits old (free i) h z = absurd (omega arith)
ended digits old (write i) h z = absurd (omega arith)
ended digits old (signal i) h z = absurd (omega arith)
ended digits old (unread i) h z = absurd (omega arith)
ended digits old (read i) h z = absurd (omega arith)
ended digits old (release i) h z = absurd (omega arith)
ended digits old (write_end i) h z = absurd (omega arith)
ended digits old (remove i) h z = absurd (omega arith)
ended digits old (removed i) h z = absurd (omega arith)
ended digits old (read_end i) h z = absurd (omega arith)
ended digits old (done i) h z = (refl, refl, ap (texts digits) h)

-- Both programs end, with all twenty texts printed in order, in every schedule that gives both of
-- them a turn 125 times over.
pub run_ends :
    (digits : ℕ → CString) (old : CString) (pss : List (List Process))
    → all is_fair pss ≡ true
    → 125 ≤ length pss
    → ((run digits (flatten pss) (start old)).sender_pc ≡ sender_done)
      × ((run digits (flatten pss) (start old)).receiver_pc ≡ receiver_done)
      × ((run digits (flatten pss) (start old)).printed ≡ texts digits rounds)
run_ends digits old pss f l =
    rw (start-phase digits old, run-phase digits old (flatten pss) (free 0))
      (ended digits old (phase_of (flatten pss) (free 0))
        (phase_of-IsReached (flatten pss) (free 0) (omega arith))
        (omega (arith, left-flatten pss (free 0) (omega arith) f)))
