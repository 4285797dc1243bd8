-- ===== src/Semaphore/Phases.antt =====
-- The phases of the handshake: at every moment one of the two programs can run, and the other waits.
use linux_systemprogramming.Common.{
  ℕ, zero, suc, ◌+◌, ◌*◌, ◌-◌, ◌≤◌, ◌<◌, ◌≡◌, refl, ap, ◌∙◌, Bool, true, false, List, [], ◌∷◌,
  append-nil, arith, if◌then◌else◌, ltb, ltb→lt, Bool-cases, inl, inr,
}
use linux_systemprogramming.Common.Text.{CString, codes}
use linux_systemprogramming.Semaphore.Sender.{
  SenderPc, writing, signalling, writing_end, removing, sender_done, rounds, text_of, next_round,
  sender_step,
}
use linux_systemprogramming.Semaphore.Receiver.{
  ReceiverPc, before_read, reading, releasing, receiver_done, receiver_step,
}
use linux_systemprogramming.Semaphore.System.{System, Process, sender, receiver, step, run, texts}

-- The phases that the two programs go through together.
pub data Phase : Type 0 where
  free : ℕ → Phase
  write : ℕ → Phase
  signal : ℕ → Phase
  unread : ℕ → Phase
  read : ℕ → Phase
  release : ℕ → Phase
  write_end : ℕ → Phase
  remove : ℕ → Phase
  removed : ℕ → Phase
  read_end : ℕ → Phase
  done : ℕ → Phase

unfoldable pub next : Phase → Phase
next (free i) = if ltb i rounds then write i else write_end i
next (write i) = signal i
next (signal i) = unread i
next (unread i) = read i
next (read i) = release i
next (release i) = free (suc i)
next (write_end i) = remove i
next (remove i) = removed i
next (removed i) = read_end i
next (read_end i) = done i
next (done i) = done i

-- Whether it is this process's turn.
abbrev pub is_turn : Process → Phase → Bool
is_turn sender (free i) = true
is_turn sender (write i) = true
is_turn sender (signal i) = true
is_turn sender (write_end i) = true
is_turn sender (remove i) = true
is_turn sender _ = false
is_turn receiver (unread i) = true
is_turn receiver (read i) = true
is_turn receiver (release i) = true
is_turn receiver (removed i) = true
is_turn receiver (read_end i) = true
is_turn receiver _ = false

module _ (digits : ℕ → CString) (old : CString) where
  abbrev last : ℕ → CString
  last zero = old
  last (suc i) = text_of digits i

  abbrev at : SenderPc → ReceiverPc → ℕ → ℕ → Bool → CString → ℕ → System
  at pc pc' w r b m n = record {
    sender_pc = pc;
    receiver_pc = pc';
    shared = record { write_allowed = w; read_allowed = r; is_removed = b; memory = m };
    printed = texts digits n;
  }

  -- The system in each phase.
  unfoldable pub system_of : Phase → System
  unfolding next_round
  system_of (free i) = at (next_round i) before_read 1 0 false (last i) i
  system_of (write i) = at (writing i) before_read 0 0 false (last i) i
  system_of (signal i) = at (signalling i) before_read 0 0 false (last (suc i)) i
  system_of (unread i) = at (next_round (i + 1)) before_read 0 1 false (last (suc i)) i
  system_of (read i) = at (next_round (i + 1)) reading 0 0 false (last (suc i)) i
  system_of (release i) = at (next_round (i + 1)) releasing 0 0 false (last (suc i)) (suc i)
  system_of (write_end i) = at writing_end before_read 0 0 false (last i) i
  system_of (remove i) = at removing before_read 0 0 false (codes "end") i
  system_of (removed i) = at sender_done before_read 0 0 true (codes "end") i
  system_of (read_end i) = at sender_done reading 0 0 true (codes "end") i
  system_of (done i) = at sender_done receiver_done 0 0 true (codes "end") i

  sender_step-phase :
      (ph : Phase)
      → step digits sender (system_of ph) ≡ system_of (if is_turn sender ph then next ph else ph)
  unfolding step system_of next next_round sender_step
  sender_step-phase (free i) = elim (Bool-cases (ltb i rounds)) [
    | inl e ↦ rw e refl
    | inr e ↦ rw e refl
  ]
  sender_step-phase (write i) = refl
  sender_step-phase (signal i) = refl
  sender_step-phase (unread i) = elim (Bool-cases (ltb (i + 1) rounds)) [
    | inl e ↦ rw e refl
    | inr e ↦ rw e refl
  ]
  sender_step-phase (read i) = elim (Bool-cases (ltb (i + 1) rounds)) [
    | inl e ↦ rw e refl
    | inr e ↦ rw e refl
  ]
  sender_step-phase (release i) = elim (Bool-cases (ltb (i + 1) rounds)) [
    | inl e ↦ rw e refl
    | inr e ↦ rw e refl
  ]
  sender_step-phase (write_end i) = refl
  sender_step-phase (remove i) = refl
  sender_step-phase (removed i) = refl
  sender_step-phase (read_end i) = refl
  sender_step-phase (done i) = refl

  receiver_step-phase :
      (ph : Phase)
      → step digits receiver (system_of ph)
        ≡ system_of (if is_turn receiver ph then next ph else ph)
  unfolding step system_of next receiver_step
  receiver_step-phase (free i) = refl
  receiver_step-phase (write i) = refl
  receiver_step-phase (signal i) = refl
  receiver_step-phase (unread i) = rw (append-nil (texts digits i)) refl
  receiver_step-phase (read i) = refl
  receiver_step-phase (release i) =
      let e : i + 1 ≡ suc i = omega arith in rw (append-nil (texts digits (suc i)), e) refl
  receiver_step-phase (write_end i) = refl
  receiver_step-phase (remove i) = refl
  receiver_step-phase (removed i) = rw (append-nil (texts digits i)) refl
  receiver_step-phase (read_end i) = rw (append-nil (texts digits i)) refl
  receiver_step-phase (done i) = refl

  step-phase :
      (p : Process) (ph : Phase)
      → step digits p (system_of ph) ≡ system_of (if is_turn p ph then next ph else ph)
  step-phase sender ph = sender_step-phase ph
  step-phase receiver ph = receiver_step-phase ph

-- The phase behind a schedule.
abbrev pub phase_of : List Process → Phase → Phase
phase_of [] ph = ph
phase_of (p ∷ ps) ph = phase_of ps (if is_turn p ph then next ph else ph)

pub run-phase :
    (digits : ℕ → CString) (old : CString) (ps : List Process) (ph : Phase)
    → run digits ps (system_of digits old ph) ≡ system_of digits old (phase_of ps ph)
unfolding run
run-phase digits old [] ph = refl
run-phase digits old (p ∷ ps) ph =
    ap (run digits ps) (step-phase digits old p ph)
    ∙ run-phase digits old ps (if is_turn p ph then next ph else ph)

-- What holds of the round in each phase that is reached.
abbrev pub IsReached : Phase → Type 0
IsReached (free i) = i ≤ rounds
IsReached (write i) = i < rounds
IsReached (signal i) = i < rounds
IsReached (unread i) = i < rounds
IsReached (read i) = i < rounds
IsReached (release i) = i < rounds
IsReached (write_end i) = i ≡ rounds
IsReached (remove i) = i ≡ rounds
IsReached (removed i) = i ≡ rounds
IsReached (read_end i) = i ≡ rounds
IsReached (done i) = i ≡ rounds

pub next-IsReached : (ph : Phase) → IsReached ph → IsReached (next ph)
unfolding next
next-IsReached (free i) h = elim (Bool-cases (ltb i rounds)) [
  | inl e ↦ rw e (ltb→lt i rounds e)
  | inr e ↦ rw e (ground arith)
]
next-IsReached (write i) h = h
next-IsReached (signal i) h = h
next-IsReached (unread i) h = h
next-IsReached (read i) h = h
next-IsReached (release i) h = omega arith
next-IsReached (write_end i) h = h
next-IsReached (remove i) h = h
next-IsReached (removed i) h = h
next-IsReached (read_end i) h = h
next-IsReached (done i) h = h

pub phase_of-IsReached :
    (ps : List Process) (ph : Phase) → IsReached ph → IsReached (phase_of ps ph)
phase_of-IsReached [] ph h = h
phase_of-IsReached (p ∷ ps) ph h =
    phase_of-IsReached ps (if is_turn p ph then next ph else ph) (moved (is_turn p ph))
  where
    moved : (b : Bool) → IsReached (if b then next ph else ph)
    moved true = next-IsReached ph h
    moved false = h

-- The steps that are left.
abbrev pub left : Phase → ℕ
left (free i) = 6 * (rounds - i) + 5
left (write i) = 6 * (rounds - i) + 4
left (signal i) = 6 * (rounds - i) + 3
left (unread i) = 6 * (rounds - i) + 2
left (read i) = 6 * (rounds - i) + 1
left (release i) = 6 * (rounds - i)
left (write_end i) = 4
left (remove i) = 3
left (removed i) = 2
left (read_end i) = 1
left (done i) = 0

pub left-next : (ph : Phase) → IsReached ph → left (next ph) ≡ left ph - 1
unfolding next
left-next (free i) h = elim (Bool-cases (ltb i rounds)) [
  | inl e ↦ rw e (omega arith)
  | inr e ↦ rw e (ground arith)
]
left-next (write i) h = omega arith
left-next (signal i) h = omega arith
left-next (unread i) h = omega arith
left-next (read i) h = omega arith
left-next (release i) h = omega arith
left-next (write_end i) h = refl
left-next (remove i) h = refl
left-next (removed i) h = refl
left-next (read_end i) h = refl
left-next (done i) h = refl
