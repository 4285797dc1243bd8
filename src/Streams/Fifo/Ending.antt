-- ===== src/Streams/Fifo/Ending.antt =====
-- ch07/ex04-1.c and ch07/ex04-2.c come to their ends.
use mathlib.Core.Path.{subst}
use linux_systemprogramming.Common.{
  ℕ, zero, suc, ◌-◌, ◌≤◌, ◌<◌, ◌≡◌, refl, sym, ap, ◌∙◌, Bool, true, some, List, [], ◌∷◌, ◌++◌,
  length, length-append, length-drop, replicate, all, inl, inr, arith,
}
use linux_systemprogramming.Common.Text.{CString, codes}
use linux_systemprogramming.Streams.Fifo.{
  Phase, in_loop, exited, Sender, Receiver, System, send, chunk, receive, Move, sends, receives,
  step, run, start,
}
use linux_systemprogramming.Streams.Fifo.Lossless.{
  until_quit, has_quit, owed, heard, is_fine, Carries, with_received, Phase-cases, step-send,
  step-sent, step-receive, step-received, step-Carries, run-Carries,
}

abbrev HasExited : Phase → Type 0
HasExited ph = (n : ℕ) × (ph ≡ exited n)

pub run-append : (ms ns : List Move) (d : System) → run (ms ++ ns) d ≡ run ns (run ms d)
unfolding run
run-append [] ns d = refl
run-append (m ∷ ms) ns d = run-append ms ns (step m d)

-- What fgets has still to read does not grow, and a round that writes reads a line.
length-send : (b : Bool) (s : Sender) → length (send b s).0.input ≡ length s.input - 1
unfolding send
length-send b s = ground arith

step-length : (m : Move) (d : System) → length (step m d).sender.input ≤ length d.sender.input
unfolding step
step-length (sends b) d = elim (Phase-cases d.sender.phase) [
  | inl k ↦
      let e = ap (λ d. length d.sender.input) (step-send d b k) in
      omega (arith, e, length-send b d.sender)
  | inr (n, k) ↦ omega (arith, ap (λ d. length d.sender.input) (step-sent d b n k))
]
step-length (receives n) d = ground arith

run-length : (ms : List Move) (d : System) → length (run ms d).sender.input ≤ length d.sender.input
unfolding run
run-length [] d = omega arith
run-length (m ∷ ms) d = omega (arith, step-length m d, run-length ms (step m d))

step-sender :
    (m : Move) (d : System) (n : ℕ) → d.sender.phase ≡ exited n → (step m d).sender ≡ d.sender
unfolding step
step-sender (sends b) d n e = ap (λ d. d.sender) (step-sent d b n e)
step-sender (receives k) d n e = elim (Phase-cases d.receiver.phase) [
  | inl f ↦ ap (λ d. d.sender) (step-receive d k f)
  | inr (i, f) ↦ ap (λ d. d.sender) (step-received d k i f)
]

-- A program that has exited stays so.
run-sender :
    (ms : List Move) (d : System) (n : ℕ)
    → d.sender.phase ≡ exited n
    → (run ms d).sender.phase ≡ exited n
unfolding run
run-sender [] d n e = e
run-sender (m ∷ ms) d n e = run-sender ms (step m d) n (ap (λ s. s.phase) (step-sender m d n e) ∙ e)

step-receiver :
    (m : Move) (d : System) (n : ℕ) → d.receiver.phase ≡ exited n → (step m d).receiver ≡ d.receiver
unfolding step
step-receiver (sends b) d n e = elim (Phase-cases d.sender.phase) [
  | inl f ↦ ap (λ d. d.receiver) (step-send d b f)
  | inr (i, f) ↦ ap (λ d. d.receiver) (step-sent d b i f)
]
step-receiver (receives k) d n e = ap (λ d. d.receiver) (step-received d k n e)

run-receiver :
    (ms : List Move) (d : System) (n : ℕ)
    → d.receiver.phase ≡ exited n
    → (run ms d).receiver.phase ≡ exited n
unfolding run
run-receiver [] d n e = e
run-receiver (m ∷ ms) d n e =
    run-receiver ms (step m d) n (ap (λ s. s.phase) (step-receiver m d n e) ∙ e)

-- The sender reaches the line that starts with "quit".
sends_end :
    (k : ℕ) (total : CString) (d : System)
    → Carries total d
    → length d.sender.input ≤ k
    → HasExited (run (replicate k (sends true)) d).sender.phase
unfolding run
sends_end zero total d h le = elim (Phase-cases d.sender.phase) [
  | inl e ↦ absurd (go d.sender.input (h.quits e) le)
  | inr e ↦ e
]
  where
    go : (l : List CString) → has_quit l ≡ true → length l ≤ 0 → ⊥
    go [] q le = cc
    go (line ∷ lines) q le = omega arith
sends_end (suc k) total d h le = elim (Phase-cases d.sender.phase) [
  | inl e ↦
      let f = ap (λ d. length d.sender.input) (step-send d true e) in
      sends_end k total (step (sends true) d) (step-Carries total (sends true) d refl h)
        (omega (arith, f, length-send true d.sender))
  | inr (n, e) ↦ (n, run-sender (replicate (suc k) (sends true)) d n e)
]

abbrev pub reads : List ℕ → List Move
reads [] = []
reads (n ∷ ns) = receives (some n) ∷ reads ns

-- Behind the end of the sender each read takes a byte or is the last.
reads_end :
    (ns : List ℕ) (d : System) (n : ℕ)
    → d.sender.phase ≡ exited n
    → length d.pipe < length ns
    → HasExited (run (reads ns) d).receiver.phase
unfolding run
reads_end [] d n e lt = absurd (omega arith)
reads_end (i ∷ ns) d n e lt = elim (Phase-cases d.receiver.phase) [
  | inr (j, f) ↦ (j, run-receiver (reads (i ∷ ns)) d j f)
  | inl f ↦
      subst (λ d. HasExited (run (reads ns) d).receiver.phase) (sym (step-receive d (some i) f))
        (go (λ after. reads_end ns (with_received d after) n e) d.pipe d.sender.phase e lt)
]
  where
    go :
        ((after : Receiver × CString)
          → length after.1 < length ns
          → HasExited (run (reads ns) (with_received d after)).receiver.phase)
        → (pipe : CString) (ph : Phase) → ph ≡ exited n
        → length pipe < suc (length ns)
        → HasExited
            (run (reads ns) (with_received d (receive (some i) ph pipe d.receiver))).receiver.phase
    go hyp [] in_loop e lt = cc
    go hyp [] (exited m) e lt = (
      0,
      run-receiver (reads ns) (with_received d (receive (some i) (exited m) [] d.receiver)) 0 refl,
    )
    go hyp (c ∷ pipe) ph e lt = hyp _ (omega (arith, length-drop (chunk i) (c ∷ pipe)))

is_fine-sends : (k : ℕ) → all is_fine (replicate k (sends true)) ≡ true
is_fine-sends zero = refl
is_fine-sends (suc k) = is_fine-sends k

is_fine-reads : (ns : List ℕ) → all is_fine (reads ns) ≡ true
is_fine-reads [] = refl
is_fine-reads (n ∷ ns) = is_fine-reads ns

start-Carries :
    (stale : CString) (input : List CString)
    → has_quit input ≡ true
    → Carries (until_quit input) (start stale input)
start-Carries stale input q = record {
  text = λ _. refl;
  quits = λ _. q;
  sent = λ n e. cc;
  received = λ n e. cc;
}

-- The bytes in the pipe are part of the text, as long as the receiver reads.
length-pipe :
    (total : CString) (d : System)
    → Carries total d
    → d.receiver.phase ≡ in_loop
    → length d.pipe ≤ length total
length-pipe total d h e = omega (
  arith,
  ap length (h.text e),
  length-append (heard d.receiver.told) (d.pipe ++ owed d.sender.phase d.sender.input),
  length-append d.pipe (owed d.sender.phase d.sender.input),
)

abbrev Delivered : CString → System → Type 0
Delivered total d =
    (d.sender.phase ≡ exited 0)
    × (d.receiver.phase ≡ exited 0)
    × (heard d.receiver.told ≡ total ++ codes "\n")

reads-Delivered :
    (total : CString) (ns : List ℕ) (d : System)
    → Carries total d
    → HasExited d.sender.phase
    → length total < length ns
    → Delivered total (run (reads ns) d)
reads-Delivered total ns d h (n, e) lt =
    let h' : Carries total (run (reads ns) d) =
      run-Carries total (reads ns) d (is_fine-reads ns) h in
    let e' = run-sender (reads ns) d n e in
    let (m, k) = done in
    let (z, text) = h'.received m k in (e' ∙ ap exited (h'.sent n e'), k ∙ ap exited z, text)
  where
    done : HasExited (run (reads ns) d).receiver.phase
    done = elim (Phase-cases d.receiver.phase) [
      | inl k ↦ reads_end ns d n e (omega (arith, length-pipe total d h k))
      | inr (m, k) ↦ (m, run-receiver (reads ns) d m k)
    ]

-- With a line that starts with "quit", and no call that fails: whatever was sent and received so far
-- and in which pieces, when the sender then has a round for each line and the receiver one more than
-- there are bytes, both exit with status 0, and the receiver has written the lines in front of that one,
-- byte by byte, and a newline.
pub run_delivers :
    (ms : List Move) (stale : CString) (input : List CString) (k : ℕ) (ns : List ℕ)
    → all is_fine ms ≡ true
    → has_quit input ≡ true
    → length input ≤ k
    → length (until_quit input) < length ns
    → let d = run (ms ++ replicate k (sends true) ++ reads ns) (start stale input) in
      (d.sender.phase ≡ exited 0)
      × (d.receiver.phase ≡ exited 0)
      × (heard d.receiver.told ≡ until_quit input ++ codes "\n")
run_delivers ms stale input k ns f q le lt =
    let total = until_quit input in
    let d0 = start stale input in
    let d1 = run ms d0 in
    let d2 = run (replicate k (sends true)) d1 in
    let h1 : Carries total d1 = run-Carries total ms d0 f (start-Carries stale input q) in
    let h2 : Carries total d2 =
      run-Carries total (replicate k (sends true)) d1 (is_fine-sends k) h1 in
    let gone = sends_end k total d1 h1 (omega (arith, run-length ms d0)) in
    subst (Delivered total)
      (ap (run (reads ns)) (sym (run-append ms (replicate k (sends true)) d0))
        ∙ sym (run-append (ms ++ replicate k (sends true)) (reads ns) d0))
      (reads-Delivered total ns d2 h2 gone lt)
