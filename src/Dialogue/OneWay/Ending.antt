-- ===== src/Dialogue/OneWay/Ending.antt =====
-- ch07/ex05-1.c and ch07/ex05-2.c come to their ends.
use mathlib.Core.Path.{subst}
use linux_systemprogramming.Common.{
  ℕ, zero, suc, ◌-◌, ◌≤◌, ◌<◌, ◌≡◌, inl, inr, refl, sym, ap, ◌∙◌, true, false, List, [], ◌∷◌, ◌++◌,
  length, length-append, replicate, arith,
}
use linux_systemprogramming.Common.Text.{CString}
use linux_systemprogramming.Dialogue.System.{Received, blocks, fails, received, msgrcv}
use linux_systemprogramming.Dialogue.OneWay.{
  ended, OneWay, receive, Side, sends, receives, step, run, start,
}
use linux_systemprogramming.Dialogue.OneWay.Letters.{until_end, has_end, owed, Open, Carries}
use linux_systemprogramming.Dialogue.OneWay.Delivery.{
  queued, step-queued, step-gone, step-receive, step-removing, step-ended, msgrcv-cons,
  send-Carries, receive-Carries, run-Carries, start-Carries,
}

run-append : (ss ts : List Side) (d : OneWay) → run (ss ++ ts) d ≡ run ts (run ss d)
unfolding run
run-append [] ts d = refl
run-append (s ∷ ss) ts d = run-append ss ts (step s d)

sends_gone : (k : ℕ) (d : OneWay) → d.sender_at ≡ ended → run (replicate k sends) d ≡ d
unfolding run
sends_gone zero d e = refl
sends_gone (suc k) d e = ap (run (replicate k sends)) (step-gone d e) ∙ sends_gone k d e

receives_gone : (n : ℕ) (d : OneWay) → d.receiver_at ≡ ended → run (replicate n receives) d ≡ d
unfolding run
receives_gone zero d e = refl
receives_gone (suc n) d e = ap (run (replicate n receives)) (step-ended d e) ∙ receives_gone n d e

length-queued : (d : OneWay) → length (queued d).sender.input ≡ length d.sender.input - 1
length-queued d = ground arith

-- The sender reaches its end.
sends_end :
    (k : ℕ) (total : List CString) (d : OneWay)
    → Carries total d
    → length d.sender.input ≤ k
    → (run (replicate k sends) d).sender_at ≡ ended
unfolding run
sends_end k total d (inr (r, h)) le = ap (λ d. d.sender_at) (sends_gone k d h.gone) ∙ h.gone
sends_end zero total d (inl (r, h)) le = elim h.fine [
  | inr e ↦ e
  | inl e ↦ absurd (some_left d.sender.input (h.goes_on e) le)
]
  where
    some_left : (l : List CString) → has_end l ≡ true → length l ≤ 0 → ⊥
    some_left [] q le = cc
    some_left (line ∷ lines) q le = omega arith
sends_end (suc k) total d (inl (r, h)) le = elim h.fine [
  | inr e ↦ ap (λ d. d.sender_at) (sends_gone (suc k) d e) ∙ e
  | inl e ↦
      sends_end k total (step sends d) (send-Carries total d (inl (r, h)))
        (omega (arith, ap (λ d. length d.sender.input) (step-queued d e h.kept), length-queued d))
]

-- Behind the end of the sender each msgrcv takes a message, up to the last one.
receives_end :
    (n : ℕ) (total : List CString) (d : OneWay)
    → Carries total d
    → d.sender_at ≡ ended
    → length d.queue.messages < n
    → (run (replicate n receives) d).receiver_at ≡ ended
unfolding run receive
receives_end zero total d h e lt = absurd (omega arith)
receives_end (suc n) total d (inr (inr r, h)) e lt =
    ap (λ d. d.receiver_at) (receives_gone (suc n) d r) ∙ r
receives_end (suc n) total d (inr (inl r, h)) e lt =
    let f = ap (λ d. d.receiver_at) (step-removing d r) in
    ap (λ d. d.receiver_at) (receives_gone n (step receives d) f) ∙ f
receives_end (suc n) total d (inl (r, h)) e lt =
    go (receives_end n total (step receives d) (receive-Carries total d (inl (r, h))))
      d.queue.messages refl
  where
    go :
        ((step receives d).sender_at ≡ ended
          → length (step receives d).queue.messages < n
          → (run (replicate n receives) (step receives d)).receiver_at ≡ ended)
        → (ms : List CString) → d.queue.messages ≡ ms
        → (run (replicate (suc n) receives) d).receiver_at ≡ ended
    go hyp [] k =
        let none_left : has_end (d.queue.messages ++ owed d.sender_at d.sender.input) ≡ false =
          ap (λ l. has_end (l ++ owed d.sender_at d.sender.input)) k
          ∙ ap (λ at. has_end (owed at d.sender.input)) e in
        absurd (ground (arith, none_left, h.letter.closed))
    go hyp (m ∷ ms) k =
        let f : step receives d ≡ receive (received m (record d.queue { messages = ms })) d =
          step-receive d r ∙ ap (λ g. receive g d) (msgrcv-cons d.queue h.kept m ms k) in
        hyp (ap (λ d. d.sender_at) f ∙ e)
          (omega (arith, ap (λ d. length d.queue.messages) f, ap length k, lt))

receive-sender : (g : Received) (d : OneWay) → (receive g d).sender ≡ d.sender
unfolding receive
receive-sender blocks d = refl
receive-sender fails d = refl
receive-sender (received m q) d = refl

step-length :
    (total : List CString) (s : Side) (d : OneWay)
    → Carries total d
    → length (step s d).sender.input ≤ length d.sender.input
step-length total sends d (inr (r, h)) =
    omega (arith, ap (λ d. length d.sender.input) (step-gone d h.gone))
step-length total sends d (inl (r, h)) = elim h.fine [
  | inl e ↦ omega (arith, ap (λ d. length d.sender.input) (step-queued d e h.kept), length-queued d)
  | inr e ↦ omega (arith, ap (λ d. length d.sender.input) (step-gone d e))
]
step-length total receives d (inl (r, h)) = omega (
  arith,
  ap (λ d. length d.sender.input) (step-receive d r),
  ap (λ s. length s.input) (receive-sender (msgrcv d.queue) d),
)
step-length total receives d (inr (inl r, h)) =
    omega (arith, ap (λ d. length d.sender.input) (step-removing d r))
step-length total receives d (inr (inr r, h)) =
    omega (arith, ap (λ d. length d.sender.input) (step-ended d r))

step-Carries :
    (total : List CString) (s : Side) (d : OneWay) → Carries total d → Carries total (step s d)
step-Carries total sends d h = send-Carries total d h
step-Carries total receives d h = receive-Carries total d h

run-length :
    (total : List CString) (ss : List Side) (d : OneWay)
    → Carries total d
    → length (run ss d).sender.input ≤ length d.sender.input
unfolding run
run-length total [] d h = omega arith
run-length total (s ∷ ss) d h =
    omega
      (arith, step-length total s d h, run-length total ss (step s d) (step-Carries total s d h))

-- The messages in the queue are part of the text, as long as the receiver reads.
queue_bound :
    (n : ℕ) (total : List CString) (d : OneWay)
    → Open total d.sender_at d.sender.input d.receiver.shown d.queue.messages d.queue.is_removed
    → length total < n
    → length d.queue.messages < n
queue_bound n total d h lt = omega (
  arith,
  ap length h.text,
  length-append d.receiver.shown (d.queue.messages ++ owed d.sender_at d.sender.input),
  length-append d.queue.messages (owed d.sender_at d.sender.input),
)

rounds_end :
    (n : ℕ) (total : List CString) (d : OneWay)
    → Carries total d
    → d.sender_at ≡ ended
    → length total < n
    → (run (replicate n receives) d).receiver_at ≡ ended
unfolding run
rounds_end zero total d h e lt = absurd (omega arith)
rounds_end (suc n) total d (inr (inr r, h)) e lt =
    ap (λ d. d.receiver_at) (receives_gone (suc n) d r) ∙ r
rounds_end (suc n) total d (inr (inl r, h)) e lt =
    let f = ap (λ d. d.receiver_at) (step-removing d r) in
    ap (λ d. d.receiver_at) (receives_gone n (step receives d) f) ∙ f
rounds_end (suc n) total d (inl (r, h)) e lt =
    receives_end (suc n) total d (inl (r, h)) e (queue_bound (suc n) total d h lt)

abbrev Delivered : List CString → OneWay → Type 0
Delivered total d = (d.sender_at ≡ ended) × (d.receiver_at ≡ ended) × (d.receiver.shown ≡ total)

Carries-Delivered :
    (total : List CString) (d : OneWay)
    → Carries total d
    → d.receiver_at ≡ ended
    → Delivered total d
Carries-Delivered total d (inl (r, h)) k = cc
Carries-Delivered total d (inr (r, h)) k = (h.gone, k, h.all_shown)

-- With a line that starts with "end": whatever was sent and received so far, when the sender then has a
-- round for each line and the receiver one more than there are lines up to that one, both programs come
-- to their ends, and the receiver has shown just these lines, in order and each once.
pub run_delivers_lines :
    (ss : List Side) (stale : CString) (input : List CString) (k n : ℕ)
    → has_end input ≡ true
    → length input ≤ k
    → length (until_end input) < n
    → let d = run (ss ++ replicate k sends ++ replicate n receives) (start stale input) in
      (d.sender_at ≡ ended) × (d.receiver_at ≡ ended) × (d.receiver.shown ≡ until_end input)
run_delivers_lines ss stale input k n q le lt =
    let total = until_end input in
    let d0 = start stale input in
    let d1 = run ss d0 in
    let d2 = run (replicate k sends) d1 in
    let h0 : Carries total d0 = start-Carries stale input q in
    let h1 : Carries total d1 = run-Carries total ss d0 h0 in
    let h2 : Carries total d2 = run-Carries total (replicate k sends) d1 h1 in
    let gone = sends_end k total d1 h1 (omega (arith, run-length total ss d0 h0)) in
    subst (Delivered total)
      (ap (run (replicate n receives)) (sym (run-append ss (replicate k sends) d0))
        ∙ sym (run-append (ss ++ replicate k sends) (replicate n receives) d0))
      (Carries-Delivered total (run (replicate n receives) d2)
        (run-Carries total (replicate n receives) d2 h2) (rounds_end n total d2 h2 gone lt))
