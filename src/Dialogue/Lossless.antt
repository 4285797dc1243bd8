-- ===== src/Dialogue/Lossless.antt =====
-- What reaches the other side in the dialogue of ch07/exercise-1.c and ch07/exercise-2.c.
use linux_systemprogramming.Common.{
  ◌≡◌, refl, sym, ap, ◌∙◌, List, [], ◌∷◌, ◌++◌, append-nil, append_assoc, Bool, true, false,
  Bool-cases, inl, inr,
}
use linux_systemprogramming.Common.Text.{CString}
use linux_systemprogramming.Dialogue.System.{
  Dialogue, Party, MsgQueue, FirstPc, first_typing, first_receiving, first_faulted, first_done,
  SecondPc, second_receiving, second_typing, second_faulted, removing_first_queue,
  removing_second_queue, second_done, fgets, msgsnd, msgrcv, Received, blocks, fails, received,
  show, remove_queue, first_sends, second_sends, first_receives, second_receives, first_step,
  second_step, Program, exercise1, exercise2, step, run, start,
}

-- What one side has printed, what waits in its queue and what was destroyed with the queue are what the
-- other has queued, in order. Only a queue that is removed has destroyed a message, and then none waits.
pub record Carries (sender : Party) (q : MsgQueue) (receiver : Party) : Type 0 where
  pub lost : List CString
  pub in_order : receiver.shown ++ (q.messages ++ lost) ≡ sender.sent
  pub kept : q.is_removed ≡ false → lost ≡ []
  pub emptied : q.is_removed ≡ true → q.messages ≡ []

abbrev pub IsLossless : Dialogue → Type 0
IsLossless d = Carries d.first d.queue1 d.second × Carries d.second d.queue2 d.first

-- fgets changes neither what is queued nor what is printed.
abbrev SameTalk : Party → Party → Type 0
SameTalk p p' = (p'.sent ≡ p.sent) × (p'.shown ≡ p.shown)

fgets-SameTalk : (p : Party) → SameTalk p (fgets p)
fgets-SameTalk p = go p.input
  where
    go :
        (lines : List CString)
        → SameTalk p (elim lines as (λ x. Party) [
          | [] ↦ p
          | line ∷ lines' ↦ record p { buf = line; input = lines' }
        ])
    go [] = (refl, refl)
    go (line ∷ lines) = (refl, refl)

-- A list with one more message, in front of what is lost: nothing, as long as the queue is there.
one_more :
    (shown messages lost sent : List CString) (m : CString)
    → lost ≡ []
    → shown ++ (messages ++ lost) ≡ sent
    → shown ++ ((messages ++ m ∷ []) ++ lost) ≡ sent ++ m ∷ []
one_more shown messages lost sent m e h =
    ap (λ l. shown ++ ((messages ++ m ∷ []) ++ l)) e
    ∙ ap (λ l. shown ++ l) (append-nil (messages ++ m ∷ []))
    ∙ sym (append_assoc shown messages (m ∷ []))
    ∙ ap (λ l. l ++ m ∷ [])
        (sym (ap (λ l. shown ++ l) (ap (λ l. messages ++ l) e ∙ append-nil messages)) ∙ h)

msgsnd-Carries :
    (p : Party) (q : MsgQueue) (r : Party) → Carries p q r → Carries (msgsnd p q).0 (msgsnd p q).1 r
unfolding msgsnd
msgsnd-Carries p q r h = go q.is_removed h
  where
    go :
        (b : Bool)
        → let q' : MsgQueue = record q { is_removed = b } in
          Carries p q' r → Carries (msgsnd p q').0 (msgsnd p q').1 r
    go true h = h
    go false h = record {
      lost = h.lost;
      in_order = one_more r.shown q.messages h.lost p.sent p.buf (h.kept refl) h.in_order;
      kept = h.kept;
      emptied = λ k. cc;
    }

msgsnd-shown : (p : Party) (q : MsgQueue) → (msgsnd p q).0.shown ≡ p.shown
unfolding msgsnd
msgsnd-shown p q = elim (Bool-cases q.is_removed) [ inl e ↦ rw e refl | inr e ↦ rw e refl ]

-- What a receive takes off a queue is its first message.
abbrev Takes : MsgQueue → Received → Type 0
Takes q blocks = Unit
Takes q fails = Unit
Takes q (received m q') = (q.messages ≡ m ∷ q'.messages) × (q'.is_removed ≡ q.is_removed)

msgrcv-Takes : (q : MsgQueue) → Takes q (msgrcv q)
unfolding msgrcv
msgrcv-Takes q = go q.is_removed q.messages
  where
    go :
        (b : Bool) (ms : List CString)
        → let q' : MsgQueue = record { messages = ms; is_removed = b } in Takes q' (msgrcv q')
    go true ms = tt
    go false [] = tt
    go false (m ∷ ms) = (refl, refl)

show-Carries :
    (p : Party) (q : MsgQueue) (r : Party) (m : CString) (q' : MsgQueue)
    → (q.messages ≡ m ∷ q'.messages) × (q'.is_removed ≡ q.is_removed)
    → Carries p q r
    → Carries p q' (show m r)
show-Carries p q r m q' (t, u) h = record {
  lost = h.lost;
  in_order =
      append_assoc r.shown (m ∷ []) (q'.messages ++ h.lost)
      ∙ ap (λ l. r.shown ++ (l ++ h.lost)) (sym t)
      ∙ h.in_order;
  kept = λ k. h.kept (sym u ∙ k);
  emptied = λ k. let e = h.emptied (sym u ∙ k) in cc;
}

-- What the same two have said and seen.
Carries-same :
    (p p' : Party) (q : MsgQueue) (r r' : Party)
    → p'.sent ≡ p.sent
    → r'.shown ≡ r.shown
    → Carries p q r
    → Carries p' q r'
Carries-same p p' q r r' s w h = record {
  lost = h.lost;
  in_order = ap (λ l. l ++ (q.messages ++ h.lost)) w ∙ h.in_order ∙ sym s;
  kept = h.kept;
  emptied = h.emptied;
}

-- What waits in a queue that is removed is lost.
remove_queue-Carries :
    (p : Party) (q : MsgQueue) (r : Party) → Carries p q r → Carries p (remove_queue q) r
remove_queue-Carries p q r h = record {
  lost = q.messages ++ h.lost;
  in_order = h.in_order;
  kept = λ k. cc;
  emptied = λ k. refl;
}

first_sends-IsLossless :
    (d : Dialogue) (p : Party) → SameTalk d.first p → IsLossless d → IsLossless (first_sends d p)
unfolding first_sends
first_sends-IsLossless d p (s, w) (h1, h2) = (
  msgsnd-Carries p d.queue1 d.second (Carries-same d.first p d.queue1 d.second d.second s refl h1),
  Carries-same d.second d.second d.queue2 d.first (msgsnd p d.queue1).0 refl
      (msgsnd-shown p d.queue1 ∙ w) h2,
)

second_sends-IsLossless :
    (d : Dialogue) (p : Party) → SameTalk d.second p → IsLossless d → IsLossless (second_sends d p)
unfolding second_sends
second_sends-IsLossless d p (s, w) (h1, h2) = (
  Carries-same d.first d.first d.queue1 d.second (msgsnd p d.queue2).0 refl
      (msgsnd-shown p d.queue2 ∙ w) h1,
  msgsnd-Carries p d.queue2 d.first (Carries-same d.second p d.queue2 d.first d.first s refl h2),
)

first_receives-IsLossless :
    (d : Dialogue) (r : Received)
    → Takes d.queue2 r
    → IsLossless d
    → IsLossless (first_receives d r)
unfolding first_receives
first_receives-IsLossless d blocks t h = h
first_receives-IsLossless d fails t h = h
first_receives-IsLossless d (received m q) t (h1, h2) = (
  Carries-same d.first (show m d.first) d.queue1 d.second d.second refl refl h1,
  show-Carries d.second d.queue2 d.first m q t h2,
)

second_receives-IsLossless :
    (d : Dialogue) (r : Received)
    → Takes d.queue1 r
    → IsLossless d
    → IsLossless (second_receives d r)
unfolding second_receives
second_receives-IsLossless d blocks t h = h
second_receives-IsLossless d fails t h = h
second_receives-IsLossless d (received m q) t (h1, h2) = (
  show-Carries d.first d.queue1 d.second m q t h1,
  Carries-same d.second (show m d.second) d.queue2 d.first d.first refl refl h2,
)

first_step-IsLossless : (pc : FirstPc) (d : Dialogue) → IsLossless d → IsLossless (first_step pc d)
unfolding first_step
first_step-IsLossless first_typing d h =
    first_sends-IsLossless d (fgets d.first) (fgets-SameTalk d.first) h
first_step-IsLossless first_receiving d h =
    first_receives-IsLossless d (msgrcv d.queue2) (msgrcv-Takes d.queue2) h
first_step-IsLossless first_faulted d h = h
first_step-IsLossless first_done d h = h

second_step-IsLossless :
    (pc : SecondPc) (d : Dialogue) → IsLossless d → IsLossless (second_step pc d)
unfolding second_step
second_step-IsLossless second_receiving d h =
    second_receives-IsLossless d (msgrcv d.queue1) (msgrcv-Takes d.queue1) h
second_step-IsLossless second_typing d h =
    second_sends-IsLossless d (fgets d.second) (fgets-SameTalk d.second) h
second_step-IsLossless removing_first_queue d (h1, h2) =
    (remove_queue-Carries d.first d.queue1 d.second h1, h2)
second_step-IsLossless removing_second_queue d (h1, h2) =
    (h1, remove_queue-Carries d.second d.queue2 d.first h2)
second_step-IsLossless second_faulted d h = h
second_step-IsLossless second_done d h = h

run-preserves : (ps : List Program) (d : Dialogue) → IsLossless d → IsLossless (run ps d)
unfolding run step
run-preserves [] d h = h
run-preserves (exercise1 ∷ ps) d h =
    run-preserves ps (first_step d.first_pc d) (first_step-IsLossless d.first_pc d h)
run-preserves (exercise2 ∷ ps) d h =
    run-preserves ps (second_step d.second_pc d) (second_step-IsLossless d.second_pc d h)

-- In every interleaving, for any inputs, what each program has printed is what the other has queued for
-- it, in order and each message once, up to the messages that still wait and, once the queue is removed,
-- those that were destroyed with it.
pub run-IsLossless :
    (ps : List Program) (input1 input2 : List CString) (stale1 stale2 : CString)
    → IsLossless (run ps (start input1 input2 stale1 stale2))
unfolding start
run-IsLossless ps input1 input2 stale1 stale2 =
    run-preserves ps (start input1 input2 stale1 stale2) (
      record { lost = []; in_order = refl; kept = λ k. refl; emptied = λ k. refl },
      record { lost = []; in_order = refl; kept = λ k. refl; emptied = λ k. refl },
    )
