-- ===== src/Dialogue/OneWay/Delivery.antt =====
-- ch07/ex05-1.c and ch07/ex05-2.c: each step keeps the lines in order.
use mathlib.Core.Path.{subst}
use linux_systemprogramming.Common.{
  ◌≡◌, ◌⊎◌, inl, inr, refl, sym, ap, ◌∙◌, Bool, true, false, List, [], ◌∷◌, ◌++◌, append_assoc,
  Bool-cases, arith,
}
use linux_systemprogramming.Common.Text.{CString}
use linux_systemprogramming.Dialogue.System.{
  MsgQueue, is_end, fgets, msgsnd, blocks, received, msgrcv,
}
use linux_systemprogramming.Dialogue.OneWay.{
  Place, in_loop, removing, ended, OneWay, sender_step, receive, receiver_step, Side, sends,
  receives, step, run, start,
}
use linux_systemprogramming.Dialogue.OneWay.Letters.{
  until_end, has_end, owed, Open, Shut, Carries, letter-cons, IsLetter-tail, until_end-IsLetter,
  now_at, sent-Open, open_end,
}

-- What msgrcv takes from a queue in which something waits.
module _ (total : List CString) (at : Place) (input : List CString) (shown : List CString)
    (m : CString) (ms : List CString) (removed : Bool)
    (h : Open total at input shown (m ∷ ms) removed) where
  received-Open : is_end m ≡ false → Open total at input (shown ++ m ∷ []) ms removed
  received-Open e = record {
    text = append_assoc shown (m ∷ []) _ ∙ h.text;
    letter = IsLetter-tail m _ e h.letter;
    kept = h.kept;
    goes_on = h.goes_on;
    fine = h.fine;
  }

  received-Shut : is_end m ≡ true → Shut total at (shown ++ m ∷ [])
  received-Shut e =
      let last : ms ++ owed at input ≡ [] = letter-cons m _ e h.letter in
      record {
        all_shown = ap (λ l. shown ++ m ∷ l) (sym last) ∙ h.text;
        gone = left_loop h.fine last;
      }
    where
      left_loop : (at ≡ in_loop) ⊎ (at ≡ ended) → ms ++ owed at input ≡ [] → at ≡ ended
      left_loop (inr k) l = k
      left_loop (inl k) l =
          absurd (open_end ms input (h.goes_on k) (ap (λ p. ms ++ owed p input) (sym k) ∙ l))

-- The state behind a round of the sender whose text is queued.
abbrev pub queued : OneWay → OneWay
queued d =
    let t = fgets d.sender in
    record d {
      sender_at = now_at d.sender;
      sender = record t { sent = t.sent ++ t.buf ∷ [] };
      queue = record d.queue { messages = d.queue.messages ++ t.buf ∷ [] };
    }

module _ (d : OneWay) where
  pub step-queued : d.sender_at ≡ in_loop → d.queue.is_removed ≡ false → step sends d ≡ queued d
  unfolding step sender_step msgsnd
  step-queued e k = ground (arith, e, k)

  pub step-gone : d.sender_at ≡ ended → step sends d ≡ d
  unfolding step sender_step
  step-gone e = ground (arith, e)

  pub step-receive : d.receiver_at ≡ in_loop → step receives d ≡ receive (msgrcv d.queue) d
  unfolding step receiver_step
  step-receive e = ground (arith, e)

pub send-Carries :
    (total : List CString) (d : OneWay) → Carries total d → Carries total (step sends d)
send-Carries total d (inr (r, h)) = subst (Carries total) (sym (step-gone d h.gone)) (inr (r, h))
send-Carries total d (inl (r, h)) = elim h.fine [
  | inl k ↦ subst (Carries total) (sym (step-queued d k h.kept)) (
      inl (
        r,
        sent-Open total d.sender d.receiver.shown d.queue.messages d.queue.is_removed (
            subst
              (λ at.
                Open total at d.sender.input d.receiver.shown d.queue.messages d.queue.is_removed)
              k h),
      ))
  | inr k ↦ subst (Carries total) (sym (step-gone d k)) (inl (r, h))
]

module _ (d : OneWay) where
  pub step-removing :
      d.receiver_at ≡ removing
      → step receives d
        ≡ record d { receiver_at = ended; queue = record { messages = []; is_removed = true } }
  unfolding step receiver_step
  step-removing e = ground (arith, e)

  pub step-ended : d.receiver_at ≡ ended → step receives d ≡ d
  unfolding step receiver_step
  step-ended e = ground (arith, e)

module _ (q : MsgQueue) (kept : q.is_removed ≡ false) where
  pub msgrcv-nil : q.messages ≡ [] → msgrcv q ≡ blocks
  unfolding msgrcv
  msgrcv-nil e = ground (arith, e, kept)

  pub msgrcv-cons :
      (m : CString) (ms : List CString)
      → q.messages ≡ m ∷ ms
      → msgrcv q ≡ received m (record q { messages = ms })
  unfolding msgrcv
  msgrcv-cons m ms e = ground (arith, e, kept)

received-Carries :
    (total : List CString) (d : OneWay) (m : CString) (ms : List CString)
    → Open total d.sender_at d.sender.input d.receiver.shown (m ∷ ms) d.queue.is_removed
    → Carries total (receive (received m (record d.queue { messages = ms })) d)
unfolding receive
received-Carries total d m ms h = elim (Bool-cases (is_end m)) [
  | inl e ↦
      rw (receive, e)
        (inr (
          inl refl,
          received-Shut total d.sender_at d.sender.input d.receiver.shown m ms d.queue.is_removed h
              e,
        ))
  | inr e ↦
      rw (receive, e)
        (inl (
          refl,
          received-Open total d.sender_at d.sender.input d.receiver.shown m ms d.queue.is_removed h
              e,
        ))
]

pub receive-Carries :
    (total : List CString) (d : OneWay) → Carries total d → Carries total (step receives d)
unfolding receive
receive-Carries total d (inr (inl r, h)) =
    subst (Carries total) (sym (step-removing d r))
      (inr (inr refl, record { all_shown = h.all_shown; gone = h.gone }))
receive-Carries total d (inr (inr r, h)) =
    subst (Carries total) (sym (step-ended d r)) (inr (inr r, h))
receive-Carries total d (inl (r, h)) =
    subst (Carries total) (sym (step-receive d r)) (go d.queue.messages refl)
  where
    go : (ms : List CString) → d.queue.messages ≡ ms → Carries total (receive (msgrcv d.queue) d)
    go [] e =
        subst (λ k. Carries total (receive k d)) (sym (msgrcv-nil d.queue h.kept e)) (inl (r, h))
    go (m ∷ ms) e =
        subst (λ k. Carries total (receive k d)) (sym (msgrcv-cons d.queue h.kept m ms e))
          (received-Carries total d m ms (
            subst (λ l. Open total d.sender_at d.sender.input d.receiver.shown l d.queue.is_removed)
              e h))

pub run-Carries :
    (total : List CString) (ss : List Side) (d : OneWay)
    → Carries total d
    → Carries total (run ss d)
unfolding run
run-Carries total [] d h = h
run-Carries total (sends ∷ ss) d h = run-Carries total ss (step sends d) (send-Carries total d h)
run-Carries total (receives ∷ ss) d h =
    run-Carries total ss (step receives d) (receive-Carries total d h)

pub start-Carries :
    (stale : CString) (input : List CString)
    → has_end input ≡ true
    → Carries (until_end input) (start stale input)
start-Carries stale input q = inl (
  refl,
  record {
    text = refl;
    letter = until_end-IsLetter input q;
    kept = refl;
    goes_on = λ _. q;
    fine = inl refl;
  },
)
