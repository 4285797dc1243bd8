-- ===== src/Streams/Fifo/Lossless.antt =====
-- Nothing is lost in the named pipe between ch07/ex04-1.c and ch07/ex04-2.c.
use mathlib.Core.Path.{subst}
use linux_systemprogramming.Common.{
  ℕ, ◌≡◌, ◌⊎◌, refl, sym, ap, ◌∙◌, Bool, true, false, ◌||◌, Option, none, some, List, [], ◌∷◌, ◌++◌,
  append-nil, append_assoc, take-append-drop, all, if◌then◌else◌, Bool-cases, &&-left, &&-right,
  inl, inr, arith,
}
use linux_systemprogramming.Common.Text.{CString, codes}
use linux_systemprogramming.Streams.Fifo.{
  Event, wrote, Phase, in_loop, exited, Sender, Receiver, System, is_quit, send, chunk, receive,
  Move, sends, receives, step, run,
}

-- The lines in front of the first one that starts with "quit", as one text.
abbrev pub until_quit : List CString → CString
until_quit [] = []
until_quit (line ∷ lines) = let rest = until_quit lines in if is_quit line then [] else line ++ rest

abbrev pub has_quit : List CString → Bool
has_quit [] = false
has_quit (line ∷ lines) = is_quit line || has_quit lines

abbrev pub owed : Phase → List CString → CString
owed in_loop input = until_quit input
owed (exited status) input = []

-- What the receiver has written, without its prompts.
abbrev pub heard : List Event → CString
heard [] = []
heard (wrote s ∷ l) = heard l ++ s
heard (e ∷ l) = heard l

abbrev pub is_fine : Move → Bool
is_fine (sends is_written) = is_written
is_fine (receives none) = false
is_fine (receives (some n)) = true

-- As long as the receiver reads, what it has written, the bytes in the pipe and the lines to come make
-- up the text; behind that it has written the text and a newline.
pub record Carries (total : CString) (d : System) : Type 0 where
  pub text :
      d.receiver.phase ≡ in_loop
      → heard d.receiver.told ++ (d.pipe ++ owed d.sender.phase d.sender.input) ≡ total
  pub quits : d.sender.phase ≡ in_loop → has_quit d.sender.input ≡ true
  pub sent : (n : ℕ) → d.sender.phase ≡ exited n → n ≡ 0
  pub received :
      (n : ℕ)
      → d.receiver.phase ≡ exited n
      → (n ≡ 0) × (heard d.receiver.told ≡ total ++ codes "\n")

-- A round of the sender: what it writes and what is to come behind it.
abbrev Sends : Sender → Sender × CString → Type 0
Sends s (s', text) =
    (text ++ owed s'.phase s'.input ≡ until_quit s.input)
    × (s'.phase ≡ in_loop → has_quit s'.input ≡ true)
    × ((n : ℕ) → s'.phase ≡ exited n → n ≡ 0)

send-Sends : (s : Sender) → s.phase ≡ in_loop → has_quit s.input ≡ true → Sends s (send true s)
unfolding send
send-Sends s k h = go s.phase s.input k h
  where
    go :
        (ph : Phase) (input : List CString)
        → ph ≡ in_loop
        → has_quit input ≡ true
        → let s' : Sender = record s { phase = ph; input = input } in Sends s' (send true s')
    go (exited n) input k h = cc
    go in_loop [] k h = cc
    go in_loop (line ∷ lines) k h = elim (Bool-cases (is_quit line)) [
      | inl e ↦ rw e (refl, λ f. cc, λ n f. cc)
      | inr e ↦ rw e (refl, λ _. ground (arith, h, e), λ n f. cc)
    ]

-- A round of the receiver while the pipe is not at its end.
abbrev Receives : CString → Receiver → Receiver × CString → Type 0
Receives pipe r (r', rest) = (heard r'.told ++ rest ≡ heard r.told ++ pipe) × (r'.phase ≡ r.phase)

receive-Receives :
    (n : ℕ) (writer : Phase) (c : ℕ) (pipe : CString) (r : Receiver)
    → Receives (c ∷ pipe) r (receive (some n) writer (c ∷ pipe) r)
unfolding receive
receive-Receives n writer c pipe r = (
  append_assoc (heard r.told) _ _
      ∙ ap (λ l. heard r.told ++ l) (take-append-drop (chunk n) (c ∷ pipe)),
  refl,
)

abbrev pub with_sent : System → Sender × CString → System
with_sent d (s, text) = record d { sender = s; pipe = d.pipe ++ text }

abbrev pub with_received : System → Receiver × CString → System
with_received d (r, rest) = record d { receiver = r; pipe = rest }

pub Phase-cases : (ph : Phase) → (ph ≡ in_loop) ⊎ ((n : ℕ) × (ph ≡ exited n))
Phase-cases in_loop = inl refl
Phase-cases (exited n) = inr (n, refl)

module _ (d : System) where
  pub step-send :
      (b : Bool) → d.sender.phase ≡ in_loop → step (sends b) d ≡ with_sent d (send b d.sender)
  unfolding step
  step-send b h = ground arith

  pub step-sent : (b : Bool) (n : ℕ) → d.sender.phase ≡ exited n → step (sends b) d ≡ d
  unfolding step
  step-sent b n h = ground arith

  pub step-receive :
      (k : Option ℕ)
      → d.receiver.phase ≡ in_loop
      → step (receives k) d ≡ with_received d (receive k d.sender.phase d.pipe d.receiver)
  unfolding step
  step-receive k h = ground arith

  pub step-received : (k : Option ℕ) (n : ℕ) → d.receiver.phase ≡ exited n → step (receives k) d ≡ d
  unfolding step
  step-received k n h = ground arith

module _ (total : CString) (d : System) (h : Carries total d) where
  sent-Carries : d.sender.phase ≡ in_loop → Carries total (with_sent d (send true d.sender))
  sent-Carries k =
      let (e, q, z) = send-Sends d.sender k (h.quits k) in
      record {
        text = λ r.
            ap (λ l. heard d.receiver.told ++ l)
              (append_assoc d.pipe _ _
                ∙ ap (λ l. d.pipe ++ l) e
                ∙ ap (λ ph. d.pipe ++ owed ph d.sender.input) (sym k))
            ∙ h.text r;
        quits = q;
        sent = z;
        received = h.received;
      }

  received-Carries :
      (n : ℕ)
      → d.receiver.phase ≡ in_loop
      → Carries total (with_received d (receive (some n) d.sender.phase d.pipe d.receiver))
  unfolding receive
  received-Carries n k = go d.sender.phase d.pipe refl refl
    where
      carry :
          (pipe : CString) (after : Receiver × CString)
          → d.pipe ≡ pipe
          → Receives pipe d.receiver after
          → Carries total (with_received d after)
      carry pipe (r, rest) e (text, ph) =
          let due = owed d.sender.phase d.sender.input in
          record {
            text = λ _.
                sym (append_assoc (heard r.told) rest due)
                ∙ ap (λ l. l ++ due) text
                ∙ append_assoc (heard d.receiver.told) pipe due
                ∙ ap (λ p. heard d.receiver.told ++ (p ++ due)) (sym e)
                ∙ h.text k;
            quits = h.quits;
            sent = h.sent;
            received = λ i f. absurd (ground (arith, k, ph, f));
          }

      go :
          (ph : Phase) (pipe : CString)
          → d.sender.phase ≡ ph
          → d.pipe ≡ pipe
          → Carries total (with_received d (receive (some n) ph pipe d.receiver))
      go ph (c ∷ pipe) e f = carry (c ∷ pipe) _ f (receive-Receives n ph c pipe d.receiver)
      go in_loop [] e f = carry [] _ f (refl, refl)
      go (exited i) [] e f =
          let nothing : d.pipe ++ owed d.sender.phase d.sender.input ≡ [] =
            ap (λ p. p ++ owed d.sender.phase d.sender.input) f
            ∙ ap (λ ph. owed ph d.sender.input) e in
          record {
            text = λ r. absurd (ground (arith, r));
            quits = h.quits;
            sent = h.sent;
            received = λ j r. (
              cc,
              ap (λ l. l ++ codes "\n")
                  (sym (append-nil _)
                    ∙ ap (λ l. heard d.receiver.told ++ l) (sym nothing)
                    ∙ h.text k),
            );
          }

pub step-Carries :
    (total : CString) (m : Move) (d : System)
    → is_fine m ≡ true
    → Carries total d
    → Carries total (step m d)
step-Carries total (sends false) d f h = cc
step-Carries total (sends true) d f h = elim (Phase-cases d.sender.phase) [
  | inl k ↦ subst (Carries total) (sym (step-send d true k)) (sent-Carries total d h k)
  | inr (n, k) ↦ subst (Carries total) (sym (step-sent d true n k)) h
]
step-Carries total (receives none) d f h = cc
step-Carries total (receives (some n)) d f h = elim (Phase-cases d.receiver.phase) [
  | inl k ↦ subst (Carries total) (sym (step-receive d (some n) k)) (received-Carries total d h n k)
  | inr (i, k) ↦ subst (Carries total) (sym (step-received d (some n) i k)) h
]

pub run-Carries :
    (total : CString) (ms : List Move) (d : System)
    → all is_fine ms ≡ true
    → Carries total d
    → Carries total (run ms d)
unfolding run
run-Carries total [] d f h = h
run-Carries total (m ∷ ms) d f h =
    run-Carries total ms (step m d) (&&-right _ _ f) (step-Carries total m d (&&-left _ _ f) h)
