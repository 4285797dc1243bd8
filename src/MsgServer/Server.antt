-- ===== src/MsgServer/Server.antt =====
-- `receive_from` of ch09/msg_server.c, and the server as the sequence of its critical sections: the
-- main thread handles datagrams from either port, the collector takes entries and logs them.
use linux_systemprogramming.Common.{
  ◌+◌, ◌≤◌, ◌<◌, ◌≡◌, refl, sym, ◌∙◌, true, Option, none, some, List, [], ◌∷◌, ◌++◌, length, arith,
  ◌==◌, lt→ltb, if◌then◌else◌, length-append, append-nil, append_assoc,
}
use mathlib.Core.Path.{subst}
use linux_systemprogramming.Common.Text.{CString}
use linux_systemprogramming.MsgServer.Buffer.{Buffer, cstr, is_text, cstr-is_text}
use linux_systemprogramming.MsgServer.Queue.{
  Queue, queue_size, enqueue, waits, faulted, took, take_entry, initial,
}
use linux_systemprogramming.MsgServer.Refine.{
  Message, reads, Holds, cut, pushed, enqueue_refines, take_entry_refines, initial-Holds,
}

-- `if (buf[nbytes - 1] == '\n') buf[--nbytes] = '\0';`
abbrev pub chomp : Buffer → Buffer
chomp [] = []
chomp (c ∷ []) = if c == b'\n' then [] else c ∷ []
chomp (c ∷ d ∷ b) = c ∷ chomp (d ∷ b)

-- A datagram from the address `ip`, the `nbytes` bytes that recvfrom has written; it writes at most
-- 1023 and returns 0 or -1 for `[]`.
unfoldable pub receive_from : CString → Buffer → Queue → Option Queue
receive_from ip [] q = some q
receive_from ip (c ∷ b) q = enqueue ip (cstr (chomp (c ∷ b))) q

-- What the two threads do under the mutex, one after the other.
pub data Turn : Type 0 where
  datagram : CString → Buffer → Turn
  collect : Turn

pub record Server : Type 0 where
  pub messages : Queue
  -- the lines written to msg.log, without their time stamps
  pub log : List Message

-- One round of the loop of `msg_collect`; while the queue is empty the thread sleeps.
unfoldable pub msg_collect : Server → Option Server
msg_collect s = elim (take_entry s.messages) [
  | waits ↦ some s
  | faulted ↦ none
  | took entry q ↦ some (record { messages = q; log = s.log ++ (reads entry ∷ []) })
]

unfoldable pub turn : Turn → Server → Option Server
unfolding receive_from msg_collect
turn (datagram ip data') s = elim (receive_from ip data' s.messages) [
  | none ↦ none
  | some q ↦ some (record s { messages = q })
]
turn collect s = msg_collect s

unfoldable pub run : List Turn → Server → Option Server
run [] s = some s
run (a ∷ as') s = elim (turn a s) [ none ↦ none | some s' ↦ run as' s' ]

abbrev pub start : Server
start = record { messages = initial; log = [] }

-- The specification: the waiting messages and the log.
abbrev pub Spec : Type 0
Spec = List Message × List Message

abbrev pub collected : Spec → Spec
collected ([], log) = ([], log)
collected (m ∷ ms, log) = (ms, log ++ (m ∷ []))

abbrev pub spec_turn : Turn → Spec → Spec
spec_turn (datagram ip []) s = s
spec_turn (datagram ip (c ∷ b)) (ms, log) = (pushed ip (cstr (chomp (c ∷ b))) ms, log)
spec_turn collect s = collected s

abbrev pub spec_run : List Turn → Spec → Spec
spec_run [] s = s
spec_run (a ∷ as') s = spec_run as' (spec_turn a s)

-- inet_ntoa yields a text.
abbrev pub HasText : Turn → Type 0
HasText (datagram ip b) = is_text ip ≡ true
HasText collect = Unit

abbrev pub HaveTexts : List Turn → Type 0
HaveTexts [] = Unit
HaveTexts (a ∷ as') = HasText a × HaveTexts as'

abbrev pub Simulates : Option Server → Spec → Type 0
Simulates none x = ⊥
Simulates (some s) x = Holds s.messages x.0 × (s.log ≡ x.1)

turn-Simulates :
    (a : Turn) (s : Server) (x : Spec)
    → HasText a
    → Holds s.messages x.0
    → s.log ≡ x.1
    → Simulates (turn a s) (spec_turn a x)
unfolding turn
turn-Simulates (datagram ip []) s x w h e = (h, e)
turn-Simulates (datagram ip (c ∷ b)) s x w h e =
    let (q', p, h') =
      enqueue_refines ip (cstr (chomp (c ∷ b))) s.messages x.0 h w (cstr-is_text (chomp (c ∷ b))) in
    rw (p, Simulates) (h', e)
turn-Simulates collect s ([], log) w h e = rw (take_entry_refines s.messages [] h, Simulates) (h, e)
turn-Simulates collect s (m ∷ ms, log) w h e =
    let (entry, q', p, r, h') = take_entry_refines s.messages (m ∷ ms) h in
    rw (p, Simulates) (h', rw (r, e))

run-Simulates :
    (turns : List Turn) (s : Server) (x : Spec)
    → HaveTexts turns
    → Holds s.messages x.0
    → s.log ≡ x.1
    → Simulates (run turns s) (spec_run turns x)
unfolding run
run-Simulates [] s x w h e = (h, e)
run-Simulates (a ∷ as') s x (w, ws) h e =
    go (turn a s) (turn-Simulates a s x w h e)
      (λ s' h' e'. run-Simulates as' s' (spec_turn a x) ws h' e')
  where
    go :
        (o : Option Server)
        → Simulates o (spec_turn a x)
        → ((s' : Server)
            → Holds s'.messages (spec_turn a x).0
            → s'.log ≡ (spec_turn a x).1
            → Simulates (run as' s') (spec_run as' (spec_turn a x)))
        → Simulates (elim o [ none ↦ none | some s' ↦ run as' s' ]) (spec_run as' (spec_turn a x))
    go none bad next = absurd bad
    go (some s') (h', e') next = next s' h' e'

-- From an empty queue the server works through any sequence of datagrams and collector turns with
-- no access outside its array. It logs what a first-in first-out queue of 100 places hands on, in
-- the same order, and holds what that queue holds.
pub run_refines :
    (turns : List Turn)
    → HaveTexts turns
    → (s : Server) × (run turns start ≡ some s)
      × Holds s.messages (spec_run turns ([], [])).0
      × (s.log ≡ (spec_run turns ([], [])).1)
run_refines turns w =
    result (run turns start) (run-Simulates turns start ([], []) w initial-Holds refl)
  where
    result :
        (o : Option Server)
        → Simulates o (spec_run turns ([], []))
        → (s : Server) × (o ≡ some s)
          × Holds s.messages (spec_run turns ([], [])).0
          × (s.log ≡ (spec_run turns ([], [])).1)
    result none bad = absurd bad
    result (some s) (h, e) = (s, refl, h, e)

-- The messages of the datagrams that are not empty, as `enqueue` stores them.
abbrev pub received : List Turn → List Message
received [] = []
received (datagram ip [] ∷ as') = received as'
received (datagram ip (c ∷ b) ∷ as') = cut ip (cstr (chomp (c ∷ b))) ∷ received as'
received (collect ∷ as') = received as'

pushed-room :
    (ip msg : CString) (ms : List Message)
    → length ms < queue_size
    → pushed ip msg ms ≡ ms ++ (cut ip msg ∷ [])
pushed-room ip msg ms h = rw (lt→ltb (length ms) queue_size h)

spec_lossless :
    (turns : List Turn) (x : Spec)
    → length x.0 + length turns ≤ queue_size
    → (spec_run turns x).1 ++ (spec_run turns x).0 ≡ (x.1 ++ x.0) ++ received turns
spec_lossless [] x h = sym (append-nil _)
spec_lossless (datagram ip [] ∷ as') x h = spec_lossless as' x (omega arith)
spec_lossless (datagram ip (c ∷ b) ∷ as') (ms, log) h =
    let m : Message = cut ip (cstr (chomp (c ∷ b))) in
    let room : pushed ip (cstr (chomp (c ∷ b))) ms ≡ ms ++ (m ∷ []) =
      pushed-room ip (cstr (chomp (c ∷ b))) ms (omega arith) in
    subst
      (λ p.
        (spec_run as' (p, log)).1 ++ (spec_run as' (p, log)).0 ≡ (log ++ ms) ++ (m ∷ received as'))
      (sym room)
      (spec_lossless as' (ms ++ (m ∷ []), log) (omega (arith, length-append ms (m ∷ [])))
        ∙ simp append_assoc)
spec_lossless (collect ∷ as') ([], log) h = spec_lossless as' ([], log) (omega arith)
spec_lossless (collect ∷ as') (m ∷ ms, log) h =
    spec_lossless as' (ms, log ++ (m ∷ [])) (omega arith) ∙ simp append_assoc

-- While no more than 100 turns have been taken, no message is lost, doubled or reordered: the log,
-- followed by what waits in the queue, is the sequence of the messages received.
pub run_lossless :
    (turns : List Turn)
    → HaveTexts turns
    → length turns ≤ queue_size
    → (s : Server) × (ms : List Message) × (run turns start ≡ some s)
      × Holds s.messages ms
      × (s.log ++ ms ≡ received turns)
run_lossless turns w few =
    let (s, e, h, l) = run_refines turns w in
    (s, (spec_run turns ([], [])).0, e, h, rw l (spec_lossless turns ([], []) (omega arith)))
