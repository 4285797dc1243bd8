-- ===== src/MsgServer/Collector.antt =====
-- The whole of `msg_collect` of ch09/msg_server.c: its log file, and the text of an entry.
use mathlib.Core.Path.{subst}
use linux_systemprogramming.Common.{
  ℕ, zero, suc, ◌≡◌, refl, sym, ap, ◌∙◌, Bool, true, false, Option, some, List, [], ◌∷◌, ◌++◌, take,
  length, ltb, if◌then◌else◌, append-nil, append_assoc, Bool-cases, inl, inr, arith,
}
use linux_systemprogramming.Common.Text.{CString, codes}
use linux_systemprogramming.MsgServer.Queue.{queue_size}
use linux_systemprogramming.MsgServer.Buffer.{cstr}
use linux_systemprogramming.MsgServer.Refine.{Message, Holds, cut}
use linux_systemprogramming.MsgServer.Server.{
  Turn, datagram, collect, Server, run, start, chomp, HaveTexts, received, spec_run, run_refines,
}

-- `fprintf(fp, ..)` and `printf(..)`; `timebuf` is what strftime makes of the time.
unfoldable pub entry_texts : CString → Message → CString × CString
entry_texts timebuf (ip, msg) =
    let line = timebuf ++ codes " " ++ ip ++ codes " " ++ msg ++ codes "\n" in
    (line, codes "[log] " ++ line)

-- The collector's turns; when fopen fails the thread has returned and takes none.
unfoldable pub msg_collect_turns : Bool → List Turn → List Turn
msg_collect_turns is_open [] = []
msg_collect_turns is_open (datagram ip data' ∷ turns) =
    datagram ip data' ∷ msg_collect_turns is_open turns
msg_collect_turns is_open (collect ∷ turns) =
    let rest = msg_collect_turns is_open turns in if is_open then collect ∷ rest else rest

-- The server with either end of fopen.
unfoldable pub run_with : Bool → List Turn → Option Server
unfolding msg_collect_turns
run_with is_open turns = run (msg_collect_turns is_open turns) start

take_nil : (n : ℕ) → take {A = Message} n [] ≡ []
take_nil zero = refl
take_nil (suc n) = refl

-- A full queue of `n` places keeps the first `n` messages.
push-take :
    (n : ℕ) (l : List Message) (m : Message)
    → (if ltb (length (take n l)) n then take n l ++ m ∷ [] else take n l) ≡ take n (l ++ m ∷ [])
push-take zero l m = refl
push-take (suc n) [] m =
    let room : ltb 0 (suc n) ≡ true = ground arith in rw (room, take_nil n) refl
push-take (suc n) (x ∷ l) m = elim (Bool-cases (ltb (length (take n l)) n)) [
  | inl e ↦
      let room : ltb (suc (length (take n l))) (suc n) ≡ true = ground (arith, e) in
      rw room (ap (λ k. x ∷ k) (rw⁻¹ (push-take n l m) (rw e refl)))
  | inr e ↦
      let full : ltb (suc (length (take n l))) (suc n) ≡ false = ground (arith, e) in
      rw full (ap (λ k. x ∷ k) (rw⁻¹ (push-take n l m) (rw e refl)))
]

spec_unlogged :
    (turns : List Turn) (l : List Message)
    → spec_run (msg_collect_turns false turns) (take queue_size l, [])
      ≡ (take queue_size (l ++ received turns), [])
unfolding msg_collect_turns
spec_unlogged [] l = ap (λ k. (take queue_size k, [])) (sym (append-nil l))
spec_unlogged (datagram ip [] ∷ turns) l = spec_unlogged turns l
spec_unlogged (datagram ip (c ∷ b) ∷ turns) l =
    let m = cut ip (cstr (chomp (c ∷ b))) in
    ap (λ k. spec_run (msg_collect_turns false turns) (k, [])) (push-take queue_size l m)
    ∙ spec_unlogged turns (l ++ m ∷ [])
    ∙ ap (λ k. (take queue_size k, [])) (append_assoc l (m ∷ []) (received turns))
spec_unlogged (collect ∷ turns) l = spec_unlogged turns l

turns-HaveTexts :
    (b : Bool) (turns : List Turn) → HaveTexts turns → HaveTexts (msg_collect_turns b turns)
unfolding msg_collect_turns
turns-HaveTexts b [] w = w
turns-HaveTexts b (datagram ip d ∷ turns) (w, ws) = (w, turns-HaveTexts b turns ws)
turns-HaveTexts true (collect ∷ turns) (w, ws) = (w, turns-HaveTexts true turns ws)
turns-HaveTexts false (collect ∷ turns) (w, ws) = turns-HaveTexts false turns ws

-- When fopen fails, the server still takes any datagrams with no access outside its array, logs nothing,
-- and keeps the first 100 messages: every later one is dropped.
pub run_with-unlogged :
    (turns : List Turn)
    → HaveTexts turns
    → (s : Server) × (run_with false turns ≡ some s)
      × (s.log ≡ [])
      × Holds s.messages (take queue_size (received turns))
unfolding run_with
run_with-unlogged turns w =
    let (s, e, h, l) =
      run_refines (msg_collect_turns false turns) (turns-HaveTexts false turns w) in
    let spec = spec_unlogged turns [] in
    (s, e, l ∙ ap (λ x. x.1) spec, subst (λ x. Holds s.messages x.0) spec h)
