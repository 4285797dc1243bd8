-- ===== src/Streams/Fifo/Endless.antt =====
-- ch07/ex04-1.c goes on for ever without a line "quit".
use mathlib.Core.Path.{subst}
use linux_systemprogramming.Common.{
  ◌≡◌, refl, sym, true, false, List, [], ◌∷◌, all, &&-left, &&-right, inl, inr, arith,
}
use linux_systemprogramming.Common.Text.{CString}
use linux_systemprogramming.Streams.Fifo.{
  in_loop, Sender, System, is_quit, send, Move, sends, receives, step, run, start,
}
use linux_systemprogramming.Streams.Fifo.Lossless.{
  has_quit, is_fine, Phase-cases, step-send, step-receive, step-received,
}

abbrev Endless : Sender → Type 0
Endless s = (s.phase ≡ in_loop) × (is_quit s.msg ≡ false) × (has_quit s.input ≡ false)

send-Endless : (s : Sender) → Endless s → Endless (send true s).0
unfolding send
send-Endless s (k, q, r) = go s.input q r
  where
    go :
        (input : List CString)
        → is_quit s.msg ≡ false
        → has_quit input ≡ false
        → Endless (send true (record s { input = input })).0
    go [] q r = rw q (k, q, r)
    go (line ∷ lines) q r =
        let quiet : is_quit line ≡ false = ground (arith, r) in
        rw quiet (k, quiet, ground (arith, r))

step-Endless :
    (m : Move) (d : System) → is_fine m ≡ true → Endless d.sender → Endless (step m d).sender
step-Endless (sends false) d f h = cc
step-Endless (sends true) d f h =
    subst (λ d. Endless d.sender) (sym (step-send d true h.0)) (send-Endless d.sender h)
step-Endless (receives n) d f h = elim (Phase-cases d.receiver.phase) [
  | inl k ↦ subst (λ d. Endless d.sender) (sym (step-receive d n k)) h
  | inr (i, k) ↦ subst (λ d. Endless d.sender) (sym (step-received d n i k)) h
]

run-Endless :
    (ms : List Move) (d : System)
    → all is_fine ms ≡ true
    → Endless d.sender
    → Endless (run ms d).sender
unfolding run
run-Endless [] d f h = h
run-Endless (m ∷ ms) d f h =
    run-Endless ms (step m d) (&&-right _ _ f) (step-Endless m d (&&-left _ _ f) h)

-- Without a line that starts with "quit", in `msg` or to be read, and with no failing call, the sender
-- is in its loop after any moves: also behind the end of its input, where it writes `msg` again.
pub run_endless :
    (ms : List Move) (stale : CString) (input : List CString)
    → all is_fine ms ≡ true
    → is_quit stale ≡ false
    → has_quit input ≡ false
    → (run ms (start stale input)).sender.phase ≡ in_loop
run_endless ms stale input f q r = (run-Endless ms (start stale input) f (refl, q, r)).0
