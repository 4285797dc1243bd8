-- ===== src/Chat/Ending.antt =====
-- How a chat ends: when one program has left, the other prints what is still on its way and leaves.
use linux_systemprogramming.Common.{
  not-true, ℕ, ◌<◌, ◌≡◌, refl, sym, ap, ◌∙◌, Bool, true, false, not, ◌&&◌, List, [], ◌∷◌, ◌++◌, map,
  length, take, drop, all, append-nil, length-drop, ltb, arith, if◌then◌else◌, &&-left, &&-right,
}
use linux_systemprogramming.Common.Text.{codes}
use linux_systemprogramming.MsgServer.Buffer.{Buffer}
use linux_systemprogramming.Chat.Loop.{Wording, Chatter, bytes, leave, note, printed, hear}
use linux_systemprogramming.Chat.Pair.{
  End, Turn, chunk, ready, is_awake, move, client, Talk, step, run, said, heard,
}
use linux_systemprogramming.Chat.Rounds.{leave_lem}
use linux_systemprogramming.Chat.Lossless.{IsLossless, step-IsLossless}

-- A round in which stdin is silent and recv does not fail.
abbrev pub is_quiet : Turn → Bool
is_quiet t = not t.stdin && t.is_received

module _ (w : Wording) where
  abbrev hearing : Turn → End → End
  hearing t me = record {
    chatter = hear w (bytes (take (chunk t.amount) me.inbox)) me.chatter;
    inbox = drop (chunk t.amount) me.inbox;
  }

  move-quiet :
      (t : Turn) (me you : End)
      → is_quiet t ≡ true
      → me.chatter.is_open ≡ true
      → you.chatter.is_open ≡ false
      → move w t me you ≡ (hearing t me, record you { inbox = you.inbox ++ [] })
  unfolding move
  move-quiet t me you q o c =
      let silent = not-true t.stdin (&&-left (not t.stdin) t.is_received q) in
      let awake : is_awake t me you ≡ true = ground arith in
      let readable : (ready t me you).socket ≡ true = ground arith in
      rw (awake, silent, readable, &&-right (not t.stdin) t.is_received q) refl

  move-left : (t : Turn) (me you : End) → me.chatter.is_open ≡ false → move w t me you ≡ (me, you)
  unfolding move
  move-left t me you c = rw c refl

  hear_open : (c : Chatter) (x : ℕ) (b : Buffer) → (hear w (bytes (x ∷ b)) c).is_open ≡ c.is_open
  unfolding hear
  hear_open c x b = refl

  hear_empty :
      (c : Chatter)
      → ((hear w (bytes []) c).is_open ≡ false) × (heard (hear w (bytes []) c).log ≡ heard c.log)
  unfolding hear leave
  hear_empty c = (refl, (leave_lem w (note (printed (codes "CUT.\n")) c)).1)

module _ (ws wc : Wording) where
  abbrev at : Chatter → Buffer → End → Talk
  at c b you = record { at_server = you; at_client = record { chatter = c; inbox = b } }

  step-quiet :
      (t : Turn) (c : Chatter) (b : Buffer) (you : End)
      → is_quiet t ≡ true
      → c.is_open ≡ true
      → you.chatter.is_open ≡ false
      → step ws wc client t (at c b you)
        ≡ at
            (hear wc (bytes (take (chunk t.amount) b)) c)
            (drop (chunk t.amount) b)
            (record you { inbox = you.inbox ++ [] })
  unfolding step
  step-quiet t c b you q o k =
      ap (λ r. record { at_server = r.1; at_client = r.0 })
        (move-quiet wc t (record { chatter = c; inbox = b }) you q o k)

  run-quiet :
      (t : Turn) (ts : List Turn) (c : Chatter) (b : Buffer) (you : End)
      → is_quiet t ≡ true
      → c.is_open ≡ true
      → you.chatter.is_open ≡ false
      → run ws wc (map (λ t'. (client, t')) (t ∷ ts)) (at c b you)
        ≡ run ws wc (map (λ t'. (client, t')) ts) (
            at
              (hear wc (bytes (take (chunk t.amount) b)) c)
              (drop (chunk t.amount) b)
              (record you { inbox = you.inbox ++ [] }))
  unfolding run
  run-quiet t ts c b you q o k =
      ap (run ws wc (map (λ t'. (client, t')) ts)) (step-quiet t c b you q o k)

  run-left :
      (ts : List Turn) (d : Talk)
      → d.at_client.chatter.is_open ≡ false
      → run ws wc (map (λ t. (client, t)) ts) d ≡ d
  unfolding run step
  run-left [] d c = refl
  run-left (t ∷ ts) d c =
      ap
        (λ r. run ws wc (map (λ t'. (client, t')) ts) (record { at_server = r.1; at_client = r.0 }))
        (move-left wc t d.at_client d.at_server c)
      ∙ run-left ts d c

  -- Nothing is left open or unread.
  abbrev pub IsOver : Talk → Type 0
  IsOver d =
      (d.at_client.chatter.is_open ≡ false)
      × (heard d.at_client.chatter.log ≡ said d.at_server.chatter.log)

  drains :
      (ts : List Turn) (c : Chatter) (b : Buffer) (you : End)
      → IsLossless (at c b you)
      → c.is_open ≡ true
      → you.chatter.is_open ≡ false
      → all is_quiet ts ≡ true
      → length b < length ts
      → IsOver (run ws wc (map (λ t. (client, t)) ts) (at c b you))
  drains [] c b you h o k q l = absurd (omega arith)
  drains (t ∷ ts) c [] you h o k q l =
      let after : End = record you { inbox = you.inbox ++ [] } in
      rw
        (
          run-quiet t ts c [] you (&&-left (is_quiet t) (all is_quiet ts) q) o k,
          run-left ts (at (hear wc (bytes []) c) [] after) (hear_empty wc c).0,
        )
        ((hear_empty wc c).0, (hear_empty wc c).1 ∙ sym (append-nil (heard c.log)) ∙ h.2.arrives)
  drains (t ∷ ts) c (x ∷ b) you h o k q l =
      let now = &&-left (is_quiet t) (all is_quiet ts) q in
      rw (run-quiet t ts c (x ∷ b) you now o k) (
        drains ts (hear wc (bytes (take (chunk t.amount) (x ∷ b))) c)
          (drop (chunk t.amount) (x ∷ b)) (record you { inbox = you.inbox ++ [] })
          (rw (step-quiet t c (x ∷ b) you now o k) at
            (step-IsLossless ws wc client t (at c (x ∷ b) you) h))
          (hear_open wc c x (take (if ltb t.amount 1022 then t.amount else 1022) b) ∙ o) k
          (&&-right (is_quiet t) (all is_quiet ts) q)
          (omega (arith, length-drop (if ltb t.amount 1022 then t.amount else 1022) b)))

  -- Once the server has left, the client prints all that the server has sent and leaves too, in any
  -- state in which the bytes add up, if it is scheduled once more than there are bytes on their way,
  -- stdin stays silent and recv does not fail.
  pub run_drains :
      (ts : List Turn) (d : Talk)
      → IsLossless d
      → d.at_client.chatter.is_open ≡ true
      → d.at_server.chatter.is_open ≡ false
      → all is_quiet ts ≡ true
      → length d.at_client.inbox < length ts
      → IsOver (run ws wc (map (λ t. (client, t)) ts) d)
  run_drains ts d = drains ts d.at_client.chatter d.at_client.inbox d.at_server
