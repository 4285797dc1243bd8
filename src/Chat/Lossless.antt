-- ===== src/Chat/Lossless.antt =====
-- What each of two chat programs prints is what the other sends.
use linux_systemprogramming.Common.{
  ℕ, ◌≡◌, refl, sym, ap, ◌∙◌, Bool, true, false, List, [], ◌∷◌, ◌++◌, take, drop, all, append-nil,
  take-append-drop, if◌then◌else◌, Bool-cases, inl, inr,
}
use linux_systemprogramming.Common.Text.{CString}
use linux_systemprogramming.MsgServer.Buffer.{Buffer, is_text}
use linux_systemprogramming.Chat.Loop.{Wording, Recv, recv_failed, bytes, fgets, say, hear}
use linux_systemprogramming.Chat.Pair.{
  End, Turn, chunk, recv, is_awake, move, Side, server, client, Talk, step, run, start, said, heard,
}
use linux_systemprogramming.Chat.Rounds.{
  IsTyped, fgets-IsTyped, text_of, fgets_log, say_lem, hear_lem, IsSound, Carries-say, Carries-hear,
  inbox_text, take_text, cstr_text, socket_ready,
}

module _ (w : Wording) (me you : End) (h : IsSound me you) where
  say-IsSound :
      (is_sent : Bool)
      → IsSound
          (record { chatter = say w is_sent (fgets me.chatter); inbox = me.inbox })
          (record you { inbox = you.inbox ++ (if is_sent then (fgets me.chatter).buffer else []) })
  say-IsSound is_sent =
      let read = fgets-IsTyped me.chatter h.0 in
      let (s, k, t) = say_lem w is_sent (fgets me.chatter) in
      (
        t read,
        record { buffer = h.1.buffer; input = h.1.input },
        Carries-say me.chatter (say w is_sent (fgets me.chatter)) you
            (if is_sent then (fgets me.chatter).buffer else [])
            (s
              ∙ ap (λ l. said l ++ (if is_sent then (fgets me.chatter).buffer else []))
                  (fgets_log w me.chatter))
            (out_text is_sent read) h.2,
        Carries-hear you.chatter me (say w is_sent (fgets me.chatter)) [] me.inbox refl
            (k ∙ ap heard (fgets_log w me.chatter) ∙ sym (append-nil (heard me.chatter.log))) h.3,
      )
    where
      out_text :
          (b : Bool)
          → IsTyped (fgets me.chatter)
          → is_text (if b then (fgets me.chatter).buffer else []) ≡ true
      out_text true r = r.buffer
      out_text false r = refl

  hear-IsSound :
      (v : Recv) (rest : Buffer)
      → me.inbox ≡ text_of v ++ rest
      → IsSound
          (record { chatter = hear w v me.chatter; inbox = rest })
          (record you { inbox = you.inbox ++ [] })
  hear-IsSound v rest e =
      let (s, k, t) = hear_lem w v me.chatter in
      (
        t h.0,
        record { buffer = h.1.buffer; input = h.1.input },
        Carries-say me.chatter (hear w v me.chatter) you []
            (s ∙ sym (append-nil (said me.chatter.log))) refl h.2,
        Carries-hear you.chatter me (hear w v me.chatter) (text_of v) rest e k h.3,
      )

  received_text :
      (n : ℕ) (b : Bool)
      → me.inbox
        ≡ text_of (if b then bytes (take (chunk n) me.inbox) else recv_failed)
          ++ (if b then drop (chunk n) me.inbox else me.inbox)
  received_text n true =
      let whole = take_text (chunk n) me.inbox (inbox_text you.chatter me h.3) in
      sym (
        ap (λ l. l ++ drop (chunk n) me.inbox) (cstr_text (take (chunk n) me.inbox) whole)
        ∙ take-append-drop (chunk n) me.inbox)
  received_text n false = refl

  -- A round keeps both ends sound.
  move-IsSound : (t : Turn) → IsSound (move w t me you).0 (move w t me you).1
  unfolding move
  move-IsSound t = elim (Bool-cases (is_awake t me you)) [
    | inr e ↦ rw e h
    | inl e ↦ elim (Bool-cases t.stdin) [
      | inl q ↦ rw (e, q) (say-IsSound t.is_sent)
      | inr q ↦
          rw (e, q, socket_ready t me you e q)
            (hear-IsSound (recv t me)
              (if t.is_received then drop (chunk t.amount) me.inbox else me.inbox)
              (received_text t.amount t.is_received))
    ]
  ]

-- Both directions, as seen from the server.
abbrev pub IsLossless : Talk → Type 0
IsLossless d = IsSound d.at_server d.at_client

swapped : (me you : End) → IsSound me you → IsSound you me
swapped me you (a, b, c, d) = (b, a, d, c)

module _ (ws wc : Wording) where
  pub step-IsLossless :
      (s : Side) (t : Turn) (d : Talk) → IsLossless d → IsLossless (step ws wc s t d)
  unfolding step
  step-IsLossless server t d h = move-IsSound ws d.at_server d.at_client h t
  step-IsLossless client t d h =
      swapped _ _ (move-IsSound wc d.at_client d.at_server (swapped d.at_server d.at_client h) t)

  pub run-preserves :
      (ts : List (Side × Turn)) (d : Talk) → IsLossless d → IsLossless (run ws wc ts d)
  unfolding run
  run-preserves [] d h = h
  run-preserves ((s, t) ∷ ts) d h = run-preserves ts (step ws wc s t d) (step-IsLossless s t d h)

  -- In every schedule of the two programs, with any interruptions of send and recv, what each has
  -- printed of the other's texts, followed by the bytes still on their way, is what the other has
  -- sent: nothing is lost, doubled, changed or reordered, if the lines typed and what the buffers
  -- hold at first are texts without a NUL.
  pub run_carries :
      (ts : List (Side × Turn)) (stale stale' : CString) (input input' : List CString)
      → is_text stale ≡ true
      → is_text stale' ≡ true
      → all is_text input ≡ true
      → all is_text input' ≡ true
      → let d = run ws wc ts (start stale input stale' input') in
        (heard d.at_client.chatter.log ++ d.at_client.inbox ≡ said d.at_server.chatter.log)
        × (heard d.at_server.chatter.log ++ d.at_server.inbox ≡ said d.at_client.chatter.log)
  run_carries ts stale stale' input input' a b c e =
      let (_, _, k, l) = run-preserves ts (start stale input stale' input') (
        record { buffer = a; input = c },
        record { buffer = b; input = e },
        record { texts = refl; arrives = refl },
        record { texts = refl; arrives = refl },
      ) in
      (k.arrives, l.arrives)
