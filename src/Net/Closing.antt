-- ===== src/Net/Closing.antt =====
-- The chat programs close what they open.
use linux_systemprogramming.Common.{
  hit, ℕ, ◌+◌, ◌*◌, ◌≡◌, refl, ap, ◌∙◌, Bool, true, false, Bool-cases, inl, inr, some, List, [],
  ◌∷◌, arith, if◌then◌else◌,
}
use linux_systemprogramming.Common.Text.{CString, codes, strn_eq}
use linux_systemprogramming.Chat.Loop as Loop
use linux_systemprogramming.Net.Calls.{
  opened, accepted, chatted, closed, printed, complained, Trace, Os, Outcome, returned, running,
  Net, ◌>>=◌, bound, listened, looked_up, connected,
}
use linux_systemprogramming.Net.Rules.{Ends, after_checked, after_test}
use linux_systemprogramming.Net.Chat.{chatting, server_main, client_main}

-- The closings in a run of `chatting`.
abbrev pub closures : List Loop.Event → ℕ
closures [] = 0
closures (Loop.closed ∷ l) = 1 + closures l
closures (e ∷ l) = closures l

-- How often a descriptor came from socket or accept, and how often it was closed.
abbrev pub opens : ℕ → Trace → ℕ
opens n [] = 0
opens n (opened (some fd) ∷ t) = hit n fd + opens n t
opens n (accepted fd (some (c, address)) ∷ t) = hit n c + opens n t
opens n (e ∷ t) = opens n t

abbrev pub closes : ℕ → Trace → ℕ
closes n [] = 0
closes n (closed fd ∷ t) = hit n fd + closes n t
closes n (chatted fd l ∷ t) = hit n fd * closures l + closes n t
closes n (e ∷ t) = closes n t

-- The newest event tells the user what went wrong.
abbrev pub is_told : Trace → Bool
is_told [] = false
is_told (complained s ∷ t) = true
is_told (printed s ∷ t) = true
is_told (e ∷ t) = false

-- A run that returns returns 0 and has closed each descriptor as often as it got it; a run that exits
-- has told why and gives 1.
abbrev pub IsClosing : Outcome ℕ → Type 0
IsClosing =
    Ends (λ status t. (status ≡ 0) × ((n : ℕ) → opens n t ≡ closes n t))
      (λ status t. (status ≡ 1) × (is_told t ≡ true))

closures-farewells :
    (ts : List CString) (l : List Loop.Event) → closures (Loop.farewells ts l) ≡ closures l
closures-farewells [] l = refl
closures-farewells (t ∷ ts) l = closures-farewells ts (Loop.printed t ∷ l)

-- The socket is closed once the loop is left, and not before.
abbrev IsOnce : Loop.Chatter → Type 0
IsOnce c = closures c.log ≡ (if c.is_open then 0 else 1)

module _ (w : Loop.Wording) where
  leave-IsOnce : (c : Loop.Chatter) → closures c.log ≡ 0 → IsOnce (Loop.leave w c)
  unfolding Loop.leave
  leave-IsOnce c h = closures-farewells w.farewell (Loop.closed ∷ c.log) ∙ ap (λ k. 1 + k) h

  fgets_same :
      (c : Loop.Chatter) → ((Loop.fgets c).log ≡ c.log) × ((Loop.fgets c).is_open ≡ c.is_open)
  fgets_same c = go c.input
    where
      go :
          (lines : List CString)
          → ((elim lines as (λ x. Loop.Chatter) [
            | [] ↦ c
            | l ∷ ls ↦ record c { buffer = l; input = ls }
          ]).log
              ≡ c.log)
            × ((elim lines as (λ x. Loop.Chatter) [
              | [] ↦ c
              | l ∷ ls ↦ record c { buffer = l; input = ls }
            ]).is_open
                ≡ c.is_open)
      go [] = (refl, refl)
      go (l ∷ ls) = (refl, refl)

  say-IsOnce :
      (is_sent : Bool) (c : Loop.Chatter)
      → c.is_open ≡ true
      → closures c.log ≡ 0
      → IsOnce (Loop.say w is_sent c)
  unfolding Loop.say
  say-IsOnce true c o h = elim (Bool-cases (strn_eq 4 c.buffer (codes "exit"))) [
    | inl e ↦
        rw e (leave-IsOnce (Loop.note (Loop.printed w.bye) (Loop.note (Loop.sent c.buffer) c)) h)
    | inr e ↦ rw (e, o) h
  ]
  say-IsOnce false c o h = leave-IsOnce (Loop.note (Loop.complained (codes "send")) c) h

  hear-IsOnce :
      (v : Loop.Recv) (c : Loop.Chatter)
      → c.is_open ≡ true
      → closures c.log ≡ 0
      → IsOnce (Loop.hear w v c)
  unfolding Loop.hear
  hear-IsOnce Loop.recv_failed c o h = leave-IsOnce (Loop.note (Loop.complained (codes "recv")) c) h
  hear-IsOnce (Loop.bytes []) c o h = leave-IsOnce (Loop.note (Loop.printed (codes "CUT.\n")) c) h
  hear-IsOnce (Loop.bytes (b ∷ bs)) c o h = rw o h

  round-IsOnce :
      (r : Loop.Ready) (s : Bool) (v : Loop.Recv) (c : Loop.Chatter)
      → c.is_open ≡ true
      → closures c.log ≡ 0
      → IsOnce (Loop.chatting w r s v c)
  unfolding Loop.chatting
  round-IsOnce r s v c o h = elim (Bool-cases r.stdin) [
    | inl e ↦
        rw e (say-IsOnce s (Loop.fgets c) ((fgets_same c).1 ∙ o) (ap closures (fgets_same c).0 ∙ h))
    | inr e ↦ elim (Bool-cases r.socket) [
      | inl f ↦ rw (e, f) (hear-IsOnce v c o h)
      | inr f ↦ rw (e, f) (leave-IsOnce (Loop.note (Loop.printed (codes "오류발생.\n")) c) h)
    ]
  ]

  chat-IsOnce :
      (answers : List (Loop.Ready × Bool × Loop.Recv)) (c : Loop.Chatter)
      → IsOnce c
      → IsOnce (Loop.chat (Loop.chatting w) answers c)
  unfolding Loop.chat
  chat-IsOnce [] c h = h
  chat-IsOnce ((r, s, v) ∷ answers) c h =
      go c.is_open refl (chat-IsOnce answers (Loop.chatting w r s v c))
    where
      go :
          (b : Bool)
          → c.is_open ≡ b
          → (IsOnce (Loop.chatting w r s v c)
              → IsOnce (Loop.chat (Loop.chatting w) answers (Loop.chatting w r s v c)))
          → IsOnce (elim b [
            | true ↦ Loop.chat (Loop.chatting w) answers (Loop.chatting w r s v c)
            | false ↦ c
          ])
      go true e k = k (round-IsOnce r s v c e (h ∙ ap (λ b. if b then 0 else 1) e))
      go false e k = h

module _ (os : Os) (w : Loop.Wording) where
  abbrev chat_from : Trace → Loop.Chatter
  chat_from t =
      Loop.chat (Loop.chatting w) (os.answers t)
        (record { buffer = os.stale_text; input = os.input t; log = []; is_open = true })

  -- `chatting` closes its socket once when it returns.
  chatting-closes :
      {B : Type 0} (sd : ℕ) (t : Trace) (Q : B → Trace → Type 0) (E : ℕ → Trace → Type 0)
      (f : Unit {0} → Net B)
      → ((l : List Loop.Event) → closures l ≡ 1 → Ends Q E (f tt (chatted sd l ∷ t)))
      → Ends Q E ((chatting os (Loop.chatting w) sd >>= f) t)
  unfolding chatting
  chatting-closes {B} sd t Q E f q = go (chat_from t).is_open refl (
      chat-IsOnce w (os.answers t)
        (record { buffer = os.stale_text; input = os.input t; log = []; is_open = true }) refl)
    where
      go :
          (b : Bool)
          → (chat_from t).is_open ≡ b
          → IsOnce (chat_from t)
          → Ends Q E (
              ((λ t'. elim b as (λ x. Outcome (Unit {0})) [
                | true ↦ running (chatted sd (chat_from t).log ∷ t)
                | false ↦ returned tt (chatted sd (chat_from t).log ∷ t)
              ])
                  >>= f)
                t)
      go true e h = tt
      go false e h = q (chat_from t).log (h ∙ ap (λ b. if b then 0 else 1) e)

  pub server_closes : IsClosing (server_main os (Loop.chatting w) [])
  unfolding server_main
  server_closes =
      after_checked (codes "socket") 1 [] _ _ os.socket opened _ (refl, refl)
        (λ sockfd.
          after_test (codes "bind") 1 _ _ _ (λ t. os.bind t sockfd 60000) (bound sockfd 60000) _
            (refl, refl)
            (after_test (codes "listen") 1 _ _ _ (λ t. os.listen t sockfd 10) (listened sockfd 10) _
              (refl, refl)
              (after_checked (codes "accept") 1 _ _ _ (λ t. os.accept t sockfd) (accepted sockfd) _
                (refl, refl)
                (λ client.
                  chatting-closes client.0 _ _ _ _
                    (λ l once. (refl, λ n. rw once (omega arith)))))))

  pub client_closes : (args : List CString) → IsClosing (client_main os (Loop.chatting w) args [])
  unfolding client_main
  client_closes [] = (refl, refl)
  client_closes (a ∷ b ∷ args) = (refl, refl)
  client_closes (host ∷ []) =
      after_checked (codes "gethostbyname") 1 [] _ _ (λ t. os.gethostbyname t host) (looked_up host)
        _ (refl, refl)
        (λ address.
          after_checked (codes "socket") 1 _ _ _ os.socket opened _ (refl, refl)
            (λ sockfd.
              after_test (codes "connect") 1 _ _ _ (λ t. os.connect t sockfd address 60000)
                (connected sockfd address 60000) _ (refl, refl)
                (chatting-closes sockfd _ _ _ _ (λ l once. (refl, λ n. rw once (omega arith))))))
