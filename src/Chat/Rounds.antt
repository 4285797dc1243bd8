-- ===== src/Chat/Rounds.antt =====
-- What one round of a chat program keeps, for what it says and for what it hears.
use linux_systemprogramming.Common.{
  ℕ, ◌≡◌, refl, sym, ap, ◌∙◌, Bool, true, false, not, List, [], ◌∷◌, ◌++◌, take, drop, all,
  append_assoc, append-nil, all-append, take-append-drop, arith, ◌==◌, if◌then◌else◌, Bool-cases,
  &&-left, &&-right, inl, inr,
}
use linux_systemprogramming.Common.Text.{CString, codes, strn_eq}
use linux_systemprogramming.MsgServer.Buffer.{Buffer, cstr, is_text, cstr-is_text}
use linux_systemprogramming.Chat.Loop.{
  Wording, Chatter, Recv, recv_failed, bytes, Event, sent, printed, complained, closed, farewells,
  leave, note, fgets, say, hear,
}
use linux_systemprogramming.Chat.Pair.{End, Turn, ready, is_awake, said, heard}

-- The lines of stdin and `buffer` hold no NUL.
pub record IsTyped (c : Chatter) : Type 0 where
  pub buffer : is_text c.buffer ≡ true
  pub input : all is_text c.input ≡ true

-- What one end has printed and what is on its way to it are what the other has sent.
pub record Carries (from : Chatter) (to : End) : Type 0 where
  pub texts : is_text (said from.log) ≡ true
  pub arrives : heard to.chatter.log ++ to.inbox ≡ said from.log

pub farewells_lem :
    (ts : List CString) (l : List Event)
    → (said (farewells ts l) ≡ said l) × (heard (farewells ts l) ≡ heard l)
farewells_lem [] l = (refl, refl)
farewells_lem (t ∷ ts) l = farewells_lem ts (printed t ∷ l)

pub fgets-IsTyped : (c : Chatter) → IsTyped c → IsTyped (fgets c)
fgets-IsTyped c h = go c.input h.input
  where
    go :
        (lines : List CString)
        → all is_text lines ≡ true
        → IsTyped
            (elim lines as (λ x. Chatter) [ [] ↦ c | l ∷ ls ↦ record c { buffer = l; input = ls } ])
    go [] t = h
    go (l ∷ ls) t = record {
      buffer = &&-left (is_text l) (all is_text ls) t;
      input = &&-right (is_text l) (all is_text ls) t;
    }

pub cstr_text : (b : Buffer) → is_text b ≡ true → cstr b ≡ b
cstr_text [] h = refl
cstr_text (c ∷ b) h = ground (arith, cstr_text b)

abbrev pub text_of : Recv → CString
text_of recv_failed = []
text_of (bytes b) = cstr b

module _ (w : Wording) where
  pub leave_lem :
      (c : Chatter) → (said (leave w c).log ≡ said c.log) × (heard (leave w c).log ≡ heard c.log)
  unfolding leave
  leave_lem c = farewells_lem w.farewell (closed ∷ c.log)

  leave-IsTyped :
      (c : Chatter) (l : List Event) → IsTyped c → IsTyped (leave w (record c { log = l }))
  unfolding leave
  leave-IsTyped c l h = record { buffer = h.buffer; input = h.input }

  pub fgets_log : (c : Chatter) → (fgets c).log ≡ c.log
  fgets_log c = go c.input
    where
      go :
          (lines : List CString)
          → (elim lines as (λ x. Chatter) [
            | [] ↦ c
            | l ∷ ls ↦ record c { buffer = l; input = ls }
          ]).log
            ≡ c.log
      go [] = refl
      go (l ∷ ls) = refl

  pub say_lem :
      (is_sent : Bool) (c : Chatter)
      → (said (say w is_sent c).log ≡ said c.log ++ (if is_sent then c.buffer else []))
        × (heard (say w is_sent c).log ≡ heard c.log)
        × (IsTyped c → IsTyped (say w is_sent c))
  unfolding say
  say_lem true c = elim (Bool-cases (strn_eq 4 c.buffer (codes "exit"))) [
    | inl e ↦ rw e (
      (leave_lem (note (printed w.bye) (note (sent c.buffer) c))).0,
      (leave_lem (note (printed w.bye) (note (sent c.buffer) c))).1,
      λ h. leave-IsTyped c _ h,
    )
    | inr e ↦ rw e (refl, refl, λ h. record { buffer = h.buffer; input = h.input })
  ]
  say_lem false c = (
    (leave_lem (note (complained (codes "send")) c)).0 ∙ sym (append-nil (said c.log)),
    (leave_lem (note (complained (codes "send")) c)).1,
    λ h. leave-IsTyped c _ h,
  )

  pub hear_lem :
      (v : Recv) (c : Chatter)
      → (said (hear w v c).log ≡ said c.log)
        × (heard (hear w v c).log ≡ heard c.log ++ text_of v)
        × (IsTyped c → IsTyped (hear w v c))
  unfolding hear
  hear_lem recv_failed c = (
    (leave_lem (note (complained (codes "recv")) c)).0,
    (leave_lem (note (complained (codes "recv")) c)).1 ∙ sym (append-nil (heard c.log)),
    λ h. leave-IsTyped c _ h,
  )
  hear_lem (bytes []) c = (
    (leave_lem (note (printed (codes "CUT.\n")) c)).0,
    (leave_lem (note (printed (codes "CUT.\n")) c)).1 ∙ sym (append-nil (heard c.log)),
    λ h. leave-IsTyped c _ h,
  )
  hear_lem (bytes (b ∷ bs)) c =
      (refl, refl, λ h. record { buffer = cstr-is_text (b ∷ bs); input = h.input })

-- A round at which both stay sound: what `me` says joins what is on its way to `you`, and what `me`
-- hears leaves its own inbox.
abbrev pub IsSound : End → End → Type 0
IsSound me you =
    IsTyped me.chatter × IsTyped you.chatter × Carries me.chatter you × Carries you.chatter me

pub Carries-say :
    (from from' : Chatter) (to : End) (s : CString)
    → said from'.log ≡ said from.log ++ s
    → is_text s ≡ true
    → Carries from to
    → Carries from' (record to { inbox = to.inbox ++ s })
Carries-say from from' to s e t h = record {
  texts = rw (e, all-append (λ c. not (c == 0)) (said from.log) s, h.texts) t;
  arrives =
      sym (append_assoc (heard to.chatter.log) to.inbox s) ∙ ap (λ l. l ++ s) h.arrives ∙ sym e;
}

pub Carries-hear :
    (from : Chatter) (to : End) (c : Chatter) (s rest : CString)
    → to.inbox ≡ s ++ rest
    → heard c.log ≡ heard to.chatter.log ++ s
    → Carries from to
    → Carries from (record { chatter = c; inbox = rest })
Carries-hear from to c s rest e k h = record {
  texts = h.texts;
  arrives =
      ap (λ l. l ++ rest) k
      ∙ append_assoc (heard to.chatter.log) s rest
      ∙ ap (λ l. heard to.chatter.log ++ l) (sym e)
      ∙ h.arrives;
}

pub inbox_text : (from : Chatter) (to : End) → Carries from to → is_text to.inbox ≡ true
inbox_text from to h = &&-right (is_text (heard to.chatter.log)) (is_text to.inbox) (
    sym (all-append (λ c. not (c == 0)) (heard to.chatter.log) to.inbox)
    ∙ ap is_text h.arrives
    ∙ h.texts)

pub take_text : (n : ℕ) (b : Buffer) → is_text b ≡ true → is_text (take n b) ≡ true
take_text n b h = &&-left (is_text (take n b)) (is_text (drop n b)) (
    sym (all-append (λ c. not (c == 0)) (take n b) (drop n b))
    ∙ ap is_text (take-append-drop n b)
    ∙ h)

pub socket_ready :
    (t : Turn) (me you : End)
    → is_awake t me you ≡ true
    → t.stdin ≡ false
    → (ready t me you).socket ≡ true
socket_ready t me you a q = ground arith
