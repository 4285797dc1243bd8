-- ===== src/Dialogue/OneWay/Letters.antt =====
-- ch07/ex05-1.c and ch07/ex05-2.c: the lines up to the one that ends both
-- programs, and a round of the sender.
use mathlib.Core.Path.{subst}
use linux_systemprogramming.Common.{
  ◌≡◌, ◌≢◌, ◌⊎◌, inl, inr, refl, sym, ap, ◌∙◌, Bool, true, false, ◌||◌, List, [], ◌∷◌, ◌++◌,
  append_assoc, if◌then◌else◌, Bool-cases, arith,
}
use linux_systemprogramming.Common.Text.{CString}
use linux_systemprogramming.Dialogue.System.{Party, is_end, fgets}
use linux_systemprogramming.Dialogue.OneWay.{Place, in_loop, removing, ended, OneWay}

-- The lines up to the first one that starts with "end", and with it.
abbrev pub until_end : List CString → List CString
until_end [] = []
until_end (line ∷ lines) =
    let rest = until_end lines in if is_end line then line ∷ [] else line ∷ rest

abbrev pub has_end : List CString → Bool
has_end [] = false
has_end (line ∷ lines) = is_end line || has_end lines

abbrev pub owed : Place → List CString → List CString
owed in_loop input = until_end input
owed p input = []

-- A list of messages of which the last one, and no other, starts with "end".
pub record IsLetter (l : List CString) : Type 0 where
  pub whole : until_end l ≡ l
  pub closed : has_end l ≡ true

-- The receiver reads: what it has shown, what waits and what is to come is the text.
pub record Open (total : List CString) (at : Place) (input shown messages : List CString)
    (is_removed : Bool) : Type 0 where
  pub text : shown ++ (messages ++ owed at input) ≡ total
  pub letter : IsLetter (messages ++ owed at input)
  pub kept : is_removed ≡ false
  pub goes_on : at ≡ in_loop → has_end input ≡ true
  pub fine : (at ≡ in_loop) ⊎ (at ≡ ended)

-- The receiver has all.
pub record Shut (total : List CString) (at : Place) (shown : List CString) : Type 0 where
  pub all_shown : shown ≡ total
  pub gone : at ≡ ended

abbrev pub Carries : List CString → OneWay → Type 0
Carries total d =
    ((d.receiver_at ≡ in_loop)
      × Open total d.sender_at d.sender.input d.receiver.shown d.queue.messages d.queue.is_removed)
    ⊎ (((d.receiver_at ≡ removing) ⊎ (d.receiver_at ≡ ended))
        × Shut total d.sender_at d.receiver.shown)

pub letter-cons : (m : CString) (l : List CString) → is_end m ≡ true → IsLetter (m ∷ l) → l ≡ []
letter-cons m l e h = ground (arith, e, h.whole)

pub IsLetter-tail :
    (m : CString) (l : List CString) → is_end m ≡ false → IsLetter (m ∷ l) → IsLetter l
IsLetter-tail m l e h = record {
  whole = ground (arith, e, h.whole);
  closed = ground (arith, e, h.closed);
}

pub until_end-IsLetter : (l : List CString) → has_end l ≡ true → IsLetter (until_end l)
until_end-IsLetter [] h = cc
until_end-IsLetter (m ∷ l) h = elim (Bool-cases (is_end m)) [
  | inl e ↦ rw e (record { whole = rw e refl; closed = rw e refl })
  | inr e ↦
      let g = until_end-IsLetter l (ground (arith, h, e)) in
      rw e (record { whole = rw e (ap (λ k. m ∷ k) g.whole); closed = rw e g.closed })
]

-- A round of the sender on a queue that is there: what it queues and what is then to come.
abbrev pub now_at : Party → Place
now_at s = if is_end (fgets s).buf then ended else in_loop

pub round-owed :
    (s : Party)
    → has_end s.input ≡ true
    → ((fgets s).buf ∷ owed (now_at s) (fgets s).input ≡ until_end s.input)
      × (now_at s ≡ in_loop → has_end (fgets s).input ≡ true)
      × ((now_at s ≡ in_loop) ⊎ (now_at s ≡ ended))
round-owed s h = go s.input h
  where
    go :
        (input : List CString)
        → has_end input ≡ true
        → let t : Party = record s { input = input } in
          ((fgets t).buf ∷ owed (now_at t) (fgets t).input ≡ until_end input)
          × (now_at t ≡ in_loop → has_end (fgets t).input ≡ true)
          × ((now_at t ≡ in_loop) ⊎ (now_at t ≡ ended))
    go [] h = cc
    go (line ∷ lines) h = elim (Bool-cases (is_end line)) [
      | inl e ↦ rw e (refl, λ k. cc, inr refl)
      | inr e ↦ rw e (refl, λ _. ground (arith, h, e), inl refl)
    ]

module _ (total : List CString) (s : Party) (shown messages : List CString) (removed : Bool) where
  pub sent-Open :
      Open total in_loop s.input shown messages removed
      → Open total (now_at s) (fgets s).input shown (messages ++ (fgets s).buf ∷ []) removed
  sent-Open h =
      let (e, q, f) = round-owed s (h.goes_on refl) in
      let same : (messages ++ (fgets s).buf ∷ []) ++ owed (now_at s) (fgets s).input
          ≡ messages ++ until_end s.input =
        append_assoc messages ((fgets s).buf ∷ []) _ ∙ ap (λ l. messages ++ l) e in
      record {
        text = ap (λ l. shown ++ l) same ∙ h.text;
        letter = subst IsLetter (sym same) h.letter;
        kept = h.kept;
        goes_on = q;
        fine = f;
      }

pub open_end : (ms l : List CString) → has_end l ≡ true → ms ++ until_end l ≢ []
open_end (m ∷ ms) l h = λ e. cc
open_end [] [] h = cc
open_end [] (line ∷ lines) h = elim (Bool-cases (is_end line)) [
  | inl k ↦ rw k (λ e. cc)
  | inr k ↦ rw k (λ e. cc)
]
