-- ===== src/Terminal/Keys.antt =====
-- `kbhit` and `main` of ch09/chattingProgram/rpi6.c.
use linux_systemprogramming.Common.{
  ℕ, ◌≡◌, refl, Bool, true, false, not, ◌&&◌, Option, none, some, List, [], ◌∷◌, ◌++◌,
  if◌then◌else◌, ◌==◌,
}
use linux_systemprogramming.Common.Text.{CString, codes}
use linux_systemprogramming.Terminal.Settings.{Settings}

-- The terminal, whether reads do not wait, the characters that stdin has, and those that came back by
-- ungetc.
pub record Console : Type 0 where
  pub settings : Settings
  pub is_nonblocking : Bool
  pub keys : CString
  pub pushed_back : CString

-- getchar on a console that does not wait; `none` is EOF.
unfoldable pub getchar : Console → Option ℕ × Console
getchar c = elim c.pushed_back [
  | k ∷ ks ↦ (some k, record c { pushed_back = ks })
  | [] ↦ elim c.keys [ [] ↦ (none, c) | k ∷ ks ↦ (some k, record c { keys = ks }) ]
]

unfoldable pub kbhit : Console → Bool × Console
unfolding getchar
kbhit c =
    let changed = record c {
      settings = record c.settings { icanon = false; echo = false };
      is_nonblocking = true;
    } in
    let (ch, read) = getchar changed in
    let old = record read { settings = c.settings; is_nonblocking = c.is_nonblocking } in
    elim ch [
      | none ↦ (false, old)
      | some k ↦ (true, record old { pushed_back = k ∷ old.pushed_back })
    ]

pub data Event : Type 0 where
  printed : CString → Event
  delayed : ℕ → Event
  killed cancelled : Event

-- One round of `while(is_run)`, for what has been typed since the last one. If `is_run` is cleared the
-- loop ends behind the delay.
unfoldable pub round : CString → Console → Bool × List Event × Console
unfolding kbhit
round typed c =
    let (is_hit, ready) = kbhit (record c { keys = c.keys ++ typed }) in
    if is_hit
    then (let (ch, read) = getchar ready in
        if is_q ch
        then (false, killed ∷ cancelled ∷ delayed 100 ∷ [], read)
        else (true, delayed 100 ∷ [], read))
    else (true, delayed 100 ∷ [], ready)
  where
    is_q : Option ℕ → Bool
    is_q none = false
    is_q (some k) = k == 113

-- The loop on what is typed in each round, and whether it has ended.
unfoldable pub key_loop : List CString → Console → Bool × List Event × Console
unfolding round
key_loop [] c = (false, [], c)
key_loop (typed ∷ later) c =
    let (is_run, log, now) = round typed c in
    let (has_ended, rest, final) = key_loop later now in
    if is_run
    then (has_ended, log ++ rest, final)
    else (true, log ++ printed (codes "Good Bye!\n") ∷ [], now)

abbrev pub has_key : Console → Bool
has_key c = not (is_empty c.pushed_back && is_empty c.keys)
  where
    is_empty : CString → Bool
    is_empty [] = true
    is_empty (k ∷ ks) = false

-- kbhit leaves the terminal and the flags of stdin as they were and tells whether a character is
-- there, and the next getchar, also if it may wait, gives the character that it would have given.
kbhit_lem :
    (c : Console)
    → ((kbhit c).1.settings ≡ c.settings)
      × ((kbhit c).1.is_nonblocking ≡ c.is_nonblocking)
      × ((kbhit c).0 ≡ has_key c)
      × ((getchar (kbhit c).1).0 ≡ (getchar c).0)
      × ((kbhit c).1.pushed_back ++ (kbhit c).1.keys ≡ c.pushed_back ++ c.keys)
unfolding kbhit getchar
kbhit_lem c = go c.pushed_back c.keys
  where
    go :
        (b k : CString)
        → let d : Console = record c { pushed_back = b; keys = k } in
          ((kbhit d).1.settings ≡ d.settings)
          × ((kbhit d).1.is_nonblocking ≡ d.is_nonblocking)
          × ((kbhit d).0 ≡ has_key d)
          × ((getchar (kbhit d).1).0 ≡ (getchar d).0)
          × ((kbhit d).1.pushed_back ++ (kbhit d).1.keys ≡ d.pushed_back ++ d.keys)
    go (x ∷ b) k = (refl, refl, refl, refl, refl)
    go [] (x ∷ k) = (refl, refl, refl, refl, refl)
    go [] [] = (refl, refl, refl, refl, refl)
