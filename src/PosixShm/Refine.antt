-- ===== src/PosixShm/Refine.antt =====
-- The shared memory of ch07/posix_shm.c as a board with one text.
use linux_systemprogramming.Common.{
  ℕ, zero, suc, ◌+◌, ◌≤◌, ◌≡◌, refl, sym, ap, ◌∙◌, Bool, true, not, ◌&&◌, Bool-cases, inl, inr,
  some, List, [], ◌∷◌, ◌++◌, map, length, drop, all, if◌then◌else◌, ◌==◌, leb, replicate, arith,
  all-append, length-append, length-drop, append_assoc, &&-left, &&-right,
}
use linux_systemprogramming.Common.Text.{CString}
use linux_systemprogramming.MsgServer.Buffer.{cstr, is_text}
use linux_systemprogramming.WebLed.Connection.{cstr-append}
use linux_systemprogramming.PosixShm.Program.{chop, memcpy, World, leave, command, run}

-- What the processes share, and who is still there.
pub record Board : Type 0 where
  pub text : CString
  pub is_open : ℕ → Bool
  pub shown : List CString

-- A line without its newline: "." leaves, "*" shows the text, and another text goes over the front of
-- what is there, so that the end of a longer text stays.
unfoldable pub board_command : ℕ → CString → Board → Board
board_command i [] b = b
board_command i (c ∷ s) b =
    if c == 46
    then record b { is_open = leave i b.is_open }
    else if c == 42
    then record b { shown = b.text ∷ b.shown }
    else record b { text = c ∷ s ++ drop (length (c ∷ s)) b.text }

unfoldable pub board_run : List (ℕ × CString) → Board → Board
unfolding board_command
board_run [] b = b
board_run ((i, s) ∷ ts) b =
    if b.is_open i then board_run ts (board_command i s b) else board_run ts b

-- A text that fgets gives with its newline: up to 254 bytes, none of them NUL.
abbrev pub is_typed : CString → Bool
is_typed s = is_text s && leb (length s) 254

-- The text is in front, and the rest of the memory is zero.
pub record Represents (w : World) (b : Board) : Type 0 where
  pub zeros : ℕ
  pub filled : w.memory ≡ b.text ++ 0 ∷ replicate zeros 0
  pub size : length b.text + zeros ≡ 1023
  pub short : length b.text ≤ 254
  pub text_only : is_text b.text ≡ true
  pub same_open : w.is_open ≡ b.is_open
  pub same_shown : w.shown ≡ b.shown

chop-newline : (s : CString) → chop (s ++ 10 ∷ []) ≡ some s
unfolding chop
chop-newline [] = refl
chop-newline (c ∷ []) = refl
chop-newline (c ∷ d ∷ s) = rw (chop-newline (d ∷ s)) refl

cstr-newline : (s : CString) → is_text s ≡ true → cstr (s ++ 10 ∷ []) ≡ s ++ 10 ∷ []
cstr-newline [] h = refl
cstr-newline (c ∷ s) h = ground (arith, cstr-newline s)

drop-nil : (n : ℕ) → drop {A = ℕ} n [] ≡ []
drop-nil zero = refl
drop-nil (suc n) = refl

-- What a text followed by zeros is behind its first bytes.
drop-filled :
    (n k : ℕ) (s : CString)
    → n ≤ length s + k
    → (k' : ℕ) × (drop n (s ++ 0 ∷ replicate k 0) ≡ drop n s ++ 0 ∷ replicate k' 0)
      × (length (drop n s) + k' + n ≡ length s + k)
drop-filled zero k [] h = (k, refl, omega arith)
drop-filled zero k (c ∷ s) h = (k, refl, omega arith)
drop-filled (suc n) zero [] h = absurd (omega arith)
drop-filled (suc n) (suc k) [] h =
    let (k', e, l) = drop-filled n k [] (omega arith) in
    (
      k',
      e ∙ ap (λ r. r ++ 0 ∷ replicate k' 0) (drop-nil n),
      omega (arith, l, ap length (drop-nil n)),
    )
drop-filled (suc n) k (c ∷ s) h =
    let (k', e, l) = drop-filled n k s (omega arith) in (k', e, omega (arith, l))

drop-text : (n : ℕ) (s : CString) → is_text s ≡ true → is_text (drop n s) ≡ true
drop-text zero [] h = h
drop-text zero (c ∷ s) h = h
drop-text (suc n) [] h = h
drop-text (suc n) (c ∷ s) h = drop-text n s (&&-right (not (c == 0)) (is_text s) h)

-- A text that is written goes over the front.
memcpy-Represents :
    (s : CString) (w : World) (b : Board)
    → is_text s ≡ true
    → length s ≤ 254
    → Represents w b
    → Represents
        (record w { memory = memcpy w.memory s })
        (record b { text = s ++ drop (length s) b.text })
memcpy-Represents s w b t l r =
    let (k, e, n) = drop-filled (length s) r.zeros b.text (omega (arith, r.size)) in
    record {
      zeros = k;
      filled =
          ap (λ m. memcpy m s) r.filled
          ∙ ap (λ d. s ++ d) e
          ∙ sym (append_assoc s (drop (length s) b.text) (0 ∷ replicate k 0));
      size = omega (arith, n, r.size, length-append s (drop (length s) b.text));
      short =
          omega (
            arith,
            r.short,
            length-append s (drop (length s) b.text),
            length-drop (length s) b.text,
          );
      text_only =
          all-append (λ c. not (c == 0)) s (drop (length s) b.text)
          ∙ rw (t, drop-text (length s) b.text r.text_only) refl;
      same_open = r.same_open;
      same_shown = r.same_shown;
    }

leave-Represents :
    (i : ℕ) (w : World) (b : Board)
    → Represents w b
    → Represents
        (record w { is_open = leave i w.is_open })
        (record b { is_open = leave i b.is_open })
leave-Represents i w b r = record {
  zeros = r.zeros;
  filled = r.filled;
  size = r.size;
  short = r.short;
  text_only = r.text_only;
  same_open = ap (leave i) r.same_open;
  same_shown = r.same_shown;
}

show-Represents :
    (w : World) (b : Board)
    → Represents w b
    → Represents
        (record w { shown = cstr w.memory ∷ w.shown })
        (record b { shown = b.text ∷ b.shown })
show-Represents w b r = record {
  zeros = r.zeros;
  filled = r.filled;
  size = r.size;
  short = r.short;
  text_only = r.text_only;
  same_open = r.same_open;
  same_shown =
      ap (λ m. cstr m ∷ w.shown) r.filled
      ∙ rw (cstr-append b.text (replicate r.zeros 0) r.text_only, r.same_shown) refl;
}

command-Represents :
    (i : ℕ) (s : CString) (w : World) (b : Board)
    → is_typed s ≡ true
    → Represents w b
    → (v : World) × (command i (s ++ 10 ∷ []) w ≡ some v) × Represents v (board_command i s b)
unfolding command board_command
command-Represents i [] w b t r = (_, refl, memcpy-Represents [] w b refl (omega arith) r)
command-Represents i (c ∷ s) w b t r = elim (Bool-cases (c == 46)) [
  | inl e ↦ rw e (_, refl, leave-Represents i w b r)
  | inr e ↦ elim (Bool-cases (c == 42)) [
    | inl f ↦ rw (e, f) (_, refl, show-Represents w b r)
    | inr f ↦
        rw (e, f, cstr-newline (c ∷ s) whole, chop-newline (c ∷ s))
          (_, refl, memcpy-Represents (c ∷ s) w b whole size r)
  ]
]
  where
    whole : is_text (c ∷ s) ≡ true
    whole = &&-left (is_text (c ∷ s)) (leb (length (c ∷ s)) 254) t

    size : length (c ∷ s) ≤ 254
    size = ground arith

-- Processes that share the memory, in any order, with lines of up to 254 bytes and no NUL, never
-- write out of bounds, and what the command * prints is what the board shows: each text lies over
-- the front of those before it.
pub run-refines :
    (ts : List (ℕ × CString)) (w : World) (b : Board)
    → all (λ t. is_typed t.1) ts ≡ true
    → Represents w b
    → (v : World) × (run (map (λ t. (t.0, t.1 ++ 10 ∷ [])) ts) w ≡ some v)
      × Represents v (board_run ts b)
unfolding run board_run
run-refines [] w b h r = (w, refl, r)
run-refines ((i, s) ∷ ts) w b h r = elim (Bool-cases (b.is_open i)) [
  | inl e ↦
      let (v, c, k) =
        command-Represents i s w b (&&-left (is_typed s) (all (λ t. is_typed t.1) ts) h) r in
      let (v', c', k') = run-refines ts v (board_command i s b) rest k in
      rw (ap (λ f. f i) r.same_open, e, c) (v', c', k')
  | inr e ↦ rw (ap (λ f. f i) r.same_open, e) (run-refines ts w b rest r)
]
  where
    rest : all (λ t. is_typed t.1) ts ≡ true
    rest = &&-right (is_typed s) (all (λ t. is_typed t.1) ts) h
