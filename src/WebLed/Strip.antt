-- ===== src/WebLed/Strip.antt =====
-- The loop of ch09/webLED/webserver.c that takes the leading slash off the path, in place.
use linux_systemprogramming.Common.{
  ℕ, zero, suc, ◌+◌, ◌<◌, ◌≡◌, ◌≢◌, refl, sym, ap, ◌∙◌, Bool, true, false, not, Option, none, some,
  [], ◌∷◌, ◌++◌, length, get_elem?, set, all, arith, ◌==◌, if◌then◌else◌, Bool-cases, &&-left,
  &&-right, length-append, inl, inr, append_assoc,
}
use linux_systemprogramming.Common.Text.{CString}
use linux_systemprogramming.MsgServer.Buffer.{Buffer}

-- `j` behind `if(filename[0] == '/') j++;`
abbrev pub skip_slash : Buffer → ℕ → ℕ
skip_slash [] j = j
skip_slash (c ∷ b) j = if c == b'/' then j + 1 else j

-- `for(i, j; i < BUFSIZ; i++, j++)`, with the rounds left as fuel. `none` is a read out of bounds.
unfoldable pub strip_loop : ℕ → Buffer → ℕ → ℕ → Option Buffer
strip_loop zero filename i j = some filename
strip_loop (suc rounds) filename i j = elim (get_elem? filename (skip_slash filename j)) [
  | none ↦ none
  | some c ↦
      let next = strip_loop rounds (set filename i c) (i + 1) (skip_slash filename j + 1) in
      if c == 0 then some (set filename i c) else next
]

abbrev pub strip : ℕ → Buffer → Option Buffer
strip bufsiz filename = strip_loop bufsiz filename 0 0

get_elem?-append_second :
    (p : Buffer) (c x : ℕ) (y : Buffer) → get_elem? (p ++ c ∷ x ∷ y) (suc (length p)) ≡ some x
get_elem?-append_second [] c x y = refl
get_elem?-append_second (d ∷ p) c x y = get_elem?-append_second p c x y

set-append_here : (p : Buffer) (c x : ℕ) (y : Buffer) → set (p ++ c ∷ y) (length p) x ≡ p ++ x ∷ y
set-append_here [] c x y = refl
set-append_here (d ∷ p) c x y = ap (λ l. d ∷ l) (set-append_here p c x y)

abbrev pub not_slash : Buffer → Bool
not_slash [] = false
not_slash (c ∷ b) = not (c == b'/')

skip_slash-not_slash : (p b : Buffer) (j : ℕ) → not_slash p ≡ true → skip_slash (p ++ b) j ≡ j
skip_slash-not_slash [] b j h = cc
skip_slash-not_slash (c ∷ p) b j h = ground arith

not_slash-append : (p b : Buffer) → not_slash p ≡ true → not_slash (p ++ b) ≡ true
not_slash-append [] b h = cc
not_slash-append (c ∷ p) b h = h

abbrev pub is_text : CString → Bool
is_text s = all (λ c. not (c == 0)) s

-- One round, with a byte `x` behind the place that is written.
strip_loop-step :
    (rounds : ℕ) (p : Buffer) (c x : ℕ) (y : Buffer)
    → not_slash p ≡ true
    → strip_loop (suc rounds) (p ++ c ∷ x ∷ y) (length p) (suc (length p)) ≡ (
        if x == 0
        then some (p ++ x ∷ x ∷ y)
        else strip_loop rounds (p ++ x ∷ x ∷ y) (suc (length p)) (suc (suc (length p))))
unfolding strip_loop
strip_loop-step rounds p c x y h = elim (Bool-cases (x == 0)) [
  | inl e ↦
      rw
        (
          strip_loop,
          skip_slash-not_slash p (c ∷ x ∷ y) (suc (length p)) h,
          get_elem?-append_second p c x y,
          set-append_here p c x (x ∷ y),
          e,
        )
        refl
  | inr e ↦
      rw
        (
          strip_loop,
          skip_slash-not_slash p (c ∷ x ∷ y) (suc (length p)) h,
          get_elem?-append_second p c x y,
          set-append_here p c x (x ∷ y),
          e,
        )
        (onwards (p ++ x ∷ x ∷ y) (omega arith)
          (omega (arith, skip_slash-not_slash p (c ∷ x ∷ y) (suc (length p)) h)))
]
  where
    onwards :
        (b : Buffer) {i i' j j' : ℕ}
        → i ≡ i'
        → j ≡ j'
        → strip_loop rounds b i j ≡ strip_loop rounds b i' j'
    onwards b e e' = cc

-- From behind the first byte on: `c` stands at the place that is written next.
strip_loop-rest :
    (r : CString) (rounds : ℕ) (p : Buffer) (c : ℕ) (junk : Buffer)
    → not_slash p ≡ true
    → is_text r ≡ true
    → length r < rounds
    → strip_loop rounds (p ++ c ∷ (r ++ 0 ∷ junk)) (length p) (suc (length p))
      ≡ some (p ++ (r ++ 0 ∷ 0 ∷ junk))
strip_loop-rest r zero p c junk h t l = absurd (omega arith)
strip_loop-rest [] (suc rounds) p c junk h t l = strip_loop-step rounds p c 0 junk h
strip_loop-rest (x ∷ r) (suc rounds) p c junk h t l =
    strip_loop-step rounds p c x (r ++ 0 ∷ junk) h
    ∙ rw t0 (
        next (sym (append_assoc p (x ∷ []) (x ∷ (r ++ 0 ∷ junk))))
          (omega (arith, length-append p (x ∷ [])))
        ∙ strip_loop-rest r rounds (p ++ x ∷ []) x junk (not_slash-append p (x ∷ []) h)
            (&&-right _ _ t) (omega arith)
        ∙ ap some (append_assoc p (x ∷ []) (r ++ 0 ∷ 0 ∷ junk)))
  where
    t0 : (x == 0) ≡ false
    t0 = ground (arith, &&-left (not (x == 0)) (is_text r) t)

    next :
        {b b' : Buffer} {i : ℕ}
        → b ≡ b'
        → suc (length p) ≡ i
        → strip_loop rounds b (suc (length p)) (suc (suc (length p)))
          ≡ strip_loop rounds b' i (suc i)
    next e e' = cc

-- The bytes behind a slash, which are not a second slash, move to the front with the NUL that ends
-- them, whatever the array holds behind it: a path "/on" becomes "on", and "/" becomes "".
pub strip_lem :
    (bufsiz : ℕ) (s : CString) (junk : Buffer)
    → (s ≢ [] → not_slash s ≡ true)
    → is_text s ≡ true
    → length s < bufsiz
    → strip bufsiz (b'/' ∷ (s ++ 0 ∷ junk)) ≡ some (s ++ 0 ∷ 0 ∷ junk)
unfolding strip_loop
strip_lem zero s junk h t l = absurd (omega arith)
strip_lem (suc rounds) [] junk h t l = refl
strip_lem (suc rounds) (d ∷ s) junk h t l =
    rw d0 (strip_loop-rest s rounds (d ∷ []) d junk (h (λ e. cc)) (&&-right _ _ t) (omega arith))
  where
    d0 : (d == 0) ≡ false
    d0 = ground (arith, &&-left (not (d == 0)) (is_text s) t)
