-- ===== src/Common/Text/Words.antt =====
-- What repeated calls of strtok yield: the maximal runs of bytes that are no delimiters.
use Prim.Native.Nat.{ℕ, ◌+◌, ◌*◌, ◌≤◌, ◌<◌}
use mathlib.Core.Path.{◌≡◌, refl, sym, ap, ◌∙◌}
use mathlib.Core.Bool.{Bool, true, false, not}
use mathlib.Core.Option.{Option, none, some}
use mathlib.Core.List.{List, [], ◌∷◌, ◌++◌}
use native.Mathlib.Omega.{arith}
use linux_systemprogramming.Common.Tests.{if◌then◌else◌}
use linux_systemprogramming.Common.Lists.{length, all}
use linux_systemprogramming.Common.Text.Strtok.{contains, skip_delims, cut_token, strtok}

module _ (ds : List ℕ) where
  -- A run that has been read to its start joins the runs behind it, unless it is empty.
  abbrev pub close : List ℕ → List (List ℕ) → List (List ℕ)
  close [] ws = ws
  close (c ∷ w) ws = (c ∷ w) ∷ ws

  -- The run at the head of the text, empty at a delimiter, and the runs behind it.
  unfoldable pub split : List ℕ → List ℕ × List (List ℕ)
  split [] = ([], [])
  split (c ∷ s) = let (w, ws) = split s in if contains ds c then ([], close w ws) else (c ∷ w, ws)

  abbrev pub words : List ℕ → List (List ℕ)
  words s = close (split s).0 (split s).1

  -- A token: not empty, and with no delimiter in it.
  abbrev pub is_token : List ℕ → Bool
  is_token [] = false
  is_token (c ∷ w) = all (λ b. not (contains ds b)) (c ∷ w)

  pub words-skip_delims : (s : List ℕ) → words (skip_delims ds s) ≡ words s
  unfolding skip_delims split
  words-skip_delims [] = refl
  words-skip_delims (c ∷ s) = ground (arith, words-skip_delims s)

  pub split-cut_token : (s : List ℕ) → split s ≡ ((cut_token ds s).0, words (cut_token ds s).1)
  unfolding cut_token split
  split-cut_token [] = refl
  split-cut_token (c ∷ s) = ground (arith, split-cut_token s)

  pub length-cut_token : (c : ℕ) (s : List ℕ) → length (cut_token ds (c ∷ s)).1 ≤ length s
  unfolding cut_token
  length-cut_token c [] = ground arith
  length-cut_token c (d ∷ s) = ground (arith, length-cut_token d s)

  pub length-skip_delims : (s : List ℕ) → length (skip_delims ds s) ≤ length s
  unfolding skip_delims
  length-skip_delims [] = omega arith
  length-skip_delims (c ∷ s) = ground (arith, length-skip_delims s)

  -- The text left by `skip_delims` is empty or begins with a byte that is no delimiter.
  skip_delims-head :
      (s : List ℕ) (c : ℕ) (r : List ℕ) → skip_delims ds s ≡ c ∷ r → contains ds c ≡ false
  unfolding skip_delims
  skip_delims-head [] c r e = cc
  skip_delims-head (d ∷ s) c r e = ground (arith, skip_delims-head s c r)

  cut_token-head :
      (c : ℕ) (r : List ℕ)
      → contains ds c ≡ false
      → (cut_token ds (c ∷ r)).0 ≡ c ∷ (cut_token ds r).0
  unfolding cut_token
  cut_token-head c r h = ground arith

  -- What one call of strtok on `s` returns: the first word, and the text with the words behind it.
  abbrev pub Cuts : List ℕ → Option (List ℕ × List ℕ) → Type 0
  Cuts s none = words s ≡ []
  Cuts s (some (t, rest)) = (words s ≡ t ∷ words rest) × (length rest < length s)

  cut-Cuts :
      (s : List ℕ) (c : ℕ) (r : List ℕ)
      → skip_delims ds s ≡ c ∷ r
      → Cuts s (some (cut_token ds (c ∷ r)))
  cut-Cuts s c r e = (first, omega (arith, length-cut_token c r, shorter))
    where
      shorter : length (c ∷ r) ≤ length s
      shorter = rw e at (length-skip_delims s)

      first : words s ≡ (cut_token ds (c ∷ r)).0 ∷ words (cut_token ds (c ∷ r)).1
      first = ground (
        arith,
        words-skip_delims s,
        e,
        split-cut_token (c ∷ r),
        cut_token-head c r (skip_delims-head s c r e),
      )

  pub strtok-Cuts : (s : List ℕ) → Cuts s (strtok ds s)
  unfolding strtok split
  strtok-Cuts s = go (skip_delims ds s) refl
    where
      go : (r : List ℕ) → skip_delims ds s ≡ r → Cuts s (strtok ds s)
      go [] e = rw (e, strtok) (sym (words-skip_delims s) ∙ ap words e)
      go (c ∷ r) e = rw (e, strtok) (cut-Cuts s c r e)

  -- Every word is a token.
  split-is_token :
      (s : List ℕ)
      → (all (λ b. not (contains ds b)) (split s).0 ≡ true) × (all is_token (split s).1 ≡ true)
  unfolding split
  split-is_token [] = (refl, refl)
  split-is_token (c ∷ s) = ground (arith, split-is_token s)

  pub words-is_token : (s : List ℕ) → all is_token (words s) ≡ true
  words-is_token s = ground (arith, split-is_token s)

  -- Each word takes a byte, and each but the last a delimiter behind it.
  length-split : (s : List ℕ) → 2 * length (split s).1 + length (split s).0 ≤ length s
  unfolding split
  length-split [] = omega arith
  length-split (c ∷ s) = ground (arith, length-split s)

  pub length-words : (s : List ℕ) → 2 * length (words s) ≤ length s + 1
  length-words s = ground (arith, length-split s)

  split-append :
      (w : List ℕ) (d : ℕ) (s : List ℕ)
      → all (λ b. not (contains ds b)) w ≡ true
      → contains ds d ≡ true
      → split (w ++ d ∷ s) ≡ (w, words s)
  unfolding split
  split-append [] d s h e = ground arith
  split-append (c ∷ w) d s h e = ground (arith, split-append w d s)

  split-token : (w : List ℕ) → all (λ b. not (contains ds b)) w ≡ true → split w ≡ (w, [])
  unfolding split
  split-token [] h = refl
  split-token (c ∷ w) h = ground (arith, split-token w)

  -- A token alone is the only word of the text.
  pub words-token : (w : List ℕ) → is_token w ≡ true → words w ≡ w ∷ []
  words-token [] h = cc
  words-token (c ∷ w) h = ground (arith, split-token (c ∷ w))

  -- A token with a delimiter behind it is the first word of the text.
  pub words-append :
      (w : List ℕ) (d : ℕ) (s : List ℕ)
      → is_token w ≡ true
      → contains ds d ≡ true
      → words (w ++ d ∷ s) ≡ w ∷ words s
  words-append [] d s h e = cc
  words-append (c ∷ w) d s h e = ground (arith, split-append (c ∷ w) d s)
