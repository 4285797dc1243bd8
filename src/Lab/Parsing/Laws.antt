-- ===== src/Lab/Parsing/Laws.antt =====
-- What `command_parse` and `command_freelist` of lab/parsing.c do, by the words of the line.
use linux_systemprogramming.Common.{
  ℕ, zero, suc, ◌+◌, ◌*◌, ◌≤◌, ◌≡◌, ◌≢◌, refl, ap, ◌∙◌, Bool, true, Option, none, some, List, [],
  ◌∷◌, ◌++◌, ◌&&◌, map, length, all, arith,
}
use linux_systemprogramming.Common.Text.{CString, strtok, contains}
use linux_systemprogramming.Common.Text.Words.{
  split, words, is_token, Cuts, strtok-Cuts, words-is_token, length-words, words-append,
}
use linux_systemprogramming.Lab.Parsing.{Args, delims, collect, command_parse, command_freelist}

-- A NULL-terminated array of these strings.
abbrev pub array : List CString → Args
array [] = none ∷ []
array (s ∷ l) = some s ∷ array l

collect-Cuts :
    (fuel : ℕ) (s : CString) (cut : Option (CString × CString))
    → Cuts delims s cut
    → length s ≤ fuel
    → collect fuel cut ≡ array (words delims s)
unfolding collect
collect-Cuts fuel s none c h = rw c
collect-Cuts zero s (some (t, rest)) c h = absurd (omega arith)
collect-Cuts (suc fuel) s (some (t, rest)) c h =
    rw (c.0, collect-Cuts fuel rest (strtok delims rest) (strtok-Cuts delims rest) (omega arith))

-- The array of these words, and NULL if there are none.
abbrev pub parsed : List CString → Option Args
parsed [] = none
parsed (w ∷ ws) = some (array (w ∷ ws))

-- `command_parse` yields exactly the words of the line, in order and NULL-terminated, and NULL if
-- the line has none. Its loop ends within its fuel.
pub command_parse-eq-words :
    (line : CString) → command_parse (some line) ≡ parsed (words delims line)
unfolding command_parse
command_parse-eq-words line = go (strtok delims line) refl
  where
    go :
        (cut : Option (CString × CString))
        → strtok delims line ≡ cut
        → command_parse (some line) ≡ parsed (words delims line)
    go none e =
        let c : words delims line ≡ [] = rw e at (strtok-Cuts delims line) in
        rw (e, command_parse, c)
    go (some (t, rest)) e =
        let c : Cuts delims line (some (t, rest)) = rw e at (strtok-Cuts delims line) in
        let all_of : collect (length line) (some (t, rest)) ≡ array (words delims line) =
          collect-Cuts (length line) line (some (t, rest)) c (omega arith) in
        rw (e, command_parse, all_of, c.0)

-- A typed line: the tokens, each with a delimiter behind it.
abbrev pub typed : List (CString × ℕ) → CString
typed [] = []
typed ((w, d) ∷ l) = w ++ d ∷ typed l

abbrev pub tokens : List (CString × ℕ) → List CString
tokens [] = []
tokens ((w, d) ∷ l) = w ∷ tokens l

abbrev pub are_typed : List (CString × ℕ) → Bool
are_typed [] = true
are_typed ((w, d) ∷ l) = is_token delims w && (contains delims d && are_typed l)

words-typed : (l : List (CString × ℕ)) → are_typed l ≡ true → words delims (typed l) ≡ tokens l
unfolding split
words-typed [] h = refl
words-typed ((w, d) ∷ l) h = ground (arith, words-append delims w d (typed l), words-typed l)

-- Tokens that are typed with a delimiter behind each come back from `command_parse` in order.
pub command_parse-typed :
    (l : List (CString × ℕ))
    → are_typed l ≡ true
    → command_parse (some (typed l)) ≡ parsed (tokens l)
command_parse-typed l h = command_parse-eq-words (typed l) ∙ ap parsed (words-typed l h)

-- What `command_parse` returns is a NULL-terminated array of one or more tokens, none empty and
-- none with a delimiter in it, in at most half as many cells as the line has bytes, and two.
pub command_parse-Sound :
    (line : CString) (args : Args)
    → command_parse (some line) ≡ some args
    → (ws : List CString) × (args ≡ array ws)
      × (ws ≢ [])
      × (all (is_token delims) ws ≡ true)
      × (2 * length ws ≤ length line + 1)
command_parse-Sound line args e = (
  words delims line,
  ground (arith, command_parse-eq-words line),
  ground (arith, command_parse-eq-words line),
  words-is_token delims line,
  length-words delims line,
)

-- Of an array with a NULL in it, `command_freelist` frees the strings in front of the first NULL
-- and no others.
pub command_freelist_lem :
    (ws : List CString) (r : Args) → command_freelist (map some ws ++ none ∷ r) ≡ some ws
unfolding command_freelist
command_freelist_lem [] r = refl
command_freelist_lem (w ∷ ws) r = ground (arith, command_freelist_lem ws r)
