-- ===== src/Rpi6/Query.antt =====
-- The query string of a request to ch09/chattingProgram/rpi6.c.
use linux_systemprogramming.Common.{
  not-true, ℕ, zero, suc, ◌≤◌, ◌≡◌, refl, ap, ◌∙◌, Bool, true, false, not, ◌&&◌, ◌||◌, Option, none,
  some, List, [], ◌∷◌, ◌++◌, length, all, arith, ◌==◌, ltb, ltb→lt, &&-left, &&-right,
  if◌then◌else◌,
}
use linux_systemprogramming.Common.Text.{CString, codes, str_eq, strtok, contains}
use linux_systemprogramming.Common.Text.Words.{
  words, split, is_token, Cuts, strtok-Cuts, words-token, words-append,
}
use linux_systemprogramming.WebLed.Led.{Level, low, high}

-- A conversion of sscanf with a width: the bytes that it takes, and the text behind them.
unfoldable pub scan_while : (ℕ → Bool) → ℕ → CString → CString × CString
scan_while p zero s = ([], s)
scan_while p (suc n) [] = ([], [])
scan_while p (suc n) (c ∷ s) =
    let (t, rest) = scan_while p n s in if p c then (c ∷ t, rest) else ([], c ∷ s)

abbrev pub is_space : ℕ → Bool
is_space c = contains (codes " \t\n\r") c || (c == 11 || c == 12)

abbrev pub not_space : ℕ → Bool
not_space c = not (is_space c)

abbrev pub not_equals : ℕ → Bool
not_equals c = not (c == b'=')

abbrev pub skip_space : CString → CString
skip_space [] = []
skip_space (c ∷ s) = if is_space c then skip_space s else c ∷ s

-- `%63s` behind the "=": the value, if there is one.
abbrev pub value_of : CString → CString × CString → Option (CString × CString)
value_of key ([], rest) = none
value_of key (c ∷ v, rest) = some (key, c ∷ v)

-- The "=" and what follows it.
abbrev pub behind_key : CString × CString → Option (CString × CString)
behind_key ([], rest) = none
behind_key (c ∷ k, []) = none
behind_key (c ∷ k, d ∷ rest) =
    if d == b'=' then value_of (c ∷ k) (scan_while not_space 63 (skip_space rest)) else none

-- `sscanf(tok, "%63[^=]=%63s", key, val) == 2`, with the two strings.
unfoldable pub scan_pair : CString → Option (CString × CString)
unfolding scan_while
scan_pair tok = behind_key (scan_while not_equals 63 tok)

-- The digitalWrite calls for one pair.
unfoldable pub switch : CString → CString → List Level
switch key val =
    if str_eq key (codes "led")
    then (if str_eq val (codes "On")
        then high ∷ []
        else if str_eq val (codes "Off")
        then low ∷ []
        else [])
    else []

abbrev pub amp : CString
amp = codes "&"

unfoldable pub apply : CString → List Level
unfolding scan_pair switch
apply tok = elim (scan_pair tok) [ none ↦ [] | some (key, val) ↦ switch key val ]

-- The `while (tok)` loop. The fuel is the length of the query.
unfoldable pub query_loop : ℕ → Option (CString × CString) → List Level
unfolding apply
query_loop fuel none = []
query_loop zero (some first) = []
query_loop (suc fuel) (some (tok, rest)) = apply tok ++ query_loop fuel (strtok amp rest)

unfoldable pub query_levels : CString → List Level
unfolding query_loop
query_levels query = query_loop (length query) (strtok amp query)

abbrev apply_all : List CString → List Level
apply_all [] = []
apply_all (t ∷ ts) = apply t ++ apply_all ts

query_loop-Cuts :
    (fuel : ℕ) (s : CString) (cut : Option (CString × CString))
    → Cuts amp s cut
    → length s ≤ fuel
    → query_loop fuel cut ≡ apply_all (words amp s)
unfolding query_loop
query_loop-Cuts fuel s none c h = rw c refl
query_loop-Cuts zero s (some (t, rest)) c h = absurd (omega arith)
query_loop-Cuts (suc fuel) s (some (t, rest)) c h =
    rw (c.0, query_loop-Cuts fuel rest (strtok amp rest) (strtok-Cuts amp rest) (omega arith)) refl

pub scan_while-stop :
    (p : ℕ → Bool) (n : ℕ) (k : CString) (c : ℕ) (r : CString)
    → all p k ≡ true
    → length k ≤ n
    → p c ≡ false
    → scan_while p n (k ++ c ∷ r) ≡ (k, c ∷ r)
unfolding scan_while
scan_while-stop p zero [] c r h l e = refl
scan_while-stop p (suc n) [] c r h l e = rw e refl
scan_while-stop p zero (d ∷ k) c r h l e = absurd (omega arith)
scan_while-stop p (suc n) (d ∷ k) c r h l e =
    rw
      (
        &&-left (p d) (all p k) h,
        scan_while-stop p n k c r (&&-right (p d) (all p k) h) (omega arith) e,
      )
      refl

scan_while-all :
    (p : ℕ → Bool) (n : ℕ) (k : CString)
    → all p k ≡ true
    → length k ≤ n
    → scan_while p n k ≡ (k, [])
unfolding scan_while
scan_while-all p zero [] h l = refl
scan_while-all p (suc n) [] h l = refl
scan_while-all p zero (d ∷ k) h l = absurd (omega arith)
scan_while-all p (suc n) (d ∷ k) h l =
    rw (&&-left (p d) (all p k) h, scan_while-all p n k (&&-right (p d) (all p k) h) (omega arith))
      refl

-- A pair that can be typed: a key and a value of 1 to 63 bytes, without the bytes that end them.
abbrev pub text_of : CString × CString → CString
text_of (key, val) = key ++ b'=' ∷ val

abbrev pub is_short : CString → Bool
is_short [] = false
is_short (c ∷ s) = ltb (length s) 63

abbrev pub is_pair : CString × CString → Bool
is_pair (key, val) =
    all not_equals key
    && (all not_space val && (is_short key && (is_short val && is_token amp (key ++ b'=' ∷ val))))

all_parts :
    (a b c d e : Bool)
    → (a && (b && (c && (d && e)))) ≡ true
    → (a ≡ true) × (b ≡ true) × (c ≡ true) × (d ≡ true) × (e ≡ true)
all_parts a b c d e h = ground arith

skip_space-none : (d : ℕ) (v : CString) → not_space d ≡ true → skip_space (d ∷ v) ≡ d ∷ v
skip_space-none d v h = rw (not-true (is_space d) h) refl

value_of-typed :
    (key : CString) (d : ℕ) (v : CString)
    → all not_space (d ∷ v) ≡ true
    → length (d ∷ v) ≤ 63
    → value_of key (scan_while not_space 63 (skip_space (d ∷ v))) ≡ some (key, d ∷ v)
value_of-typed key d v h l = ap (value_of key) (
    ap (scan_while not_space 63) (skip_space-none d v (&&-left (not_space d) (all not_space v) h))
    ∙ scan_while-all not_space 63 (d ∷ v) h l)

scan_pair-typed :
    (key val : CString)
    → is_pair (key, val) ≡ true
    → scan_pair (text_of (key, val)) ≡ some (key, val)
unfolding scan_pair
scan_pair-typed key val h =
    let (eq, sp, sk, sv, tok) =
      all_parts (all not_equals key) (all not_space val) (is_short key) (is_short val)
        (is_token amp (key ++ b'=' ∷ val)) h in
    go key val eq sp sk sv
  where
    go :
        (k v : CString)
        → all not_equals k ≡ true
        → all not_space v ≡ true
        → is_short k ≡ true
        → is_short v ≡ true
        → behind_key (scan_while not_equals 63 (k ++ b'=' ∷ v)) ≡ some (k, v)
    go [] v e s sk sv = cc
    go (c ∷ k) [] e s sk sv = cc
    go (c ∷ k) (d ∷ v) e s sk sv =
        ap behind_key (
          scan_while-stop not_equals 63 (c ∷ k) b'=' (d ∷ v) e
            (omega (arith, ltb→lt (length k) 63 sk)) refl)
        ∙ value_of-typed (c ∷ k) d v s (omega (arith, ltb→lt (length v) 63 sv))

abbrev pub typed : List (CString × CString) → CString
typed [] = []
typed (kv ∷ []) = text_of kv
typed (kv ∷ kv' ∷ l) = text_of kv ++ b'&' ∷ typed (kv' ∷ l)

abbrev pub switch_all : List (CString × CString) → List Level
switch_all [] = []
switch_all ((key, val) ∷ l) = switch key val ++ switch_all l

apply-typed : (kv : CString × CString) → is_pair kv ≡ true → apply (text_of kv) ≡ switch kv.0 kv.1
unfolding apply
apply-typed (key, val) h = rw (apply, scan_pair-typed key val h) refl

words-typed-levels :
    (l : List (CString × CString))
    → all is_pair l ≡ true
    → apply_all (words amp (typed l)) ≡ switch_all l
unfolding split
words-typed-levels [] h = refl
words-typed-levels ((key, val) ∷ []) h =
    let now : is_pair (key, val) ≡ true = &&-left (is_pair (key, val)) true h in
    let (eq, sp, sk, sv, tok) =
      all_parts (all not_equals key) (all not_space val) (is_short key) (is_short val)
        (is_token amp (key ++ b'=' ∷ val)) now in
    rw (words-token amp (key ++ b'=' ∷ val) tok, apply-typed (key, val) now) refl
words-typed-levels ((key, val) ∷ kv ∷ l) h =
    let now : is_pair (key, val) ≡ true = &&-left (is_pair (key, val)) (all is_pair (kv ∷ l)) h in
    let (eq, sp, sk, sv, tok) =
      all_parts (all not_equals key) (all not_space val) (is_short key) (is_short val)
        (is_token amp (key ++ b'=' ∷ val)) now in
    rw
      (
        words-append amp (key ++ b'=' ∷ val) b'&' (typed (kv ∷ l)) tok refl,
        apply-typed (key, val) now,
        words-typed-levels (kv ∷ l) (&&-right (is_pair (key, val)) (all is_pair (kv ∷ l)) h),
      )
      refl

-- Pairs that are typed as key=value with an "&" between two of them come back from the query loop: the LED
-- is switched by each pair in order, and by nothing else.
pub query_levels-typed :
    (l : List (CString × CString)) → all is_pair l ≡ true → query_levels (typed l) ≡ switch_all l
unfolding query_levels
query_levels-typed l h =
    query_loop-Cuts (length (typed l)) (typed l) (strtok amp (typed l)) (strtok-Cuts amp (typed l))
      (omega arith)
    ∙ words-typed-levels l h
