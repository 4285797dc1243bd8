-- ===== src/WebLed/Connection.antt =====
-- clnt_connection of ch09/webLED/webserver.c: one request, from the request line to the answer.
use linux_systemprogramming.Common.{
  ℕ, ◌+◌, ◌<◌, ◌≡◌, ◌≢◌, refl, ap, ◌∙◌, Bool, true, not, Option, none, some, List, [], ◌∷◌, ◌++◌,
  length, drop, all, map, arith, if◌then◌else◌,
}
use mathlib.Core.Option
use linux_systemprogramming.Common.Text.{
  CString, codes, str_eq, strn_eq, strtok, skip_delims, cut_token, contains,
}
use linux_systemprogramming.MsgServer.Buffer.{Buffer, cstr, is_text}
use linux_systemprogramming.WebLed.Strip.{strip, strip_lem, not_slash}
use linux_systemprogramming.WebLed.Thread.{Loader, LibEvent, led_thread}
use linux_systemprogramming.WebLed.Response.{Output, echoed, send_ok, send_error, send_data}

pub data Event : Type 0 where
  output : Output → Event
  thread : LibEvent → Event
  -- pthread_create fails: the program ends
  exited : Event
  read_closed : Event
  write_closed : Event

-- What the function meets: the client's lines, the loader, the files, and what its uninitialised
-- arrays hold.
pub record World : Type 0 where
  pub bufsiz : ℕ
  pub line : CString
  pub headers : List CString
  pub is_thread_created : Bool
  pub loader : Loader
  pub file : CString → Option CString
  pub stale_filename : Buffer
  pub stale_buf : Buffer

-- The label `END`.
unfoldable pub finish : List Event → List Event
finish es = es ++ (read_closed ∷ write_closed ∷ [])

-- `strcpy(dst, src)`
abbrev pub strcpy : Buffer → CString → Buffer
strcpy dst src = src ++ 0 ∷ drop (length src + 1) dst

-- `if(!strlen(filename)) strcpy(filename, "led.html");`
unfoldable pub named : Buffer → CString
named b = if str_eq (cstr b) [] then codes "led.html" else cstr b

-- The path without its leading slash, or the start page.
unfoldable pub page : ℕ → Buffer → Option CString
page bufsiz filename =
    Option.map named (if not_slash filename then some filename else strip bufsiz filename)

-- `led_thread` with its argument, then the answer.
unfoldable pub switch_led : World → CString → List Event
unfolding finish
switch_led w arg =
    if w.is_thread_created
    then finish (map thread (led_thread w.loader arg) ++ map output send_ok)
    else exited ∷ []

-- The loop over the header lines. `none`: at the end of the stream fgets leaves the last line in
-- place, and the loop does not end.
unfoldable pub skip_headers : List CString → Option (List Event)
skip_headers [] = none
skip_headers (l ∷ ls) =
    let rest = skip_headers ls in
    if strn_eq 2 l (codes "\r\n")
    then some (output (echoed l) ∷ [])
    else elim rest [ none ↦ none | some es ↦ some (output (echoed l) ∷ es) ]

unfoldable pub serve_file : World → CString → Option (List Event)
unfolding skip_headers finish
serve_file w filename = elim (skip_headers w.headers) [
  | none ↦ none
  | some es ↦ elim (send_data w.bufsiz w.stale_buf (w.file filename)) [
    | none ↦ none
    | some out ↦ some (finish (es ++ map output out))
  ]
]

-- The chain of strcmp on the file's name.
unfoldable pub route : World → CString → Option (List Event)
unfolding switch_led serve_file
route w filename =
    if str_eq filename (codes "on")
    then some (switch_led w (codes "ON"))
    else if str_eq filename (codes "off")
    then some (switch_led w (codes "OFF"))
    else if str_eq filename (codes "blink")
    then some (switch_led w (codes "BLINK"))
    else serve_file w filename

-- The token that strtok returns, "" for NULL, and the text behind it.
abbrev pub token : List ℕ → CString → CString × CString
token delims s = elim (strtok delims s) [ none ↦ ([], []) | some (t, rest) ↦ (t, rest) ]

unfoldable pub respond : World → CString → CString → Option (List Event)
unfolding page route finish
respond w method rest =
    if str_eq method (codes "POST")
    then some (finish (map output send_ok))
    else if not (str_eq method (codes "GET"))
    then some (finish (map output send_error))
    else elim (page w.bufsiz (strcpy w.stale_filename (token (codes " ") rest).0)) [
      | none ↦ none
      | some filename ↦ route w filename
    ]

unfoldable pub clnt_connection : World → Option (List Event)
unfolding respond
clnt_connection w =
    let (method, rest) = token (codes "/ ") w.line in
    Option.map (λ es. output (echoed w.line) ∷ es) (respond w method rest)

cut_token-append :
    (delims : List ℕ) (t : CString) (d : ℕ) (rest : CString)
    → all (λ c. not (contains delims c)) t ≡ true
    → contains delims d ≡ true
    → cut_token delims (t ++ d ∷ rest) ≡ (t, rest)
unfolding cut_token
cut_token-append delims [] d rest h e = ground arith
cut_token-append delims (c ∷ t) d rest h e = ground (arith, cut_token-append delims t d rest)

pub cstr-append : (s : CString) (b : Buffer) → is_text s ≡ true → cstr (s ++ 0 ∷ b) ≡ s
cstr-append [] b t = refl
cstr-append (c ∷ s) b t = ground (arith, cstr-append s b)

-- The name that a request asks for.
abbrev pub page_name : CString → CString
page_name [] = codes "led.html"
page_name (c ∷ s) = c ∷ s

named-text : (s : CString) (b : Buffer) → is_text s ≡ true → named (s ++ 0 ∷ b) ≡ page_name s
unfolding named
named-text [] b t = refl
named-text (c ∷ s) b t = rw (cstr-append (c ∷ s) b t) refl

page_lem :
    (bufsiz : ℕ) (name : CString) (stale : Buffer)
    → (name ≢ [] → not_slash name ≡ true)
    → is_text name ≡ true
    → length name < bufsiz
    → page bufsiz (strcpy stale (b'/' ∷ name)) ≡ some (page_name name)
unfolding page named
page_lem bufsiz [] stale h t l = ap (Option.map named) (strip_lem bufsiz [] (drop 2 stale) h t l)
page_lem bufsiz (c ∷ s) stale h t l =
    let junk : Buffer = drop (length (b'/' ∷ c ∷ s) + 1) stale in
    ap (Option.map named) (strip_lem bufsiz (c ∷ s) junk h t l)
    ∙ ap some (named-text (c ∷ s) (0 ∷ junk) t)

pub token-method : (s : CString) → token (codes "/ ") (codes "GET /" ++ s) ≡ (codes "GET", b'/' ∷ s)
unfolding strtok skip_delims cut_token
token-method s = refl

pub token-path :
    (name rest : CString)
    → all (λ c. not (contains (codes " ") c)) name ≡ true
    → token (codes " ") (b'/' ∷ (name ++ b' ' ∷ rest)) ≡ (b'/' ∷ name, rest)
unfolding strtok skip_delims
token-path name rest b = cut_token-append (codes " ") (b'/' ∷ name) b' ' rest b refl

respond-get :
    (w : World) (name rest : CString)
    → page w.bufsiz (strcpy w.stale_filename (b'/' ∷ name)) ≡ some (page_name name)
    → token (codes " ") (b'/' ∷ (name ++ b' ' ∷ rest)) ≡ (b'/' ∷ name, rest)
    → respond w (codes "GET") (b'/' ∷ (name ++ b' ' ∷ rest)) ≡ route w (page_name name)
unfolding respond
respond-get w name rest p q = rw (q, p) refl

-- A request line "GET /name ..." is answered by the route of its name, whatever the uninitialised
-- arrays hold, if the name has no blank, no NUL and no slash in front, and fits in its array.
pub clnt_connection_get :
    (w : World) (name rest : CString)
    → w.line ≡ codes "GET /" ++ (name ++ b' ' ∷ rest)
    → (name ≢ [] → not_slash name ≡ true)
    → is_text name ≡ true
    → all (λ c. not (contains (codes " ") c)) name ≡ true
    → length name < w.bufsiz
    → clnt_connection w ≡ Option.map (λ es. output (echoed w.line) ∷ es) (route w (page_name name))
unfolding clnt_connection
clnt_connection_get w name rest e h t b l = ap (Option.map (λ es. output (echoed w.line) ∷ es)) (
    rw (e, token-method (name ++ b' ' ∷ rest))
      (respond-get w name rest (page_lem w.bufsiz name w.stale_filename h t l)
        (token-path name rest b)))
