-- ===== src/PlainWeb/Connection.antt =====
-- clnt_connection, sendData, sendOk and sendError of ch09/chattingProgram/webserver.c.
use linux_systemprogramming.Common.{
  ℕ, ◌+◌, ◌<◌, ◌≡◌, ◌≢◌, refl, ap, ◌∙◌, true, not, Option, none, some, List, [], ◌∷◌, ◌++◌, length,
  map, all, drop, if◌then◌else◌,
}
use mathlib.Core.Option
use linux_systemprogramming.Common.Text.{CString, codes, str_eq, contains}
use linux_systemprogramming.MsgServer.Buffer.{Buffer, cstr, is_text}
use linux_systemprogramming.WebLed.Strip.{strip_loop, strip_lem, not_slash}
use linux_systemprogramming.WebLed.Response.{Output, sent, flushed, echoed, body}
use linux_systemprogramming.WebLed.Connection.{
  Event, output, World, finish, skip_headers, strcpy, token, token-method, token-path, cstr-append,
}

unfoldable pub send_data : ℕ → Buffer → Option CString → Option (List Output)
unfolding body
send_data bufsiz buf content =
    Option.map
      (λ out.
        sent (codes "HTTP/1.1 200 OK\r\n")
        ∷ sent (codes "Server:Netscape-Enterprise/6.0\r\n")
        ∷ sent (codes "Content-Type:text/html\r\n")
        ∷ sent (codes "\r\n")
        ∷ out)
      (body bufsiz buf content)

unfoldable pub send_ok : List Output
send_ok =
    sent (codes "HTTP/1.1 200 OK\r\n")
    ∷ sent (codes "Server: Netscape-Enterprise/6.0\r\n\r\n")
    ∷ flushed
    ∷ []

unfoldable pub send_error : List Output
send_error =
    echoed (codes "send_error\n")
    ∷ sent (codes "HTTP/1.1 400 Bad Request\r\n")
    ∷ sent (codes "Server: Netscape-Enterprise/6.0\r\n")
    ∷ sent (codes "Content-Length:1024\r\n")
    ∷ sent (codes "Content-Type:text/html\r\n\r\n")
    ∷ sent (codes "<html><head><title>BAD Connection</title></head>")
    ∷ sent (codes "<body><font size=+5>Bad Request</font></body></html>")
    ∷ flushed
    ∷ []

-- The path without its leading slash.
unfoldable pub page : ℕ → Buffer → Option CString
unfolding strip_loop
page bufsiz filename =
    Option.map cstr (if not_slash filename then some filename else strip_loop bufsiz filename 0 0)

unfoldable pub serve_file : World → CString → Option (List Event)
unfolding skip_headers send_data finish
serve_file w filename = elim (skip_headers w.headers) [
  | none ↦ none
  | some es ↦
      Option.map (λ out. finish (es ++ map output out))
        (send_data w.bufsiz w.stale_buf (w.file filename))
]

unfoldable pub respond : World → CString → CString → Option (List Event)
unfolding page serve_file finish send_ok send_error
respond w method rest =
    if str_eq method (codes "POST")
    then some (finish (map output send_ok))
    else if not (str_eq method (codes "GET"))
    then some (finish (map output send_error))
    else elim (page w.bufsiz (strcpy w.stale_filename (token (codes " ") rest).0)) [
      | none ↦ none
      | some filename ↦ serve_file w filename
    ]

unfoldable pub clnt_connection : World → Option (List Event)
unfolding respond
clnt_connection w =
    let (method, rest) = token (codes "/ ") w.line in
    Option.map (λ es. output (echoed w.line) ∷ es) (respond w method rest)

page_lem :
    (bufsiz : ℕ) (name : CString) (stale : Buffer)
    → (name ≢ [] → not_slash name ≡ true)
    → is_text name ≡ true
    → length name < bufsiz
    → page bufsiz (strcpy stale (b'/' ∷ name)) ≡ some name
unfolding page
page_lem bufsiz name stale h t l =
    let junk : Buffer = drop (length (b'/' ∷ name) + 1) stale in
    ap (Option.map cstr) (strip_lem bufsiz name junk h t l)
    ∙ ap some (cstr-append name (0 ∷ junk) t)

respond-get :
    (w : World) (name rest : CString)
    → page w.bufsiz (strcpy w.stale_filename (b'/' ∷ name)) ≡ some name
    → token (codes " ") (b'/' ∷ (name ++ b' ' ∷ rest)) ≡ (b'/' ∷ name, rest)
    → respond w (codes "GET") (b'/' ∷ (name ++ b' ' ∷ rest)) ≡ serve_file w name
unfolding respond
respond-get w name rest p q = rw (q, p) refl

-- A request line "GET /name ..." is answered with the file of that name, whatever the uninitialised
-- arrays hold, if the name has no blank, no NUL and no slash in front, and fits in its array.
pub clnt_connection_file :
    (w : World) (name rest : CString)
    → w.line ≡ codes "GET /" ++ (name ++ b' ' ∷ rest)
    → (name ≢ [] → not_slash name ≡ true)
    → is_text name ≡ true
    → all (λ c. not (contains (codes " ") c)) name ≡ true
    → length name < w.bufsiz
    → clnt_connection w ≡ Option.map (λ es. output (echoed w.line) ∷ es) (serve_file w name)
unfolding clnt_connection
clnt_connection_file w name rest e h t b l = ap (Option.map (λ es. output (echoed w.line) ∷ es)) (
    rw (e, token-method (name ++ b' ' ∷ rest))
      (respond-get w name rest (page_lem w.bufsiz name w.stale_filename h t l)
        (token-path name rest b)))
