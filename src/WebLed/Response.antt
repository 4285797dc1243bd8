-- ===== src/WebLed/Response.antt =====
-- The three answers of ch09/webLED/webserver.c: sendData, sendOk and sendError.
use linux_systemprogramming.Common.{
  ℕ, zero, suc, ◌≤◌, ◌<◌, ◌≡◌, refl, ap, Bool, true, false, Option, none, some, List, [], ◌∷◌, ◌++◌,
  length, take, drop, arith, ◌==◌, if◌then◌else◌,
}
use linux_systemprogramming.Common.Text.{CString, codes}
use linux_systemprogramming.MsgServer.Buffer.{Buffer, cstr, is_text}

-- What goes to the client's stream and to stdout.
pub data Output : Type 0 where
  sent : CString → Output
  flushed : Output
  echoed : CString → Output

abbrev pub ok_protocol : CString
ok_protocol = codes "HTTP/1.1 200 OK\r\n"

unfoldable pub send_ok : List Output
send_ok = sent ok_protocol ∷ sent (codes "Server: Netscape-Enterprise/6.0\r\n\r\n") ∷ flushed ∷ []

unfoldable pub send_error : List Output
send_error =
    echoed (codes "send_error\n")
    ∷ sent (codes "HTTP/1.1 400 Bad Request\r\n")
    ∷ sent (codes "Server: Netscape-Enterprise/6.0\r\n")
    ∷ sent (codes "Content-Length:1024\r\n")
    ∷ sent (codes "Content-Type:text/html\r\n\r\n")
    ∷ sent (codes "<html><head><title>BAD Connection</title></head>")
    ∷ sent (codes "<body><font size=+5>Bad Request</font></body></html>")
    ∷ flushed
    ∷ []

abbrev pub contains_nul : Buffer → Bool
contains_nul [] = false
contains_nul (c ∷ b) = if c == 0 then true else contains_nul b

-- `read(fd, buf, BUFSIZ)`: the bytes go over the front of `buf`.
abbrev pub fill : Buffer → CString → Buffer
fill buf bytes = bytes ++ drop (length bytes) buf

-- The loop that copies a file, with the rounds left as fuel. `none` is a read past the end of
-- `buf`: fputs looks for a NUL that read does not write.
unfoldable pub send_file : ℕ → ℕ → Buffer → CString → Option (List Output)
send_file zero bufsiz buf content = none
send_file (suc rounds) bufsiz buf content =
    let bytes = take bufsiz content in
    let now = fill buf bytes in
    let later = send_file rounds bufsiz now (drop bufsiz content) in
    if contains_nul now
    then (if length bytes == bufsiz
        then elim later [ none ↦ none | some out ↦ some (sent (cstr now) ∷ out) ]
        else some (sent (cstr now) ∷ []))
    else none

-- `none` as content is a file that does not open: read fails, and `buf` is sent as it is.
unfoldable pub body : ℕ → Buffer → Option CString → Option (List Output)
unfolding send_file
body bufsiz buf none = if contains_nul buf then some (sent (cstr buf) ∷ []) else none
body bufsiz buf (some content) = send_file (suc (length content)) bufsiz buf content

unfoldable pub send_data : ℕ → Buffer → Option CString → Option (List Output)
unfolding body
send_data bufsiz buf content = elim (body bufsiz buf content) [
  | none ↦ none
  | some out ↦ some (
      sent ok_protocol
      ∷ sent (codes "Server:Netscape-Enterprise/6.0\r\n")
      ∷ sent (codes "Content-Type:text/html\r\n")
      ∷ sent (codes "\r\n")
      ∷ out)
]

contains_nul-fill :
    (bytes : CString) (b : Buffer)
    → is_text bytes ≡ true
    → contains_nul b ≡ true
    → contains_nul (bytes ++ b) ≡ true
contains_nul-fill [] b t h = h
contains_nul-fill (c ∷ bytes) b t h = ground (arith, contains_nul-fill bytes b)

cstr-fill :
    (bytes : CString) (b : Buffer) → is_text bytes ≡ true → cstr (bytes ++ b) ≡ bytes ++ cstr b
cstr-fill [] b t = refl
cstr-fill (c ∷ bytes) b t = ground (arith, cstr-fill bytes b)

take_all : (n : ℕ) (s : CString) → length s ≤ n → take n s ≡ s
take_all zero [] h = refl
take_all zero (c ∷ s) h = absurd (omega arith)
take_all (suc n) [] h = refl
take_all (suc n) (c ∷ s) h = ap (λ l. c ∷ l) (take_all n s (omega arith))

-- A text that is shorter than the buffer goes out whole, in one piece, and behind it what the
-- buffer held there before, up to its first NUL, if there is one.
body_lem :
    (bufsiz : ℕ) (buf : Buffer) (content : CString)
    → is_text content ≡ true
    → length content < bufsiz
    → contains_nul (drop (length content) buf) ≡ true
    → body bufsiz buf (some content)
      ≡ some (sent (content ++ cstr (drop (length content) buf)) ∷ [])
unfolding body send_file
body_lem bufsiz buf content t l h =
    rw
      (
        send_file,
        take_all bufsiz content (omega arith),
        contains_nul-fill content (drop (length content) buf) t h,
        short,
        cstr-fill content (drop (length content) buf) t,
      )
      refl
  where
    short : (length content == bufsiz) ≡ false
    short = ground arith
