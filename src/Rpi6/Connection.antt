-- ===== src/Rpi6/Connection.antt =====
-- clnt_connection of ch09/chattingProgram/rpi6.c: one request and its answer.
use linux_systemprogramming.Common.{
  ℕ, not, Option, none, some, List, [], ◌∷◌, ◌++◌, ◌-◌, take, length, map, ◌==◌, if◌then◌else◌,
}
use linux_systemprogramming.Common.Text.{CString, codes, str_eq}
use linux_systemprogramming.WebLed.Led.{Level}
use linux_systemprogramming.Rpi6.Query.{scan_while, not_space, skip_space, query_levels}

pub data Event : Type 0 where
  pin : Level → Event
  sent : CString → Event
  flushed : Event
  read_closed : Event
  write_closed : Event

-- `sscanf(req_line, "%15s %s", method, path)`: each string stays as it is if its word is missing.
abbrev pub word_or : CString → CString → CString
word_or stale [] = stale
word_or stale (c ∷ w) = c ∷ w

unfoldable pub scan_request : CString → CString → CString → CString × CString
unfolding scan_while
scan_request stale_method stale_path line =
    let (method, rest) = scan_while not_space 15 (skip_space line) in
    (
      word_or stale_method method,
      word_or stale_path (scan_while not_space (length rest) (skip_space rest)).0,
    )

-- `strchr(path, '?')`, and one byte on.
unfoldable pub query_of : CString → Option CString
query_of [] = none
query_of (c ∷ s) = if c == b'?' then some s else query_of s

unfoldable pub switch_leds : CString → List Event
unfolding query_of
switch_leds path = elim (query_of path) [ none ↦ [] | some query ↦ map pin (query_levels query) ]

-- The page, with the number of its bytes as `digits` prints it.
unfoldable pub send_page : (ℕ → CString) → Option CString → List Event
send_page digits none = sent (codes "HTTP/1.1 404 Not Found\r\n\r\n<h1>404 Not Found</h1>") ∷ []
send_page digits (some page) =
    sent (
      codes "HTTP/1.1 200 OK\r\n"
      ++ (codes "Content-Type: text/html; charset=UTF-8\r\n"
          ++ (codes "Content-Length: "
              ++ (digits (length page) ++ (codes "\r\n" ++ codes "\r\n")))))
    ∷ sent page
    ∷ []

unfoldable pub answer : (ℕ → CString) → Option CString → CString → CString → List Event
unfolding switch_leds send_page
answer digits page method path =
    if not (str_eq method (codes "GET"))
    then sent (codes "HTTP/1.1 405 Method Not Allowed\r\n\r\n") ∷ []
    else switch_leds path ++ send_page digits page

-- The whole function, without the header lines, which it reads and drops; `page` is index.html, the stale
-- strings are what its arrays hold, and `bufsiz` is BUFSIZ. fgets takes one byte less of the line; what
-- is behind them is dropped as a header is.
unfoldable pub clnt_connection :
    ℕ → (ℕ → CString) → Option CString → CString → CString → CString → List Event
unfolding scan_request answer
clnt_connection bufsiz digits page stale_method stale_path line =
    let req_line = take (bufsiz - 1) line in
    let (method, path) = scan_request stale_method stale_path req_line in
    answer digits page method path ++ (flushed ∷ read_closed ∷ write_closed ∷ [])
