-- ===== src/PlainWeb/Tests.antt =====
-- One request for a file.
use linux_systemprogramming.Common.{◌≡◌, refl, true, some, [], ◌∷◌, arith}
use mathlib.Core.Option
use linux_systemprogramming.Common.Text.{codes}
use linux_systemprogramming.WebLed.Response.{echoed}
use linux_systemprogramming.WebLed.Connection.{World, output}
use linux_systemprogramming.PlainWeb.Connection.{serve_file, clnt_connection, clnt_connection_file}

abbrev request : World
request = record {
  bufsiz = 64;
  line = codes "GET /a.html HTTP/1.1\r\n";
  headers = codes "\r\n" ∷ [];
  is_thread_created = true;
  loader = record { dlopen = λ path. true; dlsym = λ name. true };
  file = λ name. some (codes "text");
  stale_filename = codes "led.html";
  stale_buf = 0 ∷ 0 ∷ 0 ∷ 0 ∷ 0 ∷ [];
}

page_served :
    clnt_connection request
    ≡ Option.map (λ es. output (echoed request.line) ∷ es) (serve_file request (codes "a.html"))
page_served =
    clnt_connection_file request (codes "a.html") (codes "HTTP/1.1\r\n") refl (λ n. refl) refl refl
      (omega arith)
