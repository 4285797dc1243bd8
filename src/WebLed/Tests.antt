-- ===== src/WebLed/Tests.antt =====
-- One request on a concrete line.
use linux_systemprogramming.Common.{◌≡◌, refl, true, none, [], ◌∷◌, arith}
use mathlib.Core.Option
use linux_systemprogramming.Common.Text.{codes, str_eq}
use linux_systemprogramming.WebLed.Thread.{Loader}
use linux_systemprogramming.WebLed.Response.{echoed}
use linux_systemprogramming.WebLed.Connection.{
  World, output, route, clnt_connection, clnt_connection_get,
}

abbrev loader : Loader
loader = record { dlopen = λ path. true; dlsym = λ name. str_eq name (codes "led_function") }

abbrev request : World
request = record {
  bufsiz = 64;
  line = codes "GET /on HTTP/1.1\r\n";
  headers = codes "\r\n" ∷ [];
  is_thread_created = true;
  loader = loader;
  file = λ name. none;
  stale_filename = codes "led.html";
  stale_buf = [];
}

clnt_connection_get_example :
    clnt_connection request
    ≡ Option.map (λ es. output (echoed request.line) ∷ es) (route request (codes "on"))
clnt_connection_get_example =
    clnt_connection_get request (codes "on") (codes "HTTP/1.1\r\n") refl (λ n. refl) refl refl
      (omega arith)
