-- ===== src/Epoll/Echo.antt =====
-- ch09/chattingProgram/ex06.c: non-blocking clients, edge-triggered, whose bytes are sent back.
pub mod ReadLoop
pub mod Balance
use linux_systemprogramming.Common.{
  ℕ, zero, suc, ◌+◌, ◌≡◌, refl, Bool, true, false, Option, none, some, List, [], ◌∷◌, ◌++◌, length,
  take, drop, if◌then◌else◌, ◌==◌, ltb,
}
use linux_systemprogramming.Common.Text.{CString, codes, strn_eq, contains}
use linux_systemprogramming.MsgServer.Buffer.{Buffer}

abbrev pub max_line : ℕ
max_line = 10

-- What read(2) gives on a client: EAGAIN, another error, the end, or bytes, which come with what the
-- write of them gives, if it is made: an error, or how many bytes it has taken.
pub data Read : Type 0 where
  again : Read
  read_failed : Read
  ended : Read
  chunk : CString → Option ℕ → Read

pub data Event : Type 0 where
  connected : Option ℕ → Event
  -- fcntl, twice
  unblocked : ℕ → Event
  registered : ℕ → Event
  echoed : ℕ → CString → Event
  complained : CString → Event
  announced : ℕ → Event
  unregistered : ℕ → Event
  closed : ℕ → Event
  exited : ℕ → Event

-- How the inner loop ends: `done` or not, or in `exit(1)`; with `buffer` and the calls, oldest first.
pub record Reading : Type 0 where
  pub buffer : Buffer
  pub calls : List Event
  pub is_done : Bool
  pub is_exit : Bool

abbrev pub before : Event → Reading → Reading
before e r = record r { calls = e ∷ r.calls }

-- `read(fd, buffer, sizeof(buffer))`: at most so many bytes, which go over the front of `buffer`.
abbrev pub fill : Buffer → CString → Buffer
fill buffer bytes = bytes ++ drop (length bytes) buffer

-- The inner `while (1)` on the results of read; a client with no more results is at EAGAIN. What a write
-- does not take is not sent again.
unfoldable pub read_loop : ℕ → Buffer → List Read → Reading
read_loop fd buffer [] = record { buffer = buffer; calls = []; is_done = false; is_exit = false }
read_loop fd buffer (again ∷ reads) = record {
  buffer = buffer;
  calls = [];
  is_done = false;
  is_exit = false;
}
read_loop fd buffer (read_failed ∷ reads) = record {
  buffer = buffer;
  calls = complained (codes "read") ∷ [];
  is_done = true;
  is_exit = false;
}
read_loop fd buffer (ended ∷ reads) = record {
  buffer = buffer;
  calls = [];
  is_done = true;
  is_exit = false;
}
read_loop fd buffer (chunk bytes result ∷ reads) =
    let got = take max_line bytes in
    let now = fill buffer got in
    let rest = read_loop fd now reads in
    if strn_eq 3 now (codes "...")
    then record { buffer = now; calls = []; is_done = true; is_exit = false }
    else elim result [
      | some sent ↦ before (echoed fd (take sent got)) rest
      | none ↦ record {
        buffer = now;
        calls = complained (codes "write") ∷ exited 1 ∷ [];
        is_done = false;
        is_exit = true;
      }
    ]

-- What epoll_wait reports: the listening socket, with the results of accept, fcntl and epoll_ctl, or
-- a client, with the results of its reads and writes.
pub data Report : Type 0 where
  listening : Option ℕ → Bool → Bool → Report
  readable : ℕ → List Read → Report

-- The clients in the interest list of epoll, the open client descriptors, `buffer`, and all calls,
-- oldest first.
pub record Server : Type 0 where
  pub interest : List ℕ
  pub open_fds : List ℕ
  pub buffer : Buffer
  pub log : List Event
  pub is_running : Bool

abbrev pub remove : ℕ → List ℕ → List ℕ
remove fd [] = []
remove fd (x ∷ xs) = if x == fd then xs else x ∷ remove fd xs

abbrev pub note : List Event → Server → Server
note es s = record s { log = s.log ++ es }

-- `exit(1)`
abbrev pub quit : List Event → Server → Server
quit es s = record s { log = s.log ++ (es ++ exited 1 ∷ []); is_running = false }

-- Behind accept: `clientsd > 0`.
unfoldable pub admit : ℕ → Bool → Bool → Server → Server
admit fd is_unblocked is_added s =
    let opened = record s { open_fds = fd ∷ s.open_fds } in
    if is_unblocked
    then (if is_added
        then note (connected (some fd) ∷ unblocked fd ∷ registered fd ∷ [])
            (record opened { interest = fd ∷ s.interest })
        else quit (connected (some fd) ∷ unblocked fd ∷ complained (codes "epoll_ctl") ∷ []) opened)
    else quit (connected (some fd) ∷ complained (codes "fcntl") ∷ []) opened

-- Behind the inner loop.
unfoldable pub settle : ℕ → Reading → Server → Server
settle fd r s =
    if r.is_exit
    then record s { buffer = r.buffer; log = s.log ++ r.calls; is_running = false }
    else if r.is_done
    then record s {
      buffer = r.buffer;
      log = s.log ++ (r.calls ++ announced fd ∷ unregistered fd ∷ closed fd ∷ []);
      interest = remove fd s.interest;
      open_fds = remove fd s.open_fds;
    }
    else record s { buffer = r.buffer; log = s.log ++ r.calls }

-- The body of the `for` loop. epoll reports only clients in its interest list.
unfoldable pub handle : Report → Server → Server
unfolding admit settle read_loop
handle (listening none u a) s = note (connected none ∷ []) s
handle (listening (some zero) u a) s = note (connected (some 0) ∷ []) s
handle (listening (some (suc fd)) u a) s = admit (suc fd) u a s
handle (readable fd reads) s =
    if contains s.interest fd then settle fd (read_loop fd s.buffer reads) s else s

-- `main` behind the set-up: all the reports, in order, until the program ends.
unfoldable pub serve : List Report → Server → Server
unfolding handle
serve [] s = s
serve (r ∷ rs) s = serve rs (if s.is_running then handle r s else s)

abbrev pub start : Buffer → Server
start stale = record { interest = []; open_fds = []; buffer = stale; log = []; is_running = true }
