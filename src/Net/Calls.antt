-- ===== src/Net/Calls.antt =====
-- The socket calls of ch09. The kernel is a parameter that answers each call from all that has
-- happened before, newest event first. A run returns, ends in exit(3), or is still in a loop when
-- the answers are used up.
use linux_systemprogramming.Common.{ℕ, Bool, true, false, Option, none, some, List, ◌∷◌}
use linux_systemprogramming.Common.Text.{CString}
use linux_systemprogramming.Chat.Loop as Loop

pub data Event : Type 0 where
  -- socket(2), its result
  opened : Option ℕ → Event
  -- socket, port
  bound : ℕ → ℕ → Bool → Event
  -- socket, backlog
  listened : ℕ → ℕ → Bool → Event
  accepted : ℕ → Option (ℕ × CString) → Event
  -- socket, address, port
  connected : ℕ → CString → ℕ → Bool → Event
  looked_up : CString → Option CString → Event
  -- socket, how many bytes at most
  received : ℕ → ℕ → Option (CString × CString) → Event
  sent : ℕ → CString → Bool → Event
  -- socket, text, address, port
  sent_to : ℕ → CString → CString → ℕ → Option ℕ → Event
  typed : CString → Event
  closed : ℕ → Event
  -- a run of `chatting` on a socket, with its events
  chatted : ℕ → List Loop.Event → Event
  -- a thread for the socket that accept gave
  threaded : Option ℕ → Bool → Event
  joined : Option ℕ → Event
  detached : Option ℕ → Event
  -- free(3) on the address of a local variable
  freed_local : Event
  -- the interest list of epoll
  epoll_created : Bool → Event
  epoll_added : ℕ → Bool → Event
  -- which of two sockets are readable, or the error of poll(2)
  polled : Option (Bool × Bool) → Event
  collector_started : Event
  printed : CString → Event
  -- with the numbers for `%d` and `%ld`
  printed_nums : CString → List ℕ → Event
  complained : CString → Event

abbrev pub Trace : Type 0
Trace = List Event

-- `none` and `false` are the error returns. A text comes with the address of its sender.
pub record Os : Type 0 where
  pub socket : Trace → Option ℕ
  pub bind : Trace → ℕ → ℕ → Bool
  pub listen : Trace → ℕ → ℕ → Bool
  pub accept : Trace → ℕ → Option (ℕ × CString)
  pub connect : Trace → ℕ → CString → ℕ → Bool
  pub gethostbyname : Trace → CString → Option CString
  pub recv : Trace → ℕ → ℕ → Option (CString × CString)
  pub send : Trace → ℕ → CString → Bool
  pub sendto : Trace → ℕ → CString → CString → ℕ → Option ℕ
  -- the text that the buffer holds behind fgets
  pub fgets : Trace → CString
  pub pthread_create : Trace → Option ℕ → Bool
  -- for texts of no negative number
  pub atoi : CString → ℕ
  pub epoll_create : Trace → Bool
  pub epoll_add : Trace → ℕ → Bool
  pub poll : Trace → Option (Bool × Bool)
  -- what select or poll, send and recv answer to `chatting`, and the lines of stdin
  pub answers : Trace → List (Loop.Ready × Bool × Loop.Recv)
  pub input : Trace → List CString
  -- what an uninitialised buffer holds
  pub stale_text : CString

pub data Outcome (A : Type 0) : Type 0 where
  returned : A → Trace → Outcome A
  exited : ℕ → Trace → Outcome A
  running : Trace → Outcome A

abbrev pub Net : Type 0 → Type 0
Net A = Trace → Outcome A

abbrev pub pure : {A : Type 0} → A → Net A
pure a t = returned a t

abbrev pub exit : {A : Type 0} → ℕ → Net A
exit n t = exited n t

abbrev pub loops : {A : Type 0} → Net A
loops t = running t

infixl 5 ◌>>=◌ ◌>>◌
abbrev pub ◌>>=◌ : {A B : Type 0} → Net A → (A → Net B) → Net B
◌>>=◌ m f t = elim (m t) [
  | returned a t' ↦ f a t'
  | exited n t' ↦ exited n t'
  | running t' ↦ running t'
]

abbrev pub ◌>>◌ : {A B : Type 0} → Net A → Net B → Net B
m >> k = m >>= λ _. k

abbrev pub emit : Event → Net (Unit {0})
emit e t = returned tt (e ∷ t)

abbrev pub print : CString → Net (Unit {0})
print s = emit (printed s)

abbrev pub close : ℕ → Net (Unit {0})
close fd = emit (closed fd)

-- `perror(...); exit(n);`
abbrev pub die : {A : Type 0} → CString → ℕ → Net A
die s n = emit (complained s) >> exit n

-- `if ((x = call) == -1) { perror(...); exit(n); }`
abbrev pub checked : {A : Type 0} → CString → ℕ → Net (Option A) → Net A
checked s n m = m >>= λ r. elim r [ none ↦ die s n | some a ↦ pure a ]

abbrev pub test : CString → ℕ → Net Bool → Net (Unit {0})
test s n m = m >>= λ r. elim r [ false ↦ die s n | true ↦ pure tt ]

module _ (os : Os) where
  abbrev pub socket : Net (Option ℕ)
  socket t = returned (os.socket t) (opened (os.socket t) ∷ t)

  abbrev pub bind : ℕ → ℕ → Net Bool
  bind fd port t = returned (os.bind t fd port) (bound fd port (os.bind t fd port) ∷ t)

  abbrev pub listen : ℕ → ℕ → Net Bool
  listen fd backlog t =
      returned (os.listen t fd backlog) (listened fd backlog (os.listen t fd backlog) ∷ t)

  abbrev pub accept : ℕ → Net (Option (ℕ × CString))
  accept fd t = returned (os.accept t fd) (accepted fd (os.accept t fd) ∷ t)

  abbrev pub connect : ℕ → CString → ℕ → Net Bool
  connect fd addr port t =
      returned (os.connect t fd addr port) (connected fd addr port (os.connect t fd addr port) ∷ t)

  abbrev pub gethostbyname : CString → Net (Option CString)
  gethostbyname name t =
      returned (os.gethostbyname t name) (looked_up name (os.gethostbyname t name) ∷ t)

  abbrev pub recv : ℕ → ℕ → Net (Option (CString × CString))
  recv fd n t = returned (os.recv t fd n) (received fd n (os.recv t fd n) ∷ t)

  abbrev pub send : ℕ → CString → Net Bool
  send fd s t = returned (os.send t fd s) (sent fd s (os.send t fd s) ∷ t)

  abbrev pub sendto : ℕ → CString → CString → ℕ → Net (Option ℕ)
  sendto fd s addr port t =
      returned (os.sendto t fd s addr port)
        (sent_to fd s addr port (os.sendto t fd s addr port) ∷ t)

  abbrev pub fgets : Net CString
  fgets t = returned (os.fgets t) (typed (os.fgets t) ∷ t)

  abbrev pub pthread_create : Option ℕ → Net Bool
  pthread_create fd t = returned (os.pthread_create t fd) (threaded fd (os.pthread_create t fd) ∷ t)

  abbrev pub epoll_create : Net Bool
  epoll_create t = returned (os.epoll_create t) (epoll_created (os.epoll_create t) ∷ t)

  abbrev pub epoll_add : ℕ → Net Bool
  epoll_add fd t = returned (os.epoll_add t fd) (epoll_added fd (os.epoll_add t fd) ∷ t)

  abbrev pub poll : Net (Option (Bool × Bool))
  poll t = returned (os.poll t) (polled (os.poll t) ∷ t)
