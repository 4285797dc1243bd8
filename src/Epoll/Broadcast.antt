-- ===== src/Epoll/Broadcast.antt =====
-- ch09/chattingProgram/ex05.c: what one client sends is written to others.
use linux_systemprogramming.Common.{
  ℕ, suc, ◌≡◌, refl, Bool, true, false, not-true, &&-left, &&-right, not, ◌&&◌, Option, none, some,
  List, [], ◌∷◌, ◌++◌, if◌then◌else◌, ◌==◌, ◌≢◌, sym, ap, ◌∙◌, arith, append-nil, append_assoc,
  replicate, Bool-cases, inl, inr,
}
use linux_systemprogramming.Common.Text.{CString, codes, contains}
use linux_systemprogramming.Epoll.Echo.{remove}

pub data Event : Type 0 where
  accepted : Option ℕ → Event
  wrote : ℕ → CString → Event
  -- a write to a descriptor that is closed; its result is not looked at
  refused : ℕ → CString → Event
  unregistered : ℕ → Event
  closed : ℕ → Event
  printed : CString → Event

-- An entry of `client_list`, with what accept or read gives for it: no bytes stand for a result of 0
-- or -1.
pub data Report : Type 0 where
  listening : Option ℕ → Report
  readable : ℕ → CString → Report

-- The clients in the interest list, which are the open ones: a client that is closed in a round is no
-- longer there, and one that is accepted may have its descriptor.
pub record Server : Type 0 where
  pub interest : List ℕ
  pub log : List Event

-- `data.fd` of an entry, for the listening socket `sockfd`.
abbrev pub fd_of : ℕ → Report → ℕ
fd_of sockfd (listening c) = sockfd
fd_of sockfd (readable fd b) = fd

abbrev pub write : List ℕ → ℕ → CString → Event
write open_fds fd bytes = if contains open_fds fd then wrote fd bytes else refused fd bytes

-- The `for` loop over j.
unfoldable pub pass_on : List ℕ → ℕ → ℕ → CString → List Report → List Event
pass_on open_fds sockfd from bytes [] = []
pass_on open_fds sockfd from bytes (r ∷ rs) =
    if not (fd_of sockfd r == sockfd) && not (fd_of sockfd r == from)
    then write open_fds (fd_of sockfd r) bytes ∷ pass_on open_fds sockfd from bytes rs
    else pass_on open_fds sockfd from bytes rs

-- The body of the `for` loop over i, where `all` is the whole `client_list`.
unfoldable pub handle : ℕ → List Report → Report → Server → Server
unfolding pass_on
handle sockfd all (listening c) s = record {
  interest = elim c [ none ↦ s.interest | some fd ↦ fd ∷ s.interest ];
  log = s.log ++ printed (codes "Accept\n") ∷ accepted c ∷ [];
}
handle sockfd all (readable fd []) s = record {
  interest = remove fd s.interest;
  log = s.log ++ unregistered fd ∷ closed fd ∷ printed (codes "Close fd\n") ∷ [];
}
handle sockfd all (readable fd (b ∷ bs)) s = record s {
  log = s.log ++ pass_on s.interest sockfd fd (b ∷ bs) all;
}

unfoldable pub handle_all : ℕ → List Report → List Report → Server → Server
unfolding handle
handle_all sockfd all [] s = s
handle_all sockfd all (r ∷ rs) s = handle_all sockfd all rs (handle sockfd all r s)

-- One round of the `while` loop, on what epoll_wait reports.
unfoldable pub round : ℕ → List Report → Server → Server
unfolding handle_all
round sockfd reports s = handle_all sockfd reports reports s

-- The texts that are written to an open descriptor.
abbrev pub received : ℕ → List Event → List CString
received fd [] = []
received fd (wrote to bytes ∷ es) = if to == fd then bytes ∷ received fd es else received fd es
received fd (e ∷ es) = received fd es

abbrev pub count : ℕ → List ℕ → ℕ
count n [] = 0
count n (x ∷ xs) = if x == n then suc (count n xs) else count n xs

abbrev pub fds : ℕ → List Report → List ℕ
fds sockfd [] = []
fds sockfd (r ∷ rs) = fd_of sockfd r ∷ fds sockfd rs

-- What the reports of one round owe to a client: each text of another one, once for each entry that
-- the client has in the same round.
abbrev pub owed : ℕ → ℕ → List Report → List Report → List CString
owed sockfd to all [] = []
owed sockfd to all (listening c ∷ rs) = owed sockfd to all rs
owed sockfd to all (readable fd [] ∷ rs) = owed sockfd to all rs
owed sockfd to all (readable fd (b ∷ bs) ∷ rs) =
    (if to == fd then [] else replicate (count to (fds sockfd all)) (b ∷ bs))
    ++ owed sockfd to all rs

received-append :
    (to : ℕ) (es fs : List Event) → received to (es ++ fs) ≡ received to es ++ received to fs
received-append to [] fs = refl
received-append to (accepted c ∷ es) fs = received-append to es fs
received-append to (wrote fd b ∷ es) fs = ground (arith, received-append to es fs)
received-append to (refused fd b ∷ es) fs = received-append to es fs
received-append to (unregistered c ∷ es) fs = received-append to es fs
received-append to (closed c ∷ es) fs = received-append to es fs
received-append to (printed c ∷ es) fs = received-append to es fs

-- A write to an open client is one that it gets, and others do not matter to it.
received-write :
    (open_fds : List ℕ) (to fd : ℕ) (bytes : CString) (es : List Event)
    → contains open_fds to ≡ true
    → received to (write open_fds fd bytes ∷ es) ≡ received to (wrote fd bytes ∷ es)
received-write open_fds to fd bytes es o = elim (Bool-cases (contains open_fds fd)) [
  | inl e ↦ rw e refl
  | inr e ↦ elim (Bool-cases (to == fd)) [
    | inl k ↦ let same : to ≡ fd = ground (arith, k) in absurd (cc (o, e, same))
    | inr k ↦ ground (arith, e, k)
  ]
]

received-pass_on :
    (open_fds : List ℕ) (sockfd from to : ℕ) (bytes : CString) (rs : List Report)
    → to ≢ sockfd
    → contains open_fds to ≡ true
    → received to (pass_on open_fds sockfd from bytes rs)
      ≡ (if to == from then [] else replicate (count to (fds sockfd rs)) bytes)
unfolding pass_on
received-pass_on open_fds sockfd from to bytes [] h o = ground arith
received-pass_on open_fds sockfd from to bytes (r ∷ rs) h o = ground (
  arith,
  received-pass_on open_fds sockfd from to bytes rs h o,
  received-write open_fds to (fd_of sockfd r) bytes (pass_on open_fds sockfd from bytes rs) o,
)

-- Whether no report of the round ends this client.
abbrev pub stays : ℕ → List Report → Bool
stays to [] = true
stays to (listening c ∷ rs) = stays to rs
stays to (readable fd [] ∷ rs) = not (fd == to) && stays to rs
stays to (readable fd (b ∷ bs) ∷ rs) = stays to rs

contains-remove :
    (to fd : ℕ) (l : List ℕ)
    → (fd == to) ≡ false
    → contains l to ≡ true
    → contains (remove fd l) to ≡ true
contains-remove to fd [] h k = k
contains-remove to fd (x ∷ l) h k = ground (arith, contains-remove to fd l h)

handle_all-received :
    (sockfd to : ℕ) (all rs : List Report) (s : Server)
    → to ≢ sockfd
    → stays to rs ≡ true
    → contains s.interest to ≡ true
    → received to (handle_all sockfd all rs s).log ≡ received to s.log ++ owed sockfd to all rs
unfolding handle_all handle
handle_all-received sockfd to all [] s h k o = sym (append-nil (received to s.log))
handle_all-received sockfd to all (listening c ∷ rs) s h k o =
    handle_all-received sockfd to all rs (handle sockfd all (listening c) s) h k (accepted_too c)
    ∙ ap (λ l. l ++ owed sockfd to all rs)
        (received-append to s.log _ ∙ append-nil (received to s.log))
  where
    accepted_too : (c : Option ℕ) → contains (handle sockfd all (listening c) s).interest to ≡ true
    accepted_too none = o
    accepted_too (some fd) = ground (arith, o)
handle_all-received sockfd to all (readable fd [] ∷ rs) s h k o =
    handle_all-received sockfd to all rs (handle sockfd all (readable fd []) s) h
      (&&-right (not (fd == to)) (stays to rs) k)
      (contains-remove to fd s.interest
        (not-true (fd == to) (&&-left (not (fd == to)) (stays to rs) k)) o)
    ∙ ap (λ l. l ++ owed sockfd to all rs)
        (received-append to s.log _ ∙ append-nil (received to s.log))
handle_all-received sockfd to all (readable fd (b ∷ bs) ∷ rs) s h k o =
    handle_all-received sockfd to all rs (handle sockfd all (readable fd (b ∷ bs)) s) h k o
    ∙ ap (λ l. l ++ owed sockfd to all rs)
        (received-append to s.log (pass_on s.interest sockfd fd (b ∷ bs) all)
          ∙ ap (λ l. received to s.log ++ l)
              (received-pass_on s.interest sockfd fd to (b ∷ bs) all h o))
    ∙ append_assoc (received to s.log) _ _

-- In one round an open client that does not end in it is written exactly what the other clients of the
-- same round sent, in order, once for each of its own entries in that round. A client that sent nothing
-- in this round is written nothing.
pub round-received :
    (sockfd to : ℕ) (reports : List Report) (s : Server)
    → to ≢ sockfd
    → contains s.interest to ≡ true
    → stays to reports ≡ true
    → received to (round sockfd reports s).log ≡ received to s.log ++ owed sockfd to reports reports
unfolding round
round-received sockfd to reports s h o k = handle_all-received sockfd to reports reports s h k o
