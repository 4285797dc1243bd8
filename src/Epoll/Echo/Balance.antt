-- ===== src/Epoll/Echo/Balance.antt =====
-- The descriptors of ch09/chattingProgram/ex06.c: what is open is what epoll watches.
use linux_systemprogramming.Common.{
  hit, ℕ, zero, suc, ◌+◌, ◌≡◌, ◌⊎◌, refl, ap, Bool, true, false, none, some, List, [], ◌∷◌, ◌++◌,
  take, arith, if◌then◌else◌, Bool-cases, inl, inr,
}
use linux_systemprogramming.Common.Text.{codes, strn_eq, contains}
use linux_systemprogramming.MsgServer.Buffer.{Buffer}
use linux_systemprogramming.Epoll.Echo.{
  max_line, Read, again, read_failed, ended, chunk, Event, connected, announced, unregistered,
  closed, Reading, fill, read_loop, Report, listening, readable, Server, remove, note, admit,
  settle, handle, serve, start,
}

abbrev pub count : ℕ → List ℕ → ℕ
count n [] = 0
count n (x ∷ xs) = hit n x + count n xs

-- The clients that accept handed out; the code takes no descriptor 0 for one.
abbrev event_accepts : ℕ → Event → ℕ
event_accepts n (connected (some (suc fd))) = hit n (suc fd)
event_accepts n _ = 0

abbrev event_closes : ℕ → Event → ℕ
event_closes n (closed fd) = hit n fd
event_closes n _ = 0

abbrev pub total : (Event → ℕ) → List Event → ℕ
total w [] = 0
total w (e ∷ es) = w e + total w es

abbrev pub accepts : ℕ → List Event → ℕ
accepts n = total (event_accepts n)

abbrev pub closes : ℕ → List Event → ℕ
closes n = total (event_closes n)

total-append : (w : Event → ℕ) (es fs : List Event) → total w (es ++ fs) ≡ total w es + total w fs
total-append w [] fs = omega arith
total-append w (e ∷ es) fs = omega (arith, total-append w es fs)

count-remove :
    (n fd : ℕ) (l : List ℕ) → contains l fd ≡ true → count n (remove fd l) + hit n fd ≡ count n l
count-remove n fd [] h = cc
count-remove n fd (x ∷ l) h = ground (arith, count-remove n fd l)

-- The inner loop opens and closes nothing.
read_loop-total :
    (fd : ℕ) (buffer : Buffer) (reads : List Read) (n : ℕ)
    → (accepts n (read_loop fd buffer reads).calls ≡ 0)
      × (closes n (read_loop fd buffer reads).calls ≡ 0)
unfolding read_loop
read_loop-total fd buffer [] n = (refl, refl)
read_loop-total fd buffer (again ∷ reads) n = (refl, refl)
read_loop-total fd buffer (read_failed ∷ reads) n = (refl, refl)
read_loop-total fd buffer (ended ∷ reads) n = (refl, refl)
read_loop-total fd buffer (chunk bytes none ∷ reads) n =
    elim (Bool-cases (strn_eq 3 (fill buffer (take max_line bytes)) (codes "..."))) [
      | inl e ↦ rw e (refl, refl)
      | inr e ↦ rw e (refl, refl)
    ]
read_loop-total fd buffer (chunk bytes (some sent) ∷ reads) n =
    let now = fill buffer (take max_line bytes) in
    let ih = read_loop-total fd now reads n in
    elim (Bool-cases (strn_eq 3 now (codes "..."))) [
      | inl e ↦ rw e (refl, refl)
      | inr e ↦ rw e (omega (arith, ih.0), omega (arith, ih.1))
    ]

-- While the server runs, it watches exactly its open clients; and a client descriptor is open as
-- often as it was accepted and not closed.
pub record IsBalanced (s : Server) : Type 0 where
  pub watched : (s.is_running ≡ false) ⊎ (s.interest ≡ s.open_fds)
  pub counted : (n : ℕ) → accepts n s.log ≡ closes n s.log + count n s.open_fds

watched-eq : {s : Server} → IsBalanced s → s.is_running ≡ true → s.interest ≡ s.open_fds
watched-eq h r = elim h.watched [ inl e ↦ cc | inr e ↦ e ]

-- New events and a new list of descriptors that agree with one another.
counted-append :
    (n : ℕ) (log es : List Event) (fds fds' : List ℕ)
    → accepts n log ≡ closes n log + count n fds
    → accepts n es + count n fds ≡ closes n es + count n fds'
    → accepts n (log ++ es) ≡ closes n (log ++ es) + count n fds'
counted-append n log es fds fds' h e =
    omega (arith, total-append (event_accepts n) log es, total-append (event_closes n) log es)

admit-IsBalanced :
    (fd : ℕ) (u a : Bool) (s : Server)
    → IsBalanced s
    → s.is_running ≡ true
    → IsBalanced (admit (suc fd) u a s)
unfolding admit
admit-IsBalanced fd true true s h r = record {
  watched = inr (ap (λ l. suc fd ∷ l) (watched-eq h r));
  counted =
      λ n. counted-append n s.log _ s.open_fds (suc fd ∷ s.open_fds) (h.counted n) (omega arith);
}
admit-IsBalanced fd true false s h r = record {
  watched = inl refl;
  counted =
      λ n. counted-append n s.log _ s.open_fds (suc fd ∷ s.open_fds) (h.counted n) (omega arith);
}
admit-IsBalanced fd false a s h r = record {
  watched = inl refl;
  counted =
      λ n. counted-append n s.log _ s.open_fds (suc fd ∷ s.open_fds) (h.counted n) (omega arith);
}

settle-IsBalanced :
    (fd : ℕ) (r : Reading) (s : Server)
    → ((n : ℕ) → (accepts n r.calls ≡ 0) × (closes n r.calls ≡ 0))
    → contains s.open_fds fd ≡ true
    → IsBalanced s
    → s.is_running ≡ true
    → IsBalanced (settle fd r s)
unfolding settle
settle-IsBalanced fd r s z k h o = elim (Bool-cases r.is_exit) [
  | inl e ↦ rw e (record {
    watched = inl refl;
    counted = λ n.
        counted-append n s.log r.calls s.open_fds s.open_fds (h.counted n)
          (omega (arith, (z n).0, (z n).1));
  })
  | inr e ↦ elim (Bool-cases r.is_done) [
    | inl d ↦
        rw (e, d)
          (record {
            watched = inr (ap (remove fd) (watched-eq h o));
            counted = λ n.
                counted-append n s.log _ s.open_fds (remove fd s.open_fds) (h.counted n) (
                  omega (
                    arith,
                    (z n).0,
                    (z n).1,
                    count-remove n fd s.open_fds k,
                    total-append (event_accepts n) r.calls
                        (announced fd ∷ unregistered fd ∷ closed fd ∷ []),
                    total-append (event_closes n) r.calls
                        (announced fd ∷ unregistered fd ∷ closed fd ∷ []),
                  ));
          })
    | inr d ↦
        rw (e, d)
          (record {
            watched = inr (watched-eq h o);
            counted = λ n.
                counted-append n s.log r.calls s.open_fds s.open_fds (h.counted n)
                  (omega (arith, (z n).0, (z n).1));
          })
  ]
]

note-IsBalanced :
    (es : List Event) (s : Server)
    → ((n : ℕ) → (accepts n es ≡ 0) × (closes n es ≡ 0))
    → IsBalanced s
    → IsBalanced (note es s)
note-IsBalanced es s z h = record {
  watched = h.watched;
  counted = λ n.
      counted-append n s.log es s.open_fds s.open_fds (h.counted n)
        (omega (arith, (z n).0, (z n).1));
}

-- Every report keeps the balance.
pub handle-IsBalanced :
    (r : Report) (s : Server) → IsBalanced s → s.is_running ≡ true → IsBalanced (handle r s)
unfolding handle
handle-IsBalanced (listening none u a) s h o =
    note-IsBalanced (connected none ∷ []) s (λ n. (refl, refl)) h
handle-IsBalanced (listening (some zero) u a) s h o =
    note-IsBalanced (connected (some 0) ∷ []) s (λ n. (refl, refl)) h
handle-IsBalanced (listening (some (suc fd)) u a) s h o = admit-IsBalanced fd u a s h o
handle-IsBalanced (readable fd reads) s h o = elim (Bool-cases (contains s.interest fd)) [
  | inl e ↦ rw e (
      settle-IsBalanced fd (read_loop fd s.buffer reads) s (read_loop-total fd s.buffer reads)
        (rw (watched-eq h o) at e) h o)
  | inr e ↦ rw e h
]

serve-preserves : (rs : List Report) (s : Server) → IsBalanced s → IsBalanced (serve rs s)
unfolding serve
serve-preserves [] s h = h
serve-preserves (r ∷ rs) s h =
    serve-preserves rs (if s.is_running then handle r s else s) (kept s.is_running refl)
  where
    kept : (b : Bool) → s.is_running ≡ b → IsBalanced (if b then handle r s else s)
    kept true e = handle-IsBalanced r s h e
    kept false e = h

-- After any reports, with any results of accept, fcntl, epoll_ctl, read and write, the server watches
-- exactly the clients that are open, unless it has exited; and each descriptor is open as often as
-- accept gave it out and it was not closed.
pub serve-IsBalanced : (stale : Buffer) (rs : List Report) → IsBalanced (serve rs (start stale))
serve-IsBalanced stale rs =
    serve-preserves rs (start stale) (record { watched = inr refl; counted = λ n. refl })
