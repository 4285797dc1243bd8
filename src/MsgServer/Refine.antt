-- ===== src/MsgServer/Refine.antt =====
-- The queue of ch09/msg_server.c is a first-in first-out queue of at most 100 messages: `enqueue`
-- adds at the end or, when it is full, drops the message; the collector takes from the front.
use linux_systemprogramming.Common.{
  ℕ, zero, suc, ◌+◌, ◌-◌, ◌%◌, ◌≤◌, ◌<◌, ◌≡◌, ◌≢◌, refl, sym, ◌∙◌, true, false, some, List, [], ◌∷◌,
  ◌++◌, length, take, get_elem?, set, replicate, arith, ◌==◌, ltb, ltb→lt, if◌then◌else◌,
  length-append, length-set, get_elem?-set_self, get_elem?-set_ne, ℕ_discrete, Bool-cases, inl, inr,
}
use linux_systemprogramming.Common.Text.{CString}
use linux_systemprogramming.MsgServer.Buffer.{
  cstr, is_text, IsClosed, cstr-strncpy, strncpy-IsClosed,
}
use linux_systemprogramming.MsgServer.Queue.{
  LogEntry, Queue, queue_size, inet_addrstrlen, maxdatasize, filled, store, enqueue, Taken, waits,
  took, rest, take_entry, initial,
}

-- What a reader sees of an entry.
abbrev pub Message : Type 0
Message = CString × CString

abbrev pub reads : LogEntry → Message
reads e = (cstr e.client_ip, cstr e.message)

-- Both buffers end in a NUL that strncpy does not reach.
abbrev pub IsEntry : LogEntry → Type 0
IsEntry e = IsClosed (inet_addrstrlen - 1) e.client_ip × IsClosed (maxdatasize - 1) e.message

abbrev pub slot : Queue → ℕ → ℕ
slot q i = (q.q_head + i) % queue_size

-- The queue holds these messages, oldest first.
pub record Holds (q : Queue) (ms : List Message) : Type 0 where
  pub room : length q.queue ≡ queue_size
  pub head_in : q.q_head < queue_size
  pub tail_at : q.q_tail ≡ (q.q_head + q.q_count) % queue_size
  pub counted : q.q_count ≡ length ms
  pub bounded : q.q_count ≤ queue_size
  pub entries :
      (i : ℕ) → i < queue_size → (e : LogEntry) × (get_elem? q.queue i ≡ some e) × IsEntry e
  pub at :
      (i : ℕ) (e : LogEntry) (m : Message)
      → get_elem? ms i ≡ some m
      → get_elem? q.queue (slot q i) ≡ some e
      → reads e ≡ m

-- What `enqueue` stores of its arguments.
abbrev pub cut : CString → CString → Message
cut ip msg = (take (inet_addrstrlen - 1) ip, take (maxdatasize - 1) msg)

-- The specification of `enqueue`.
abbrev pub pushed : CString → CString → List Message → List Message
pushed ip msg ms = if ltb (length ms) queue_size then ms ++ (cut ip msg ∷ []) else ms

get_elem?-lt {ℓ} :
    {A : Type ℓ} (xs : List A) (i : ℕ) (x : A) → get_elem? xs i ≡ some x → i < length xs
get_elem?-lt [] i x e = cc
get_elem?-lt (y ∷ xs) zero x e = omega arith
get_elem?-lt (y ∷ xs) (suc i) x e = omega (arith, get_elem?-lt xs i x e)

get_elem?-append_lt {ℓ} :
    {A : Type ℓ} (xs ys : List A) (i : ℕ) → i < length xs → get_elem? (xs ++ ys) i ≡ get_elem? xs i
get_elem?-append_lt [] ys i h = absurd (omega arith)
get_elem?-append_lt (x ∷ xs) ys zero h = refl
get_elem?-append_lt (x ∷ xs) ys (suc i) h = get_elem?-append_lt xs ys i (omega arith)

get_elem?-replicate {ℓ} :
    {A : Type ℓ} (n i : ℕ) (a : A) → i < n → get_elem? (replicate n a) i ≡ some a
get_elem?-replicate zero i a h = absurd (omega arith)
get_elem?-replicate (suc n) zero a h = refl
get_elem?-replicate (suc n) (suc i) a h = get_elem?-replicate n i a (omega arith)

get_elem?-append_end {ℓ} :
    {A : Type ℓ} (xs : List A) (y : A) → get_elem? (xs ++ (y ∷ [])) (length xs) ≡ some y
get_elem?-append_end [] y = refl
get_elem?-append_end (x ∷ xs) y = get_elem?-append_end xs y

module _ (ip msg : CString) (q : Queue) (ms : List Message) (h : Holds q ms)
    (free : q.q_count < queue_size) (ip_text : is_text ip ≡ true) (msg_text : is_text msg ≡ true)
    (e : LogEntry) (here : get_elem? q.queue q.q_tail ≡ some e) (is_entry : IsEntry e) where
  reads-filled : reads (filled e ip msg) ≡ cut ip msg
  reads-filled = cc (
    cstr-strncpy e.client_ip ip 15 is_entry.0 ip_text,
    cstr-strncpy e.message msg 1023 is_entry.1 msg_text,
  )

  store-entries :
      (i : ℕ)
      → i < queue_size
      → (e' : LogEntry) × (get_elem? (store q ip msg e).queue i ≡ some e') × IsEntry e'
  store-entries i lt = elim (ℕ_discrete q.q_tail i) [
    | yes p ↦ (
      filled e ip msg,
      rw (← p) (
          get_elem?-set_self q.queue q.q_tail (filled e ip msg) (omega (arith, h.room, h.tail_at))),
      (
        strncpy-IsClosed e.client_ip ip 15 is_entry.0,
        strncpy-IsClosed e.message msg 1023 is_entry.1,
      ),
    )
    | no p ↦
        let (e', q', c) = h.entries i lt in
        (e', get_elem?-set_ne q.queue q.q_tail i (filled e ip msg) p ∙ q', c)
  ]

  store-at :
      (i : ℕ) (e' : LogEntry) (m : Message)
      → get_elem? (ms ++ (cut ip msg ∷ [])) i ≡ some m
      → get_elem? (store q ip msg e).queue (slot (store q ip msg e) i) ≡ some e'
      → reads e' ≡ m
  store-at i e' m p r = elim (ℕ_discrete i (length ms)) [
    | yes s ↦
        let p' : get_elem? (ms ++ (cut ip msg ∷ [])) i ≡ some (cut ip msg) =
          rw s (get_elem?-append_end ms (cut ip msg)) in
        let last : (q.q_head + i) % queue_size ≡ q.q_tail = omega (arith, h.tail_at, h.counted) in
        let r' : get_elem? (set q.queue q.q_tail (filled e ip msg)) (slot q i)
            ≡ some (filled e ip msg) =
          rw last (
            get_elem?-set_self q.queue q.q_tail (filled e ip msg)
              (omega (arith, h.room, h.tail_at))) in
        cc (p, p', r, r', reads-filled)
    | no s ↦
        let lt : i < length ms = omega (
          arith,
          get_elem?-lt (ms ++ (cut ip msg ∷ [])) i m p,
          length-append ms (cut ip msg ∷ []),
        ) in
        let ne : q.q_tail ≢ (q.q_head + i) % queue_size =
          omega (arith, h.tail_at, h.counted, h.head_in) in
        h.at i e' m (sym (get_elem?-append_lt ms (cut ip msg ∷ []) i lt) ∙ p)
          (sym (get_elem?-set_ne q.queue q.q_tail (slot q i) (filled e ip msg) ne) ∙ r)
  ]

  store-Holds : Holds (store q ip msg e) (ms ++ (cut ip msg ∷ []))
  store-Holds = record {
    room = length-set q.queue q.q_tail (filled e ip msg) ∙ h.room;
    head_in = h.head_in;
    tail_at = omega (arith, h.tail_at);
    counted = omega (arith, h.counted, length-append ms (cut ip msg ∷ []));
    bounded = omega arith;
    entries = store-entries;
    at = store-at;
  }

-- `enqueue` stays inside its array. While fewer than 100 messages wait it adds the message at the
-- end, the address cut to 15 bytes and the text to 1023, and else it drops the message.
pub enqueue_refines :
    (ip msg : CString) (q : Queue) (ms : List Message)
    → Holds q ms
    → is_text ip ≡ true
    → is_text msg ≡ true
    → (q' : Queue) × (enqueue ip msg q ≡ some q') × Holds q' (pushed ip msg ms)
unfolding enqueue
enqueue_refines ip msg q ms h ip_text msg_text = elim (Bool-cases (ltb q.q_count queue_size)) [
  | inl free ↦
      let (e, here, is_entry) = h.entries q.q_tail (omega (arith, h.tail_at)) in
      let same : ltb (length ms) queue_size ≡ true = rw h.counted at free in
      (
        store q ip msg e,
        rw (free, here),
        rw same (
            store-Holds ip msg q ms h (ltb→lt q.q_count queue_size free) ip_text msg_text e here
              is_entry),
      )
  | inr full ↦
      let same : ltb (length ms) queue_size ≡ false = rw h.counted at full in
      (q, rw full, rw same h)
]

not_empty : (n : ℕ) → (suc n == 0) ≡ false
not_empty n = ground arith

-- The specification of `take_entry`.
abbrev pub Takes : List Message → Taken → Type 0
Takes [] r = r ≡ waits
Takes (m ∷ ms) r = (e : LogEntry) × (q' : Queue) × (r ≡ took e q') × (reads e ≡ m) × Holds q' ms

-- The collector stays inside the array. It waits if no message is there, and else takes the oldest
-- one, as it was stored, and leaves the others.
pub take_entry_refines : (q : Queue) (ms : List Message) → Holds q ms → Takes ms (take_entry q)
unfolding take_entry
take_entry_refines q [] h = let e : q.q_count ≡ 0 = h.counted in rw e
take_entry_refines q (m ∷ ms) h =
    let (e, here, is_entry) = h.entries q.q_head h.head_in in
    let some_left : (q.q_count == 0) ≡ false = rw h.counted (not_empty (length ms)) in
    let first : slot q 0 ≡ q.q_head = omega (arith, h.head_in) in
    (
      e,
      rest q,
      rw (some_left, here),
      h.at 0 e m refl (rw first here),
      record {
        room = h.room;
        head_in = omega arith;
        tail_at = omega (arith, h.tail_at, h.counted);
        counted = omega (arith, h.counted);
        bounded = omega (arith, h.bounded);
        entries = h.entries;
        at = λ i e' m' p r. h.at (suc i) e' m' p (rw (shift i) at r);
      },
    )
  where
    shift : (i : ℕ) → slot (rest q) i ≡ slot q (suc i)
    shift i = omega arith

initial-entries :
    (i : ℕ) → i < queue_size → (e : LogEntry) × (get_elem? initial.queue i ≡ some e) × IsEntry e
unfolding initial
initial-entries i lt = (_, get_elem?-replicate queue_size i _ lt, (refl, refl))

-- At the start the queue holds no message.
pub initial-Holds : Holds initial []
unfolding initial
initial-Holds = record {
  room = refl;
  head_in = omega arith;
  tail_at = refl;
  counted = refl;
  bounded = omega arith;
  entries = initial-entries;
  at = λ i e m p r. cc;
}
