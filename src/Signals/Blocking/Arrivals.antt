-- ===== src/Signals/Blocking/Arrivals.antt =====
-- Which signals end the programs of Signals/Blocking, and which are pending.
use linux_systemprogramming.Common.{
  ℕ, ◌≡◌, refl, sym, ap, ◌∙◌, Bool, true, false, not, ◌||◌, Option, none, some, List, [], ◌∷◌, ◌++◌,
  if◌then◌else◌, ◌==◌, Bool-cases, inl, inr, arith,
}
use linux_systemprogramming.Signals.Blocking.{
  sigint, sigquit, SignalSet, sigfillset, sigemptyset, sigaddset, sigdelset, Process, is_alive,
  arrive, arrivals, fresh, spin, unblock_int, hello, all_named, pending_names, suspend,
}

abbrev pub is_among : ℕ → List ℕ → Bool
is_among n [] = false
is_among n (s ∷ ss) = (n == s) || is_among n ss

abbrev pub find : (ℕ → Bool) → List ℕ → Option ℕ
find f [] = none
find f (s ∷ ss) = let rest = find f ss in if f s then some s else rest

find_cong : (f g : ℕ → Bool) (ss : List ℕ) → ((s : ℕ) → f s ≡ g s) → find f ss ≡ find g ss
find_cong f g [] h = refl
find_cong f g (s ∷ ss) h = rw (h s, find_cong f g ss h) refl

arrivals_dead : (ss : List ℕ) (p : Process) → is_alive p ≡ false → arrivals ss p ≡ p
unfolding arrivals arrive
arrivals_dead [] p h = refl
arrivals_dead (s ∷ ss) p h = ap (arrivals ss) (ground arith) ∙ arrivals_dead ss p h

-- A process that nothing has ended.
abbrev pub living : SignalSet → SignalSet → Process
living mask pending = record { mask = mask; pending = pending; killed_by = none }

module _ (mask pending : SignalSet) (s : ℕ) where
  arrive_blocked :
      mask s ≡ true → arrive s (living mask pending) ≡ living mask (sigaddset pending s)
  unfolding arrive
  arrive_blocked h = rw h refl

  arrive_through :
      mask s ≡ false
      → arrive s (living mask pending) ≡ record (living mask pending) { killed_by = some s }
  unfolding arrive
  arrive_through h = rw h refl

-- A process is ended by the first signal that its mask lets through.
arrivals_killed :
    (ss : List ℕ) (mask pending : SignalSet)
    → (arrivals ss (living mask pending)).killed_by ≡ find (λ s. not (mask s)) ss
unfolding arrivals
arrivals_killed [] mask pending = refl
arrivals_killed (s ∷ ss) mask pending = elim (Bool-cases (mask s)) [
  | inl e ↦
      ap (λ p. (arrivals ss p).killed_by) (arrive_blocked mask pending s e)
      ∙ rw e (arrivals_killed ss mask (sigaddset pending s))
  | inr e ↦
      ap (λ p. (arrivals ss p).killed_by) (arrive_through mask pending s e)
      ∙ rw e (ap (λ p. p.killed_by) (arrivals_dead ss _ refl))
]

-- With all signals blocked, those that have arrived are pending.
arrivals_pending :
    (ss : List ℕ) (pending : SignalSet) (n : ℕ)
    → (arrivals ss (living sigfillset pending)).pending n ≡ (is_among n ss || pending n)
unfolding arrivals arrive
arrivals_pending [] pending n = refl
arrivals_pending (s ∷ ss) pending n = ground (arith, arrivals_pending ss (sigaddset pending s) n)

arrivals-living :
    (ss : List ℕ) (pending : SignalSet)
    → (set : SignalSet) × (arrivals ss (living sigfillset pending) ≡ living sigfillset set)
unfolding arrivals arrive
arrivals-living [] pending = (pending, refl)
arrivals-living (s ∷ ss) pending = arrivals-living ss (sigaddset pending s)

find-among :
    (n : ℕ) (ss : List ℕ) → find (λ s. s == n) ss ≡ (if is_among n ss then some n else none)
find-among n [] = refl
find-among n (s ∷ ss) = ground (arith, find-among n ss)

find-append :
    (f : ℕ → Bool) (ss ts : List ℕ)
    → find f (ss ++ ts) ≡ elim (find f ss) [ some s ↦ some s | none ↦ find f ts ]
find-append f [] ts = refl
find-append f (s ∷ ss) ts = elim (Bool-cases (f s)) [
  | inl e ↦ rw e refl
  | inr e ↦ rw e (find-append f ss ts)
]

abbrev no_int : SignalSet
no_int = sigdelset sigfillset sigint

abbrev no_quit : SignalSet
no_quit = sigdelset no_int sigquit

through_int : (ss : List ℕ) → find (λ s. not (no_int s)) ss ≡ find (λ s. s == sigint) ss
through_int ss = find_cong (λ s. not (no_int s)) (λ s. s == sigint) ss (λ s. ground arith)

-- A pending SIGINT ends the program when it is unblocked, otherwise a later one does.
unblock_killed :
    (late : List ℕ) (set : SignalSet)
    → (arrivals late (unblock_int (living sigfillset set))).killed_by
      ≡ (if set sigint then some sigint else find (λ s. s == sigint) late)
unfolding unblock_int
unblock_killed late set = elim (Bool-cases (set sigint)) [
  | inl e ↦ rw (unblock_int, e) (ap (λ p. p.killed_by) (arrivals_dead late _ refl))
  | inr e ↦ rw (unblock_int, e) (arrivals_killed late no_int set ∙ through_int late)
]

find_int :
    (early late : List ℕ)
    → find (λ s. s == sigint) (early ++ late)
      ≡ (if is_among sigint early || false then some sigint else find (λ s. s == sigint) late)
find_int early late =
    find-append (λ s. s == sigint) early late
    ∙ ap or_later (find-among sigint early)
    ∙ go (is_among sigint early)
  where
    or_later : Option ℕ → Option ℕ
    or_later o = elim o [ some s ↦ some s | none ↦ find (λ s. s == sigint) late ]

    go :
        (b : Bool)
        → or_later (if b then some sigint else none)
          ≡ (if b || false then some sigint else find (λ s. s == sigint) late)
    go true = refl
    go false = refl

-- SIGKILL and SIGSTOP aside: in `sigsuspend` and with the mask of ch06/ex01.c the first SIGINT, or SIGINT or SIGQUIT, ends the
-- program, and nothing else; while all signals are blocked none does, but SIGINT ends it as soon as it is
-- unblocked, and later.
pub programs_killed :
    (early late : List ℕ)
    → ((spin early).killed_by ≡ find (λ s. (s == sigint) || (s == sigquit)) early)
      × ((suspend early).killed_by ≡ find (λ s. s == sigint) early)
      × ((hello early late).killed_by ≡ find (λ s. s == sigint) (early ++ late))
unfolding spin suspend hello unblock_int
programs_killed early late = (
  arrivals_killed early no_quit sigemptyset
      ∙ find_cong (λ s. not (no_quit s)) (λ s. (s == sigint) || (s == sigquit)) early
          (λ s. ground arith),
  arrivals_killed early no_int sigemptyset ∙ through_int early,
  hello_killed,
)
  where
    hello_killed : (hello early late).killed_by ≡ find (λ s. s == sigint) (early ++ late)
    hello_killed =
        let (set, e) = arrivals-living early sigemptyset in
        let at_int : set sigint ≡ (is_among sigint early || false) =
          sym (ap (λ p. p.pending sigint) e) ∙ arrivals_pending early sigemptyset sigint in
        ap (λ p. (arrivals late (unblock_int p)).killed_by) e
        ∙ unblock_killed late set
        ∙ ap (λ b. if b then some sigint else find (λ s. s == sigint) late) at_int
        ∙ sym (find_int early late)

-- ch06-2/ex03.c prints the names of those of its four signals that have arrived, once each, and no signal
-- ends it before.
pub pending_names-among :
    (ss : List ℕ)
    → (pending_names ss ≡ all_named (λ n. is_among n ss))
      × ((arrivals ss (record fresh { mask = sigfillset })).killed_by ≡ none)
unfolding pending_names
pending_names-among ss =
    let set : SignalSet = (arrivals ss (living sigfillset sigemptyset)).pending in
    let same : (n : ℕ) → set n ≡ is_among n ss =
      λ n. arrivals_pending ss sigemptyset n ∙ or_false (is_among n ss) in
    (
      ap all_named (λ i n. same n i),
      let (_, e) = arrivals-living ss sigemptyset in ap (λ p. p.killed_by) e,
    )
  where
    or_false : (b : Bool) → (b || false) ≡ b
    or_false true = refl
    or_false false = refl
