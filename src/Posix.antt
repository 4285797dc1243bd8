-- ===== src/Posix.antt =====
-- The system calls of the programs. The kernel is a parameter: a record of functions that give
-- each reply from all that has happened before, so that any kernel, other processes and signals
-- included, is an instance. What happened is a trace, newest event first; a call adds its event.
pub mod Count
use linux_systemprogramming.Common.{ℕ, ◌≡◌, ◌≢◌, refl, Bool, Option, none, some, List, [], ◌∷◌}
use linux_systemprogramming.Common.Text.{CString}

-- The flags that the programs give to open(2).
pub data OpenMode : Type 0 where
  read_only : OpenMode
  write_create_truncate : OpenMode

pub data Event : Type 0 where
  piped : Option (ℕ × ℕ) → Event
  opened : CString → OpenMode → Option ℕ → Event
  duped : ℕ → Option ℕ → Event
  dup2ed : ℕ → ℕ → Bool → Event
  closed : ℕ → Event
  -- fork(2) in the parent, with the argv that the child passes to execvp
  forked : List CString → Option ℕ → Event
  waited : ℕ → Option ℕ → Event
  reaped : Option ℕ → Event
  changed_dir : Option CString → Bool → Event
  -- what goes to stdout and stderr; the number is that of a `%d`
  printed : CString → Event
  printed_num : CString → ℕ → Event
  complained : CString → Event
  flushed : Event
  exited : ℕ → Event
  aborted : Event

abbrev pub Trace : Type 0
Trace = List Event

-- `none` is the error return. `reap` is waitpid(-1, NULL, WNOHANG): see Lab/ChildHandler.antt.
pub data Reaping : Type 0 where
  nothing_yet : Reaping
  no_children : Reaping
  failed : Reaping
  child : ℕ → Reaping

pub record Os : Type 0 where
  pub pipe : Trace → Option (ℕ × ℕ)
  pub open_file : Trace → CString → OpenMode → Option ℕ
  pub dup : Trace → ℕ → Option ℕ
  pub dup2 : Trace → ℕ → ℕ → Bool
  pub fork : Trace → Option ℕ
  pub waitpid : Trace → ℕ → Option ℕ
  pub reap : Trace → Reaping
  pub chdir : Trace → Option CString → Bool
  pub home : Trace → Option CString
  pub nodename : Trace → Option CString
  pub getcwd : Trace → Option CString
  -- what an uninitialised `int` holds, and the text in the array that the program gives to getcwd
  -- before the call, or `none` if no byte of the array is NUL
  pub stale_int : ℕ
  pub stale_text : Option CString

-- `none` is an access out of bounds or through NULL.
abbrev pub Io : Type 0 → Type 0
Io A = Trace → Option (A × Trace)

abbrev pub pure : {A : Type 0} → A → Io A
pure a t = some (a, t)

abbrev pub crash : {A : Type 0} → Io A
crash t = none

infixl 5 ◌>>=◌ ◌>>◌
abbrev pub ◌>>=◌ : {A B : Type 0} → Io A → (A → Io B) → Io B
◌>>=◌ m f t = elim (m t) [ none ↦ none | some (a, t') ↦ f a t' ]

abbrev pub ◌>>◌ : {A B : Type 0} → Io A → Io B → Io B
m >> k = m >>= λ _. k

abbrev pub emit : Event → Io (Unit {0})
emit e t = some (tt, e ∷ t)

-- A read through a pointer that may leave its array.
abbrev pub deref : {A : Type 0} → Option A → Io A
deref none t = none
deref (some a) t = some (a, t)

abbrev pub print : CString → Io (Unit {0})
print s = emit (printed s)

abbrev pub perror : CString → Io (Unit {0})
perror s = emit (complained s)

abbrev pub close : ℕ → Io (Unit {0})
close fd = emit (closed fd)

-- `if (fd != -1) close(fd);`
abbrev pub close_if_open : Option ℕ → Io (Unit {0})
close_if_open none = pure tt
close_if_open (some fd) = close fd

module _ (os : Os) where
  abbrev pub pipe : Io (Option (ℕ × ℕ))
  pipe t = some (os.pipe t, piped (os.pipe t) ∷ t)

  abbrev pub open_file : CString → OpenMode → Io (Option ℕ)
  open_file path m t = some (os.open_file t path m, opened path m (os.open_file t path m) ∷ t)

  abbrev pub dup : ℕ → Io (Option ℕ)
  dup fd t = some (os.dup t fd, duped fd (os.dup t fd) ∷ t)

  abbrev pub dup2 : ℕ → ℕ → Io Bool
  dup2 old new t = some (os.dup2 t old new, dup2ed old new (os.dup2 t old new) ∷ t)

  -- fork, where the child calls execvp with `argv` and exits if that fails
  abbrev pub fork_exec : List CString → Io (Option ℕ)
  fork_exec argv t = some (os.fork t, forked argv (os.fork t) ∷ t)

  abbrev pub waitpid : ℕ → Io (Option ℕ)
  waitpid pid t = some (os.waitpid t pid, waited pid (os.waitpid t pid) ∷ t)

  abbrev pub chdir : Option CString → Io Bool
  chdir dir t = some (os.chdir t dir, changed_dir dir (os.chdir t dir) ∷ t)

  abbrev pub home : Io (Option CString)
  home t = some (os.home t, t)

  abbrev pub nodename : Io (Option CString)
  nodename t = some (os.nodename t, t)

  abbrev pub getcwd : Io (Option CString)
  getcwd t = some (os.getcwd t, t)

-- Behind every getcwd, a failed one included, the array given to it holds a NUL.
abbrev pub HoldsText : Os → Type 0
HoldsText os = (t : Trace) → (os.getcwd t ≡ none) → os.stale_text ≢ none

-- Total correctness of a run: no crash, and a condition on the result and the trace.
module _ {A : Type 0} (P : A → Trace → Type 0) where
  abbrev pub Returns : Option (A × Trace) → Type 0
  Returns none = ⊥
  Returns (some (a, t)) = P a t

  pub Returns-some :
      (o : Option (A × Trace)) → Returns o → (a : A) × (t : Trace) × (o ≡ some (a, t)) × P a t
  Returns-some none h = absurd h
  Returns-some (some (a, t)) h = (a, t, refl, h)

-- The rule for one call and what follows it.
pub Returns-bind :
    {A B : Type 0} (P : A → Trace → Type 0) (Q : B → Trace → Type 0) (m : Io A) (f : A → Io B)
    (t : Trace)
    → Returns P (m t)
    → ((a : A) (t' : Trace) → P a t' → Returns Q (f a t'))
    → Returns Q ((m >>= f) t)
Returns-bind {A} P Q m f t h next = go (m t) h
  where
    go :
        (o : Option (A × Trace))
        → Returns P o
        → Returns Q (elim o [ none ↦ none | some (a, t') ↦ f a t' ])
    go none bad = bad
    go (some (a, t')) good = next a t' good

-- The same for a run that may crash: what holds of it if it does not.
abbrev pub Ensures : {A : Type 0} → (A → Trace → Type 0) → Option (A × Trace) → Type 0
Ensures P none = Unit
Ensures P (some (a, t)) = P a t

pub Returns-and :
    {A : Type 0} (P Q : A → Trace → Type 0) (o : Option (A × Trace))
    → Returns P o
    → Ensures Q o
    → Returns (λ a t. P a t × Q a t) o
Returns-and P Q none h k = h
Returns-and P Q (some (a, t)) h k = (h, k)
