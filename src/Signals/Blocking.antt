-- ===== src/Signals/Blocking.antt =====
-- ch06/ex01.c, ch06-2/ex02.c, ch06-2/ex03.c and ch06-2/ex04.c block signals. A signal is its number.
-- SIGKILL and SIGSTOP, which no mask blocks, are not among those that arrive.
pub mod Arrivals
mod Tests
use linux_systemprogramming.Common.{
  ℕ, zero, suc, ◌+◌, ◌≡◌, Bool, true, false, not, ◌&&◌, ◌||◌, Option, none, some, List, [], ◌∷◌,
  ◌++◌, if◌then◌else◌, ◌==◌,
}
use linux_systemprogramming.Common.Text.{CString, codes}

abbrev pub sigint : ℕ
sigint = 2

abbrev pub sigquit : ℕ
sigquit = 3

abbrev pub sigusr1 : ℕ
sigusr1 = 10

abbrev pub sigusr2 : ℕ
sigusr2 = 12

-- sigset_t and its functions.
abbrev pub SignalSet : Type 0
SignalSet = ℕ → Bool

abbrev pub sigfillset : SignalSet
sigfillset s = true

abbrev pub sigemptyset : SignalSet
sigemptyset s = false

abbrev pub sigaddset : SignalSet → ℕ → SignalSet
sigaddset set n s = (s == n) || set s

abbrev pub sigdelset : SignalSet → ℕ → SignalSet
sigdelset set n s = not (s == n) && set s

-- A process that handles no signal: what it blocks, what is pending, and the signal that has ended it.
pub record Process : Type 0 where
  pub mask : SignalSet
  pub pending : SignalSet
  pub killed_by : Option ℕ

abbrev pub is_alive : Process → Bool
is_alive p = elim p.killed_by [ none ↦ true | some s ↦ false ]

-- A signal arrives: a blocked one becomes pending, another one ends the process.
unfoldable pub arrive : ℕ → Process → Process
arrive s p =
    if is_alive p
    then if p.mask s
      then record p { pending = sigaddset p.pending s }
      else record p { killed_by = some s }
    else p

unfoldable pub arrivals : List ℕ → Process → Process
unfolding arrive
arrivals [] p = p
arrivals (s ∷ ss) p = arrivals ss (arrive s p)

-- A process with an empty mask, as main starts.
abbrev pub fresh : Process
fresh = record { mask = sigemptyset; pending = sigemptyset; killed_by = none }

-- ch06/ex01.c: a mask, and `while(1)` with the signals that arrive.
unfoldable pub spin : List ℕ → Process
unfolding arrivals
spin ss = arrivals ss (record fresh { mask = sigdelset (sigdelset sigfillset sigint) sigquit })

-- `sigprocmask(SIG_UNBLOCK, &set2, NULL)` of SIGINT: a pending one ends the process.
unfoldable pub unblock_int : Process → Process
unblock_int p =
    if is_alive p && p.pending sigint
    then record p { mask = sigdelset p.mask sigint; killed_by = some sigint }
    else record p { mask = sigdelset p.mask sigint }

-- ch06-2/ex02.c: the signals that arrive in `sleep(5)`, and those in the loop behind it.
unfoldable pub hello : List ℕ → List ℕ → Process
unfolding arrivals unblock_int
hello early late = arrivals late (unblock_int (arrivals early (record fresh { mask = sigfillset })))

-- ch06-2/ex03.c: what is printed for the signals that arrive in the ten seconds.
abbrev pub named : SignalSet → ℕ → CString → List CString
named set s name = if set s then name ∷ [] else []

abbrev pub all_named : SignalSet → List CString
all_named set =
    named set sigint (codes "SIGINT\n")
    ++ named set sigquit (codes "SIGQUIT\n")
    ++ named set sigusr1 (codes "SIGUSR1.\n")
    ++ named set sigusr2 (codes "SIGUSR2.\n")

unfoldable pub pending_names : List ℕ → List CString
unfolding arrivals
pending_names ss = all_named (arrivals ss (record fresh { mask = sigfillset })).pending

-- ch06-2/ex04.c: the signals that arrive in sigsuspend. It comes back only behind a handler, of which
-- there is none.
unfoldable pub suspend : List ℕ → Process
unfolding arrivals
suspend ss = arrivals ss (record fresh { mask = sigdelset sigfillset sigint })
