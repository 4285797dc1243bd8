-- ===== src/Daemon/Streams.antt =====
-- The descriptors of the daemon.
use linux_systemprogramming.Common.{
  ℕ, zero, suc, ◌+◌, ◌≤◌, ◌<◌, ◌≡◌, refl, ap, ◌∙◌, Bool, true, false, Bool-cases, inl, inr, none,
  some, List, [], ◌∷◌, ◌++◌, if◌then◌else◌, ◌==◌, ltb, arith,
}
use linux_systemprogramming.Common.Text.{CString, codes}
use linux_systemprogramming.Daemon.Start.{
  logged, Table, set, Limit, child, Answers, Event, working, limit_of, close_all, lowest, open_file,
  dup, reopen, syslog, unless, daemon, main,
}

close_all_lem :
    (n : ℕ) (table : Table) (i : ℕ) → close_all n table i ≡ (if ltb i n then none else table i)
unfolding close_all
close_all_lem zero table i = ground arith
close_all_lem (suc n) table i = elim (Bool-cases (i == n)) [
  | inl e ↦ let below : ltb i (suc n) ≡ true = ground arith in rw (e, below) refl
  | inr e ↦
      let beside : ltb i (suc n) ≡ ltb i n = ground arith in
      rw (e, close_all_lem n table i, beside) refl
]

module _ (table : Table) where
  lowest_here : (n i : ℕ) → table i ≡ none → lowest (suc n) i table ≡ some i
  unfolding lowest
  lowest_here n i e = rw (lowest, e) refl

  lowest_next :
      (n i : ℕ) (file : CString)
      → table i ≡ some file
      → lowest (suc n) i table ≡ lowest n (suc i) table
  unfolding lowest
  lowest_next n i file e = rw (lowest, e) refl

  open_first :
      (soft : ℕ) (file : CString)
      → 3 ≤ soft
      → table 0 ≡ none
      → open_file soft true file table ≡ (some 0, set 0 (some file) table)
  unfolding open_file
  open_first zero file h e = absurd (omega arith)
  open_first (suc n) file h e = rw (lowest_here n 0 e) refl

  dup_second :
      (soft : ℕ) (file : CString)
      → 3 ≤ soft
      → table 0 ≡ some file
      → table 1 ≡ none
      → dup soft 0 table ≡ (some 1, set 1 (some file) table)
  unfolding dup open_file
  dup_second zero file h e f = absurd (omega arith)
  dup_second (suc zero) file h e f = absurd (omega arith)
  dup_second (suc (suc n)) file h e f =
      rw (dup, e, lowest_next (suc n) 0 file e, lowest_here n 1 f) refl

  dup_third :
      (soft : ℕ) (file : CString)
      → 3 ≤ soft
      → table 0 ≡ some file
      → table 1 ≡ some file
      → table 2 ≡ none
      → dup soft 0 table ≡ (some 2, set 2 (some file) table)
  unfolding dup open_file
  dup_third zero file h e f g = absurd (omega arith)
  dup_third (suc zero) file h e f g = absurd (omega arith)
  dup_third (suc (suc zero)) file h e f g = absurd (omega arith)
  dup_third (suc (suc (suc n))) file h e f g =
      rw
        (
          dup,
          e,
          lowest_next (suc (suc n)) 0 file e,
          lowest_next (suc n) 1 file f,
          lowest_here n 2 g,
        )
        refl

abbrev null : CString
null = codes "/dev/null"

reopen_lem :
    (soft : ℕ) (table : Table)
    → 3 ≤ soft
    → table 0 ≡ none
    → table 1 ≡ none
    → table 2 ≡ none
    → reopen soft true table
      ≡ ((some 0, some 1, some 2), set 2 (some null) (set 1 (some null) (set 0 (some null) table)))
unfolding reopen
reopen_lem soft table s e f g =
    rw
      (
        open_first table soft null s e,
        dup_second (set 0 (some null) table) soft null s refl f,
        dup_third (set 1 (some null) (set 0 (some null) table)) soft null s refl refl g,
      )
      refl

abbrev streams : Table → Table
streams table = set 2 (some null) (set 1 (some null) (set 0 (some null) table))

closed_below : (n : ℕ) (table : Table) (i : ℕ) → i < n → close_all n table i ≡ none
closed_below n table i h =
    let e : ltb i n ≡ true = ground arith in close_all_lem n table i ∙ rw e refl

abbrev told_by : List Event → Answers → List Event
told_by told a =
    (told
      ++ unless a.ignores (codes "sigaction() : Can't ignore SIGHUP")
      ++ unless a.enters_root (codes "cd()"))
    ++ logged (codes "Daemon Process") ∷ []

-- The log's socket, behind the three streams.
abbrev with_log : Bool → Table → Table
with_log b table = if b then set 3 (some (codes "/dev/log")) table else table

syslog_lem :
    (soft : ℕ) (has_log : Bool) (table : Table)
    → 4 ≤ soft
    → table 3 ≡ none
    → syslog soft has_log (streams table) ≡ with_log has_log (streams table)
unfolding syslog open_file
syslog_lem soft false table h e = refl
syslog_lem zero true table h e = absurd (omega arith)
syslog_lem (suc zero) true table h e = absurd (omega arith)
syslog_lem (suc (suc zero)) true table h e = absurd (omega arith)
syslog_lem (suc (suc (suc zero))) true table h e = absurd (omega arith)
syslog_lem (suc (suc (suc (suc n)))) true table h e =
    let t = streams table in
    let free : lowest (suc (suc (suc (suc n)))) 0 t ≡ some 3 =
      lowest_next t (suc (suc (suc n))) 0 null refl
      ∙ lowest_next t (suc (suc n)) 1 null refl
      ∙ lowest_next t (suc n) 2 null refl
      ∙ lowest_here t n 3 e in
    rw free refl

daemon_lem :
    (m : Limit) (told : List Event) (a : Answers) (table : Table)
    → a.has_dev_null ≡ true
    → 4 ≤ a.soft
    → 4 ≤ limit_of m
    → daemon m told a table
      ≡ working (told_by told a) (with_log a.has_log (streams (close_all (limit_of m) table)))
unfolding daemon
daemon_lem m told a table d s l =
    let closed = close_all (limit_of m) table in
    let e : reopen a.soft a.has_dev_null closed ≡ ((some 0, some 1, some 2), streams closed) =
      ap (λ b. reopen a.soft b closed) d
      ∙ reopen_lem a.soft closed (omega arith) (closed_below (limit_of m) table 0 (omega arith))
          (closed_below (limit_of m) table 1 (omega arith))
          (closed_below (limit_of m) table 2 (omega arith)) in
    rw (e, syslog_lem a.soft a.has_log closed s (closed_below (limit_of m) table 3 (omega arith)))
      refl

with_log_at :
    (b : Bool) (table : Table)
    → table 3 ≡ none
    → with_log b (streams table) 3 ≡ (if b then some (codes "/dev/log") else none)
with_log_at true table e = refl
with_log_at false table e = e

with_log_behind :
    (b : Bool) (table : Table) (i : ℕ) → with_log b (streams table) (i + 4) ≡ table (i + 4)
with_log_behind b table i =
    let zeroth : (i + 4 == 0) ≡ false = ground arith in
    let first : (i + 4 == 1) ≡ false = ground arith in
    let second : (i + 4 == 2) ≡ false = ground arith in
    let third : (i + 4 == 3) ≡ false = ground arith in
    let same : streams table (i + 4) ≡ table (i + 4) = rw (zeroth, first, second) refl in
    elim b as (λ b. with_log b (streams table) (i + 4) ≡ table (i + 4)) [
      | true ↦ rw third same
      | false ↦ same
    ]

with_log_low :
    (b : Bool) (table : Table)
    → (with_log b (streams table) 0 ≡ some null)
      × (with_log b (streams table) 1 ≡ some null)
      × (with_log b (streams table) 2 ≡ some null)
with_log_low true table = (refl, refl, refl)
with_log_low false table = (refl, refl, refl)

-- The daemon that is started with an argument, in the child of fork, with a hard and a soft limit
-- of four descriptors or more, where getrlimit succeeds and /dev/null opens, never finds its
-- descriptors unexpected: it goes on with 0, 1 and 2 on /dev/null, with 3 on the socket of the log if
-- that can be made and connected, all others below the hard limit closed, and those from it on as they
-- were.
pub main_streams :
    (command : CString) (args : List CString) (a : Answers) (m : Limit) (table : Table)
    → a.fork ≡ child
    → a.max ≡ some m
    → a.has_dev_null ≡ true
    → 4 ≤ a.soft
    → 4 ≤ limit_of m
    → (told : List Event) × (final : Table) × (main (command ∷ args) a table ≡ working told final)
      × (final 0 ≡ some (codes "/dev/null"))
      × (final 1 ≡ some (codes "/dev/null"))
      × (final 2 ≡ some (codes "/dev/null"))
      × (final 3 ≡ (if a.has_log then some (codes "/dev/log") else none))
      × ((i : ℕ) → final (i + 4) ≡ (if ltb (i + 4) (limit_of m) then none else table (i + 4)))
unfolding main daemon
main_streams command args a m table f x d s l =
    let closed = close_all (limit_of m) table in
    let (zeroth, first, second) = with_log_low a.has_log closed in
    rw (f, x)
      (
        told_by [] a,
        with_log a.has_log (streams closed),
        daemon_lem m [] a table d s l,
        zeroth,
        first,
        second,
        with_log_at a.has_log closed (closed_below (limit_of m) table 3 (omega arith)),
        λ i. with_log_behind a.has_log closed i ∙ close_all_lem (limit_of m) table (i + 4),
      )
