-- ===== src/Daemon/Tests.antt =====
-- The daemon with open descriptors 0 to 5 and 1030.
use linux_systemprogramming.Common.{
  ℕ, ◌+◌, ◌≡◌, refl, true, none, some, List, [], ◌∷◌, if◌then◌else◌, ◌==◌, ltb, ◌||◌, arith,
}
use linux_systemprogramming.Common.Text.{codes}
use linux_systemprogramming.Daemon.Start.{
  Table, at_most, child, fork_failed, Answers, Event, working, limit_of, main, daemon, reopen,
  open_file, dup, lowest, close_all, syslog,
}
use linux_systemprogramming.Daemon.Streams.{main_streams}

abbrev before : Table
before i = if ltb i 6 || i == 1030 then some (codes "tty") else none

abbrev usual : Answers
usual = record {
  max = some (at_most 1024);
  stale_max = at_most 0;
  soft = 1024;
  fork = child;
  ignores = true;
  enters_root = true;
  has_dev_null = true;
  has_log = true;
}

main_streams_example :
    (told : List Event) × (final : Table) × (main (codes "top" ∷ []) usual before
      ≡ working told final)
    × (final 0 ≡ some (codes "/dev/null"))
    × (final 1 ≡ some (codes "/dev/null"))
    × (final 2 ≡ some (codes "/dev/null"))
    × (final 3 ≡ some (codes "/dev/log"))
    × ((i : ℕ)
        → final (i + 4) ≡ (if ltb (i + 4) (limit_of (at_most 1024)) then none else before (i + 4)))
main_streams_example =
    main_streams (codes "top") [] usual (at_most 1024) before refl refl refl (omega arith)
      (omega arith)

-- After a failed fork the program goes on all the same.
fork_failed_text :
    (told : List Event) × (final : Table) × (main
        (codes "top" ∷ [])
        (record usual { fork = fork_failed; max = some (at_most 6) })
        before
      ≡ working told final)
unfolding main daemon reopen open_file dup lowest close_all syslog
fork_failed_text = (_, _, refl)
