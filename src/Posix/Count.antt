-- ===== src/Posix/Count.antt =====
-- What a trace says of one descriptor and of one process: how often the descriptor was handed out
-- and closed, and how often the process was started and waited for.
use linux_systemprogramming.Common.{ℕ, ◌+◌, Option, none, some, [], ◌∷◌, ◌==◌, if◌then◌else◌}
use linux_systemprogramming.Posix.{Event, Trace, piped, opened, duped, closed, forked, waited}

-- 1 where the two agree.
pub hit : ℕ → ℕ → ℕ
hit n m = if n == m then 1 else 0

abbrev pub held : ℕ → Option ℕ → ℕ
held n none = 0
held n (some fd) = hit n fd

abbrev pub event_opens : ℕ → Event → ℕ
event_opens n (piped (some (r, w))) = hit n r + hit n w
event_opens n (opened _ _ fd) = held n fd
event_opens n (duped _ fd) = held n fd
event_opens n _ = 0

abbrev pub event_closes : ℕ → Event → ℕ
event_closes n (closed fd) = hit n fd
event_closes n _ = 0

abbrev pub event_forks : ℕ → Event → ℕ
event_forks p (forked _ pid) = held p pid
event_forks p _ = 0

abbrev pub event_waits : ℕ → Event → ℕ
event_waits p (waited pid _) = hit p pid
event_waits p _ = 0

abbrev pub total : (Event → ℕ) → Trace → ℕ
total w [] = 0
total w (e ∷ t) = w e + total w t

-- how often pipe, open and dup returned `n`, and how often `n` was closed
abbrev pub opens : ℕ → Trace → ℕ
opens n = total (event_opens n)

abbrev pub closes : ℕ → Trace → ℕ
closes n = total (event_closes n)

-- how often fork returned `p`, and how often waitpid was called on `p`
abbrev pub forks : ℕ → Trace → ℕ
forks p = total (event_forks p)

abbrev pub waits : ℕ → Trace → ℕ
waits p = total (event_waits p)
