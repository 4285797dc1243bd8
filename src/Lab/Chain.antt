-- ===== src/Lab/Chain.antt =====
-- `is_executable` of lab/isexecutable.c: the loop at `chain_loop` over the operators of a line, and
-- the clean-up at `error_exit`. The local variables are a record, and a pointer into the argument
-- array is an index.
pub mod Rounds
pub mod Total
pub mod Owing
pub mod Balance
use linux_systemprogramming.Common.{
  ℕ, zero, suc, ◌+◌, ◌/◌, ◌%◌, Bool, true, false, not, ◌&&◌, Option, none, some, List, [], ◌∷◌,
  ◌++◌, ◌==◌, ltb, length, get_elem?, drop, if◌then◌else◌,
}
use linux_systemprogramming.Common.Text.{CString, codes}
use linux_systemprogramming.Posix.{
  Os, Io, pure, crash, ◌>>=◌, ◌>>◌, emit, printed_num, deref, perror, close, close_if_open, pipe,
  open_file, waitpid, OpenMode, read_only, write_create_truncate,
}
use linux_systemprogramming.Lab.Parsing.{Args}
use linux_systemprogramming.Lab.OpType.{
  OpType, op_none, op_pipe, op_out, op_in, op_and, op_background, Found, get_op_type,
}
use linux_systemprogramming.Lab.Execute.{execute}

pub record Chain : Type 0 where
  pub args : Args
  pub cmd_arglist : ℕ
  pub curr_ptr : ℕ
  pub fd_in : Option ℕ
  pub fd_out : Option ℕ
  -- `pids[0 .. pid_count)`
  pub pids : List ℕ
  pub background : Bool

-- `goto chain_loop`, or `goto error_exit` and `break`.
pub data Flow : Type 0 where
  again : Chain → Flow
  leave : Chain → Flow

abbrev pub max_pids : ℕ
max_pids = 1024

-- `pid > 0`
abbrev pub is_child : Option ℕ → Bool
is_child none = false
is_child (some pid) = ltb 0 pid

-- `if (pid > 0) pids[pid_count++] = pid;`, where a write past the array is a crash.
abbrev pub push_pid : List ℕ → Option ℕ → Io (List ℕ)
push_pid pids none = pure pids
push_pid pids (some pid) =
    if ltb 0 pid
    then (if ltb (length pids) max_pids then pure (pids ++ (pid ∷ [])) else crash)
    else pure pids

-- `if (fd_out != -1) close(pipefd[1]); else fd_out = pipefd[1];`
abbrev pub pipe_out : Option ℕ → ℕ → Io (Option ℕ)
pipe_out none w = pure (some w)
pipe_out (some fd) w = do close w; pure (some fd)

-- The printf of `&`.
abbrev pub announce : Option ℕ → Io (Unit {0})
announce none = pure tt
announce (some pid) = if ltb 0 pid then emit (printed_num (codes "[background] ") pid) else pure tt

-- The local variables as they are declared.
abbrev pub entry : Args → Chain
entry arglist = record {
  args = arglist;
  cmd_arglist = 0;
  curr_ptr = 0;
  fd_in = none;
  fd_out = none;
  pids = [];
  background = false;
}

-- WIFEXITED(status) && WEXITSTATUS(status) != 0
abbrev pub exited_badly : ℕ → Bool
exited_badly status = status % 128 == 0 && not (status / 256 % 256 == 0)

module _ (os : Os) where
  -- `for (…) waitpid(pids[i], NULL, 0);`
  unfoldable pub wait_all : List ℕ → Io (Unit {0})
  wait_all [] = pure tt
  wait_all (pid ∷ pids) = do waitpid os pid; wait_all pids

  -- The waiting loop of `&&`, on `status` and `last_status`. A waitpid that fails leaves `status`.
  unfoldable pub wait_status : Option ℕ → List ℕ → ℕ → ℕ → Io ℕ
  wait_status and_pid [] status last_status = pure last_status
  wait_status and_pid (pid ∷ pids) status last_status = do
    got ← waitpid os pid
    let status' : ℕ = elim got [ none ↦ status | some s ↦ s ]
    let mine : Bool = elim and_pid [ none ↦ false | some p ↦ pid == p ]
    wait_status and_pid pids status' (if mine then status' else last_status)

  unfoldable pub step_none : Chain → Io Flow
  step_none c = do
    pid ← execute os (drop c.cmd_arglist c.args) c.fd_in c.fd_out
    pids ← push_pid c.pids pid
    pure (leave (record c { fd_in = none; fd_out = none; pids = pids }))

  -- behind pipe(2), with its two ends
  unfoldable pub pipe_stage : Chain → ℕ → ℕ → ℕ → Io Flow
  pipe_stage c end r w = do
    fd_out ← pipe_out c.fd_out w
    p_pid ← execute os (drop c.cmd_arglist c.args) c.fd_in fd_out
    if is_child p_pid
        then (do
          pids ← push_pid c.pids p_pid
          pure (
              again (record c {
                cmd_arglist = end + 1;
                curr_ptr = end + 1;
                fd_in = some r;
                fd_out = none;
                pids = pids;
              })))
        else (do close r; pure (leave (record c { fd_in = none; fd_out = none })))

  unfoldable pub step_pipe : Chain → ℕ → Io Flow
  unfolding pipe_stage
  step_pipe c end = do
    pipefd ← pipe os
    elim pipefd [
      | none ↦ (do perror (codes "pipe"); pure (leave c))
      | some (r, w) ↦ pipe_stage c end r w
    ]

  unfoldable pub step_out : Chain → ℕ → Io Flow
  step_out c end = do
    file ← deref (get_elem? c.args (end + 1))
    elim file [
      | none ↦ (do perror (codes "minishell: syntax error near '>'\n"); pure (leave c))
      | some path ↦ (do
        close_if_open c.fd_out
        fd ← open_file os path write_create_truncate
        elim fd [
          | none ↦ (do perror path; pure (leave (record c { fd_out = none })))
          | some n ↦ pure (again (record c { fd_out = some n; curr_ptr = end + 2 }))
        ])
    ]

  unfoldable pub step_in : Chain → ℕ → Io Flow
  step_in c end = do
    file ← deref (get_elem? c.args (end + 1))
    elim file [
      | none ↦ (do perror (codes "minishell: syntax error near '<'\n"); pure (leave c))
      | some path ↦ (do
        close_if_open c.fd_in
        fd ← open_file os path read_only
        elim fd [
          | none ↦ (do perror path; pure (leave (record c { fd_in = none })))
          | some n ↦ pure (again (record c { fd_in = some n; curr_ptr = end + 2 }))
        ])
    ]

  unfoldable pub step_and : Chain → ℕ → Io Flow
  unfolding wait_status
  step_and c end = do
    and_pid ← execute os (drop c.cmd_arglist c.args) c.fd_in c.fd_out
    pids ← push_pid c.pids and_pid
    last_status ← wait_status and_pid pids os.stale_int 0
    let c' = record c { fd_in = none; fd_out = none; pids = [] }
    pure (
        if exited_badly last_status
        then leave c'
        else again (record c' { cmd_arglist = end + 1; curr_ptr = end + 1 }))

  unfoldable pub step_background : Chain → Io Flow
  step_background c = do
    bg_pid ← execute os (drop c.cmd_arglist c.args) c.fd_in c.fd_out
    pids ← push_pid c.pids bg_pid
    announce bg_pid
    pure (leave (record c { fd_in = none; fd_out = none; pids = pids; background = true }))

  -- the `switch`, on the array that `get_op_type` has written
  unfoldable pub dispatch : OpType → ℕ → Chain → Io Flow
  unfolding step_none step_pipe step_out step_in step_and step_background
  dispatch op_none end c = step_none c
  dispatch op_pipe end c = step_pipe c end
  dispatch op_out end c = step_out c end
  dispatch op_in end c = step_in c end
  dispatch op_and end c = step_and c end
  dispatch op_background end c = step_background c

  unfoldable pub chain_step : Chain → Io Flow
  unfolding get_op_type dispatch
  chain_step c = do
    (nxt_op, end, args) ← deref (get_op_type c.args c.curr_ptr)
    dispatch nxt_op end (record c { args = args })

  -- The fuel is the number of cells: every round moves `curr_ptr` on.
  unfoldable pub chain_loop : ℕ → Chain → Io Chain
  chain_loop zero c = crash
  chain_loop (suc fuel) c = do
    flow ← chain_step c
    elim flow [ again c' ↦ chain_loop fuel c' | leave c' ↦ pure c' ]

  -- from the label `error_exit` on; the result is the array as the caller finds it
  unfoldable pub error_exit : Chain → Io Args
  error_exit c = do
    (if c.background then pure tt else wait_all c.pids)
    close_if_open c.fd_in
    close_if_open c.fd_out
    pure c.args

  unfoldable pub is_executable : Args → Io Args
  unfolding chain_loop chain_step error_exit wait_all
  is_executable arglist = do c ← chain_loop (length arglist) (entry arglist); error_exit c
