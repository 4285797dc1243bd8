-- ===== src/Lab/Chain/Rounds.antt =====
-- One round of the loop of `is_executable` of lab/isexecutable.c stays inside the argument array and
-- moves on, whatever the kernel answers.
use linux_systemprogramming.Common.{
  ℕ, ◌+◌, ◌≤◌, ◌<◌, ◌≡◌, ◌≢◌, refl, true, Option, none, some, List, [], ◌∷◌, ◌++◌, ltb, length,
  length-append, get_elem?, drop, arith, Option-cases, Bool-cases, inl, inr,
}
use linux_systemprogramming.Common.Text.{CString}
use linux_systemprogramming.Posix.{Os, HoldsText, Trace, Returns, Returns-some, piped}
use linux_systemprogramming.Lab.Parsing.{Args}
use linux_systemprogramming.Lab.OpType.{
  OpType, op_none, op_pipe, op_out, op_in, op_and, op_background,
}
use linux_systemprogramming.Lab.OpType.Bounds.{is_infix, get_op_type_bounds}
use linux_systemprogramming.Lab.Cells.{
  Terminated, IsFilled, get_elem?-ne-none, Terminated-drop, next_cell,
}
use linux_systemprogramming.Lab.Execute.{execute}
use linux_systemprogramming.Lab.Execute.Effect.{Executes, execute-Executes}
use linux_systemprogramming.Lab.Chain.{
  Chain, Flow, again, leave, max_pids, push_pid, pipe_out, wait_status, step_none, pipe_stage,
  step_pipe, step_out, step_in, step_and, step_background, dispatch, chain_step,
}

-- Where the loop stands at `chain_loop`.
pub record Ready (c : Chain) : Type 0 where
  pub terminated : Terminated c.args
  pub filled : IsFilled c.args
  pub cmd_in : c.cmd_arglist ≤ c.curr_ptr
  pub curr_in : c.curr_ptr < length c.args
  pub few_pids : length c.pids ≤ c.curr_ptr
  pub small : length c.args ≤ max_pids

-- What a round that began with `size` cells and the pointer `k` hands on.
abbrev pub Onward : ℕ → ℕ → Flow → Trace → Type 0
Onward size k (again c') t' = Ready c' × (length c'.args ≡ size) × (k < c'.curr_ptr)
Onward size k (leave c') t' = Terminated c'.args

module _ (os : Os) (holds : HoldsText os) where
  pub execute_returns :
      (args : Args) (k : ℕ) (fd_in fd_out : Option ℕ) (t : Trace)
      → Terminated args
      → k < length args
      → (pid : Option ℕ) × (t' : Trace) × (execute os (drop k args) fd_in fd_out t ≡ some (pid, t'))
  execute_returns args k fd_in fd_out t h lt =
      let (pid, t', e, _) =
        Returns-some (Executes os 0 0 (drop k args) t fd_in fd_out)
          (execute os (drop k args) fd_in fd_out t)
          (execute-Executes os 0 0 holds (drop k args) fd_in fd_out t
            (Terminated-drop k args h lt)) in
      (pid, t', e)

  -- A round's operator, with the array as `get_op_type` has left it and the end in it.
  record At (c : Chain) (op : OpType) (end : ℕ) : Type 0 where
    terminated : Terminated c.args
    filled : op ≢ op_background → IsFilled c.args
    cmd_in : c.cmd_arglist ≤ c.curr_ptr
    onward : c.curr_ptr ≤ end
    inside : end < length c.args
    room : is_infix op ≡ true → end + 1 < length c.args
    few_pids : length c.pids ≤ c.curr_ptr
    small : length c.args ≤ max_pids

  step_none-Onward :
      (c : Chain) (end : ℕ) (t : Trace)
      → At c op_none end
      → Returns (Onward (length c.args) c.curr_ptr) (step_none os c t)
  unfolding step_none
  step_none-Onward c end t a =
      let (pid, t', e) =
        execute_returns c.args c.cmd_arglist c.fd_in c.fd_out t a.terminated (omega arith) in
      ground (arith, e)

  step_background-Onward :
      (c : Chain) (end : ℕ) (t : Trace)
      → At c op_background end
      → Returns (Onward (length c.args) c.curr_ptr) (step_background os c t)
  unfolding step_background
  step_background-Onward c end t a =
      let (pid, t', e) =
        execute_returns c.args c.cmd_arglist c.fd_in c.fd_out t a.terminated (omega arith) in
      ground (arith, e)

  -- behind a string at `end + 1` there is one more cell
  beyond :
      (c : Chain) (op : OpType) (end : ℕ) (s : CString)
      → At c op end
      → get_elem? c.args (end + 1) ≡ some (some s)
      → end + 2 < length c.args
  beyond c op end s a e = omega (arith, next_cell c.args (end + 1) s a.terminated e)

  step_out-Onward :
      (c : Chain) (end : ℕ) (t : Trace)
      → At c op_out end
      → Returns (Onward (length c.args) c.curr_ptr) (step_out os c end t)
  unfolding step_out
  step_out-Onward c end t a =
      let filled : IsFilled c.args = a.filled (λ q. cc) in
      elim (Option-cases (get_elem? c.args (end + 1))) [
        | inl e ↦ absurd (get_elem?-ne-none c.args (end + 1) (a.room refl) e)
        | inr (none, e) ↦ ground (arith, e)
        | inr (some s, e) ↦ ground (arith, e, beyond c op_out end s a e)
      ]

  step_in-Onward :
      (c : Chain) (end : ℕ) (t : Trace)
      → At c op_in end
      → Returns (Onward (length c.args) c.curr_ptr) (step_in os c end t)
  unfolding step_in
  step_in-Onward c end t a =
      let filled : IsFilled c.args = a.filled (λ q. cc) in
      elim (Option-cases (get_elem? c.args (end + 1))) [
        | inl e ↦ absurd (get_elem?-ne-none c.args (end + 1) (a.room refl) e)
        | inr (none, e) ↦ ground (arith, e)
        | inr (some s, e) ↦ ground (arith, e, beyond c op_in end s a e)
      ]

  push_pid_returns :
      (pids : List ℕ) (pid : Option ℕ) (t : Trace)
      → length pids < max_pids
      → (pids' : List ℕ) × (push_pid pids pid t ≡ some (pids', t))
        × (length pids' ≤ length pids + 1)
  push_pid_returns pids none t lt = (pids, refl, omega arith)
  push_pid_returns pids (some pid) t lt = elim (Bool-cases (ltb 0 pid)) [
    | inl e ↦ (pids ++ (pid ∷ []), ground arith, omega (arith, length-append pids (pid ∷ [])))
    | inr e ↦ (pids, ground arith, omega arith)
  ]

  close_returns :
      (fd : Option ℕ) (w : ℕ) (t : Trace)
      → (fd_out : Option ℕ) × (t' : Trace) × (pipe_out fd w t ≡ some (fd_out, t'))
  close_returns none w t = (_, _, refl)
  close_returns (some fd) w t = (_, _, refl)

  pipe_stage-Onward :
      (c : Chain) (end r w : ℕ) (t : Trace)
      → At c op_pipe end
      → Returns (Onward (length c.args) c.curr_ptr) (pipe_stage os c end r w t)
  unfolding pipe_stage
  pipe_stage-Onward c end r w t a =
      let filled : IsFilled c.args = a.filled (λ q. cc) in
      let (fd_out, t1, e1) = close_returns c.fd_out w t in
      let (pid, t', e) =
        execute_returns c.args c.cmd_arglist c.fd_in fd_out t1 a.terminated (omega arith) in
      let (pids, e2, more) = push_pid_returns c.pids pid t' (omega arith) in
      ground (arith, e1, e, e2, more)

  step_pipe-Onward :
      (c : Chain) (end : ℕ) (t : Trace)
      → At c op_pipe end
      → Returns (Onward (length c.args) c.curr_ptr) (step_pipe os c end t)
  unfolding step_pipe
  step_pipe-Onward c end t a = elim (Option-cases (os.pipe t)) [
    | inl e ↦ rw e a.terminated
    | inr ((r, w), e) ↦ rw e (pipe_stage-Onward c end r w (piped (some (r, w)) ∷ t) a)
  ]

  wait_status_returns :
      (and_pid : Option ℕ) (pids : List ℕ) (status last_status : ℕ) (t : Trace)
      → (l : ℕ) × (t' : Trace) × (wait_status os and_pid pids status last_status t ≡ some (l, t'))
  unfolding wait_status
  wait_status_returns and_pid [] status last_status t = (_, _, refl)
  wait_status_returns and_pid (pid ∷ pids) status last_status t =
      wait_status_returns and_pid pids _ _ _

  step_and-Onward :
      (c : Chain) (end : ℕ) (t : Trace)
      → At c op_and end
      → Returns (Onward (length c.args) c.curr_ptr) (step_and os c end t)
  unfolding step_and
  step_and-Onward c end t a =
      let filled : IsFilled c.args = a.filled (λ q. cc) in
      let (and_pid, t1, e1) =
        execute_returns c.args c.cmd_arglist c.fd_in c.fd_out t a.terminated (omega arith) in
      let (pids, e2, more) = push_pid_returns c.pids and_pid t1 (omega arith) in
      let (status, t2, e3) = wait_status_returns and_pid pids os.stale_int 0 t1 in
      ground (arith, e1, e2, e3)

  dispatch-Onward :
      (op : OpType) (c : Chain) (end : ℕ) (t : Trace)
      → At c op end
      → Returns (Onward (length c.args) c.curr_ptr) (dispatch os op end c t)
  unfolding dispatch
  dispatch-Onward op_none c end t a = step_none-Onward c end t a
  dispatch-Onward op_pipe c end t a = step_pipe-Onward c end t a
  dispatch-Onward op_out c end t a = step_out-Onward c end t a
  dispatch-Onward op_in c end t a = step_in-Onward c end t a
  dispatch-Onward op_and c end t a = step_and-Onward c end t a
  dispatch-Onward op_background c end t a = step_background-Onward c end t a

  pub chain_step-Onward :
      (c : Chain) (t : Trace)
      → Ready c
      → Returns (Onward (length c.args) c.curr_ptr) (chain_step os c t)
  unfolding chain_step
  chain_step-Onward c t r =
      let (f, e, found) = get_op_type_bounds c.args c.curr_ptr r.terminated r.filled r.curr_in in
      let c' : Chain = record c { args = f.2 } in
      let a : At c' f.0 f.1 = record {
        terminated = found.terminated;
        filled = found.filled;
        cmd_in = r.cmd_in;
        onward = found.onward;
        inside = omega (arith, found.inside, found.same_length);
        room = λ q. omega (arith, found.room q, found.same_length);
        few_pids = r.few_pids;
        small = omega (arith, r.small, found.same_length);
      } in
      rw (e, Returns) (rw found.same_length at (dispatch-Onward f.0 c' f.1 t a))
