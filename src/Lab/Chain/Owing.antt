-- ===== src/Lab/Chain/Owing.antt =====
-- The descriptors in one round of the loop of `is_executable` of lab/isexecutable.c.
use linux_systemprogramming.Common.{
  ℕ, ◌+◌, ◌≤◌, ◌≡◌, ◌⊎◌, refl, true, Option, none, some, List, [], ◌∷◌, ◌++◌, ltb, length,
  get_elem?, drop, arith, Option-cases, Bool-cases, inl, inr,
}
use linux_systemprogramming.Common.Text.{CString}
use linux_systemprogramming.Posix.{Os, HoldsText, Trace, Returns-some, Ensures, piped}
use linux_systemprogramming.Posix.Count.{hit, held, opens, closes}
use linux_systemprogramming.Lab.Parsing.{Args}
use linux_systemprogramming.Lab.OpType.{
  OpType, op_none, op_pipe, op_out, op_in, op_and, op_background,
}
use linux_systemprogramming.Lab.OpType.Bounds.{head-drop, get_op_type_bounds}
use linux_systemprogramming.Lab.Cells.{Terminated, Terminated-drop, get_elem?-lt}
use linux_systemprogramming.Lab.OpType.Named.{
  command_next, more_next, file_next, after, named, StringAt, Posture, Named, get_op_type-Named,
  named-file,
}
use linux_systemprogramming.Lab.Execute.{execute}
use linux_systemprogramming.Lab.Execute.Effect.{Moves, Executes, execute-Executes}
use linux_systemprogramming.Lab.Chain.Rounds.{Ready}
use linux_systemprogramming.Lab.Chain.{
  Chain, Flow, again, leave, max_pids, push_pid, pipe_out, wait_status, step_none, pipe_stage,
  step_pipe, step_out, step_in, step_and, step_background, dispatch, chain_step,
}

module _ (os : Os) (holds : HoldsText os) (n : ℕ) (t0 : Trace) where
  -- Since `t0`, `n` was handed out as often as it was closed or is held in `fd_in` or `fd_out`.
  abbrev pub Owed : Trace → Option ℕ → Option ℕ → Type 0
  Owed t fd_in fd_out =
      opens n t + closes n t0 ≡ opens n t0 + closes n t + held n fd_in + held n fd_out

  -- The same while `x` more of it are held elsewhere.
  abbrev OwedBut : ℕ → Trace → Option ℕ → Option ℕ → Type 0
  OwedBut x t fd_in fd_out =
      opens n t + closes n t0 ≡ opens n t0 + closes n t + held n fd_in + held n fd_out + x

  abbrev pub Kept : Flow → Trace → Type 0
  Kept (again c') t' = Owed t' c'.fd_in c'.fd_out × Posture c'.args c'.cmd_arglist c'.curr_ptr
  Kept (leave c') t' = Owed t' c'.fd_in c'.fd_out

  execute_settles :
      (x : ℕ) (args : Args) (k : ℕ) (fd_in fd_out : Option ℕ) (t : Trace)
      → Terminated args
      → StringAt args k
      → OwedBut x t fd_in fd_out
      → (pid : Option ℕ) × (t' : Trace) × (execute os (drop k args) fd_in fd_out t ≡ some (pid, t'))
        × OwedBut x t' none none
  execute_settles x args k fd_in fd_out t h (s, at) owed = go (drop k args) refl (
      Returns-some (Executes os n 0 (drop k args) t fd_in fd_out)
        (execute os (drop k args) fd_in fd_out t)
        (execute-Executes os n 0 holds (drop k args) fd_in fd_out t
          (Terminated-drop k args h (get_elem?-lt args k (some s) at))))
    where
      go :
          (r : Args)
          → drop k args ≡ r
          → (pid : Option ℕ) × (t' : Trace) × (execute os (drop k args) fd_in fd_out t
              ≡ some (pid, t'))
            × Executes os n 0 (drop k args) t fd_in fd_out pid t'
          → (pid : Option ℕ) × (t' : Trace) × (execute os (drop k args) fd_in fd_out t
              ≡ some (pid, t'))
            × OwedBut x t' none none
      go [] q (pid, t', e, m) = absurd (rw q at m)
      go (none ∷ r) q m = cc (at, (head-drop k args none r q).0)
      go (some s' ∷ r) q (pid, t', e, m) =
          let moved : Moves n 0 t t' fd_in fd_out pid = rw q at m in
          (pid, t', e, omega (arith, moved.balanced))

  push_pid_cases :
      (pids : List ℕ) (pid : Option ℕ) (t : Trace)
      → (push_pid pids pid t ≡ none) ⊎ ((pids' : List ℕ) × (push_pid pids pid t ≡ some (pids', t)))
  push_pid_cases pids none t = inr (pids, refl)
  push_pid_cases pids (some pid) t = elim (Bool-cases (ltb 0 pid)) [
    | inl e ↦ elim (Bool-cases (ltb (length pids) max_pids)) [
      | inl e' ↦ inr (pids ++ (pid ∷ []), ground arith)
      | inr e' ↦ inl (ground arith)
    ]
    | inr e ↦ inr (pids, ground arith)
  ]

  pipe_out_settled :
      (r : ℕ) (fd_in fd : Option ℕ) (w : ℕ) (t : Trace)
      → OwedBut (hit n r + hit n w) t fd_in fd
      → (fd_out : Option ℕ) × (t' : Trace) × (pipe_out fd w t ≡ some (fd_out, t'))
        × OwedBut (hit n r) t' fd_in fd_out
  pipe_out_settled r fd_in none w t owed = (some w, _, refl, omega arith)
  pipe_out_settled r fd_in (some fd) w t owed = (some fd, _, refl, omega arith)

  wait_status_settled :
      (and_pid : Option ℕ) (pids : List ℕ) (status last_status : ℕ) (t : Trace)
      → (l : ℕ) × (t' : Trace) × (wait_status os and_pid pids status last_status t ≡ some (l, t'))
        × (opens n t' ≡ opens n t)
        × (closes n t' ≡ closes n t)
  unfolding wait_status
  wait_status_settled and_pid [] status last_status t = (_, _, refl, refl, refl)
  wait_status_settled and_pid (pid ∷ pids) status last_status t =
      let (l, t', e, o, c) = wait_status_settled and_pid pids _ _ _ in
      (l, t', e, omega (arith, o), omega (arith, c))

  module _ (c : Chain) (end : ℕ) (t : Trace) (h : Terminated c.args)
      (at : StringAt c.args c.cmd_arglist) (le : c.cmd_arglist ≤ end)
      (owed : Owed t c.fd_in c.fd_out) where
    step_none-Kept : Ensures Kept (step_none os c t)
    unfolding step_none
    step_none-Kept =
        let (pid, t', e, s) =
          execute_settles 0 c.args c.cmd_arglist c.fd_in c.fd_out t h at (omega arith) in
        ground (arith, e)

    step_background-Kept : Ensures Kept (step_background os c t)
    unfolding step_background
    step_background-Kept =
        let (pid, t', e, s) =
          execute_settles 0 c.args c.cmd_arglist c.fd_in c.fd_out t h at (omega arith) in
        ground (arith, e)

    file-Posture :
        (s : CString)
        → get_elem? c.args (end + 1) ≡ some (some s)
        → named file_next (drop (end + 1) c.args) ≡ true
        → Posture c.args c.cmd_arglist (end + 2)
    file-Posture s e w =
        let q : end + 1 + 1 ≡ end + 2 = omega arith in
        (more_next, rw q at (named-file c.args (end + 1) s e w), (omega arith, at))

    step_out-Kept :
        named file_next (drop (end + 1) c.args) ≡ true → Ensures Kept (step_out os c end t)
    unfolding step_out
    step_out-Kept w = elim (Option-cases (get_elem? c.args (end + 1))) [
      | inl e ↦ ground (arith, e)
      | inr (none, e) ↦ ground (arith, e)
      | inr (some s, e) ↦ let onward = file-Posture s e w in ground (arith, e, onward)
    ]

    step_in-Kept :
        named file_next (drop (end + 1) c.args) ≡ true → Ensures Kept (step_in os c end t)
    unfolding step_in
    step_in-Kept w = elim (Option-cases (get_elem? c.args (end + 1))) [
      | inl e ↦ ground (arith, e)
      | inr (none, e) ↦ ground (arith, e)
      | inr (some s, e) ↦ let onward = file-Posture s e w in ground (arith, e, onward)
    ]

    next-Posture :
        named command_next (drop (end + 1) c.args) ≡ true → Posture c.args (end + 1) (end + 1)
    next-Posture w = (command_next, w, refl)

    step_and-Kept :
        named command_next (drop (end + 1) c.args) ≡ true → Ensures Kept (step_and os c end t)
    unfolding step_and
    step_and-Kept w =
        let (pid, t', e, s) =
          execute_settles 0 c.args c.cmd_arglist c.fd_in c.fd_out t h at (omega arith) in
        let onward = next-Posture w in
        elim (push_pid_cases c.pids pid t') [
          | inl e1 ↦ ground (arith, e, e1)
          | inr (pids, e1) ↦
              let (l, t2, e2, o2, c2) = wait_status_settled pid pids os.stale_int 0 t' in
              ground (arith, e, e1, e2, onward)
        ]

    pipe_stage-Kept :
        (r w : ℕ) (t1 : Trace)
        → OwedBut (hit n r + hit n w) t1 c.fd_in c.fd_out
        → named command_next (drop (end + 1) c.args) ≡ true
        → Ensures Kept (pipe_stage os c end r w t1)
    unfolding pipe_stage
    pipe_stage-Kept r w t1 owed1 next =
        let onward = next-Posture next in
        let (fd_out, t2, e2, o2) = pipe_out_settled r c.fd_in c.fd_out w t1 owed1 in
        let (pid, t', e, s) =
          execute_settles (hit n r) c.args c.cmd_arglist c.fd_in fd_out t2 h at o2 in
        elim (push_pid_cases c.pids pid t') [
          | inl e1 ↦ ground (arith, e2, e, e1)
          | inr (pids, e1) ↦ ground (arith, e2, e, e1, onward)
        ]

    step_pipe-Kept :
        named command_next (drop (end + 1) c.args) ≡ true → Ensures Kept (step_pipe os c end t)
    unfolding step_pipe
    step_pipe-Kept next = elim (Option-cases (os.pipe t)) [
      | inl e ↦ rw e (ground arith)
      | inr ((r, w), e) ↦ rw e (pipe_stage-Kept r w (piped (some (r, w)) ∷ t) (omega arith) next)
    ]

    dispatch-Kept :
        (op : OpType)
        → named (after op) (drop (end + 1) c.args) ≡ true
        → Ensures Kept (dispatch os op end c t)
    unfolding dispatch
    dispatch-Kept op_none next = step_none-Kept
    dispatch-Kept op_pipe next = step_pipe-Kept next
    dispatch-Kept op_out next = step_out-Kept next
    dispatch-Kept op_in next = step_in-Kept next
    dispatch-Kept op_and next = step_and-Kept next
    dispatch-Kept op_background next = step_background-Kept

  pub chain_step-Kept :
      (c : Chain) (t : Trace)
      → Ready c
      → Owed t c.fd_in c.fd_out
      → Posture c.args c.cmd_arglist c.curr_ptr
      → Ensures Kept (chain_step os c t)
  unfolding chain_step
  chain_step-Kept c t r owed pos =
      let (f, e, found) = get_op_type_bounds c.args c.curr_ptr r.terminated r.filled r.curr_in in
      let (at, next) : Named c.cmd_arglist (some f) =
        rw e at (get_op_type-Named c.args c.cmd_arglist c.curr_ptr pos) in
      rw (e, Ensures)
        (dispatch-Kept (record c { args = f.2 }) f.1 t found.terminated at
          (omega (arith, r.cmd_in, found.onward)) owed f.0 next)
