-- ===== src/Streams/FromChild.antt =====
-- ch07/ex02.c and ch07/ex03.c: a child writes into a pipe, the parent shows what it reads. In ex03.c the
-- child is `ls`, whose stdout is the pipe; the descriptors are a table as in Daemon/Start.
pub mod Shows
use linux_systemprogramming.Common.{
  ℕ, ◌+◌, ◌≤◌, ◌<◌, ◌≡◌, ◌≢◌, refl, sym, ap, ◌∙◌, Bool, true, false, Option, none, some, List, [],
  ◌∷◌, ◌++◌, if◌then◌else◌, ltb, ◌==◌, length, lt→ltb, arith,
}
use linux_systemprogramming.Common.Text.{CString, codes}
use linux_systemprogramming.MsgServer.Buffer.{cstr, is_text, cstr-is_text}
use linux_systemprogramming.Children.{Forked, fork_failed, in_child, in_parent}
use linux_systemprogramming.Daemon.Start.{Table, set, dup, open_file, lowest}

abbrev pub max_size : ℕ
max_size = 4096

pub data Event : Type 0 where
  complained : CString → Event
  -- `printf("PARENT : %s from CHILD\n", buf)`
  shown : CString → Event
  -- a write to this descriptor
  wrote : ℕ → CString → Event

-- `faulted` is a write outside of `buf`.
pub data End : Type 0 where
  exited : ℕ → List Event → Table → End
  faulted : End
  became : CString → Table → End

-- How the calls end: pipe with two descriptors, fork, execlp if it comes back, read with the bytes that
-- it gives, and waitpid.
pub record Answers : Type 0 where
  pub ends : Option (ℕ × ℕ)
  pub fork : Forked
  pub executes : Bool
  pub bytes : Option CString
  pub is_waited : Bool

abbrev pub read_end : CString
read_end = codes "the pipe's read end"

abbrev pub write_end : CString
write_end = codes "the pipe's write end"

abbrev pub piped : ℕ → ℕ → Table → Table
piped r w table = set w (some write_end) (set r (some read_end) table)

-- `n = read(..); buf[n] = '\0'; .. printf(..)`, where a failing read gives -1.
unfoldable pub show_read : Option CString → (Event → End) → End
show_read none next = faulted
show_read (some text) next =
    if ltb (length text) max_size then next (shown (cstr text)) else faulted

-- ex02.c: what waitpid's error leads to.
abbrev pub waited : Bool → List Event → Table → End
waited true told table = exited 0 told table
waited false told table = exited 1 (told ++ complained (codes "waitpid") ∷ []) table

-- ex03.c: the error is only told.
abbrev pub waited_for_ls : Bool → List Event → Table → End
waited_for_ls true told table = exited 0 told table
waited_for_ls false told table = exited 0 (told ++ complained (codes "exit(1); waitpid") ∷ []) table

-- The parent's two descriptors are closed.
abbrev pub parent_table : ℕ → ℕ → Table → Table
parent_table r w table = set r none (set w none table)

unfoldable pub hello_main : Answers → Table → End
unfolding show_read
hello_main a table = elim a.ends [
  | none ↦ exited 1 (complained (codes "pipe") ∷ []) table
  | some (r, w) ↦ elim a.fork [
    | fork_failed ↦ exited 1 (complained (codes "fork") ∷ []) (piped r w table)
    | in_child ↦ exited 1 (wrote w (codes "Hello, Parent!!") ∷ []) (set r none (piped r w table))
    | in_parent pid ↦
        show_read a.bytes (λ e. waited a.is_waited (e ∷ []) (parent_table r w (piped r w table)))
  ]
]

-- `close(pd[0]); close(1); dup(pd[1]); close(pd[1]);`
unfoldable pub child_table : ℕ → ℕ → ℕ → Table → Table
unfolding dup open_file lowest
child_table soft r w table = set w none (dup soft w (set 1 none (set r none table))).1

unfoldable pub ls_main : ℕ → Answers → Table → End
unfolding show_read child_table
ls_main soft a table = elim a.ends [
  | none ↦ exited 1 (complained (codes "pipe") ∷ []) table
  | some (r, w) ↦ elim a.fork [
    | fork_failed ↦ exited 1 (complained (codes "fork") ∷ []) (piped r w table)
    | in_child ↦
        let table' = child_table soft r w (piped r w table) in
        if a.executes
        then became (codes "ls") table'
        else exited 1 (complained (codes "execlp") ∷ []) table'
    | in_parent pid ↦
        show_read a.bytes
          (λ e. waited_for_ls a.is_waited (e ∷ []) (parent_table r w (piped r w table)))
  ]
]
