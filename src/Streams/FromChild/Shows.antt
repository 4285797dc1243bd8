-- ===== src/Streams/FromChild/Shows.antt =====
-- ch07/ex02.c and ch07/ex03.c: where the child writes, and what the parent shows.
use linux_systemprogramming.Common.{
  ℕ, suc, ◌<◌, ◌≡◌, ◌≢◌, refl, sym, ap, ◌∙◌, true, false, none, some, [], ◌∷◌, append-nil, ltb,
  length, lt→ltb, arith,
}
use linux_systemprogramming.Common.Text.{CString, codes}
use linux_systemprogramming.MsgServer.Buffer.{cstr, is_text, cstr-text-append}
use linux_systemprogramming.Children.{in_child, in_parent}
use linux_systemprogramming.Daemon.Start.{Table, set, dup, open_file, lowest}
use linux_systemprogramming.Streams.FromChild.{
  max_size, shown, exited, faulted, became, Answers, write_end, piped, show_read, parent_table,
  hello_main, child_table, ls_main,
}

-- dup takes descriptor 1 when 0 is in use and 1 is free.
dup_stdout :
    (n old : ℕ) (file file' : CString) (table : Table)
    → table old ≡ some file
    → table 0 ≡ some file'
    → table 1 ≡ none
    → dup (suc (suc n)) old table ≡ (some 1, set 1 (some file) table)
unfolding dup open_file lowest
dup_stdout n old file file' table e z f = rw (dup, e, lowest, z, lowest, f) refl

module _ (n r w : ℕ) (table : Table) (file : CString) where
  -- The descriptors of the child behind the two that are closed.
  abbrev before_dup : Table
  before_dup = set 1 none (set r none (piped r w table))

  child_table_lem :
      r ≢ 0
      → w ≢ 0
      → w ≢ 1
      → w ≢ r
      → table 0 ≡ some file
      → child_table (suc (suc n)) r w (piped r w table)
        ≡ set w none (set 1 (some write_end) before_dup)
  unfolding child_table
  child_table_lem h k l m z =
      let at_w : before_dup w ≡ some write_end = ground arith in
      let at_0 : before_dup 0 ≡ some file = ground (arith, z) in
      rw (dup_stdout n w write_end file before_dup at_w at_0 refl) refl

  -- In the child of ex03.c, when descriptor 0 is open and pipe gives neither 0 nor 1: `ls` starts with
  -- its stdout on the pipe, with no other descriptor of the pipe, and with all others as they were.
  pub ls_main-stdout :
      (a : Answers)
      → a.ends ≡ some (r, w)
      → a.fork ≡ in_child
      → a.executes ≡ true
      → r ≢ 0
      → r ≢ 1
      → w ≢ 0
      → w ≢ 1
      → w ≢ r
      → table 0 ≡ some file
      → (t : Table) × (ls_main (suc (suc n)) a table ≡ became (codes "ls") t)
        × (t 1 ≡ some write_end)
        × (t r ≡ none)
        × (t w ≡ none)
        × ((i : ℕ) → i ≢ 1 → i ≢ r → i ≢ w → t i ≡ table i)
  unfolding ls_main
  ls_main-stdout a e f g h h' k l m z = (
    set w none (set 1 (some write_end) before_dup),
    rw (ls_main, e, f, g, child_table_lem h k l m z) refl,
    ground arith,
    ground arith,
    ground arith,
    λ i x y v. ground arith,
  )

abbrev pub parents : ℕ → ℕ → ℕ → CString → Answers
parents r w pid text = record {
  ends = some (r, w);
  fork = in_parent pid;
  executes = true;
  bytes = some text;
  is_waited = true;
}

-- The parent of either program shows the text that read gives, when it is shorter than the buffer,
-- closes both descriptors and exits with status 0; a text that fills the buffer makes it write behind
-- the buffer.
mains_show :
    (r w pid soft : ℕ) (table : Table) (text full : CString)
    → is_text text ≡ true
    → length text < max_size
    → length full ≡ max_size
    → let now = parent_table r w (piped r w table) in
      (hello_main (parents r w pid text) table ≡ exited 0 (shown text ∷ []) now)
      × (ls_main soft (parents r w pid text) table ≡ exited 0 (shown text ∷ []) now)
      × (hello_main (parents r w pid full) table ≡ faulted)
      × (ls_main soft (parents r w pid full) table ≡ faulted)
unfolding hello_main ls_main show_read
mains_show r w pid soft table text full h lt e =
    let fits : ltb (length text) max_size ≡ true = lt→ltb _ _ lt in
    let over : ltb (length full) max_size ≡ false = ground arith in
    let same : cstr text ≡ text =
      ap cstr (sym (append-nil text)) ∙ cstr-text-append text [] h ∙ append-nil text in
    (
      rw (hello_main, show_read, fits, same) refl,
      rw (ls_main, show_read, fits, same) refl,
      rw (hello_main, show_read, over) refl,
      rw (ls_main, show_read, over) refl,
    )
