-- ===== src/Epoll/Echo/ReadLoop.antt =====
-- What one client of ch09/chattingProgram/ex06.c gets back.
use linux_systemprogramming.Common.{
  ℕ, ◌≤◌, Option, some, take_whole, ◌≡◌, refl, sym, ap, ◌∙◌, Bool, true, false, not, ◌&&◌, List, [],
  ◌∷◌, ◌++◌, map, append-nil, length, all, arith, &&-left, &&-right, leb,
}
use linux_systemprogramming.Common.Text.{CString, codes, strn_eq}
use linux_systemprogramming.MsgServer.Buffer.{Buffer}
use linux_systemprogramming.Epoll.Echo.{
  max_line, Read, chunk, ended, echoed, before, fill, read_loop,
}

-- Bytes that fit in `buffer`, decide the test for "..." by themselves, and fail it.
abbrev pub is_line : CString → Bool
is_line bytes =
    leb 3 (length bytes) && (leb (length bytes) max_line && not (strn_eq 3 bytes (codes "...")))

-- Bytes that write takes all.
abbrev pub whole : CString → Read
whole bytes = chunk bytes (some (length bytes))

fill-line :
    (b : CString) (buffer : Buffer)
    → is_line b ≡ true
    → strn_eq 3 (fill buffer b) (codes "...") ≡ false
fill-line [] buffer h = cc
fill-line (x ∷ []) buffer h = cc
fill-line (x ∷ y ∷ []) buffer h = cc
fill-line (x ∷ y ∷ z ∷ b) buffer h = ground arith

module _ (fd : ℕ) where
  -- One line goes back, and the loop goes on.
  read_loop-whole :
      (b : CString) (buffer : Buffer) (reads : List Read)
      → is_line b ≡ true
      → read_loop fd buffer (whole b ∷ reads)
        ≡ before (echoed fd b) (read_loop fd (fill buffer b) reads)
  unfolding read_loop
  read_loop-whole b buffer reads h =
      let short : length b ≤ max_line = ground (arith, h) in
      rw (take_whole max_line b short, fill-line b buffer h, take_whole (length b) b (omega arith))
        refl

  -- The lines go back one by one, and the loop goes on with what follows them.
  read_loop-append :
      (lines : List CString) (buffer : Buffer) (reads : List Read)
      → all is_line lines ≡ true
      → (buffer' : Buffer) × ((read_loop fd buffer (map whole lines ++ reads)).calls
          ≡ map (echoed fd) lines ++ (read_loop fd buffer' reads).calls)
        × ((read_loop fd buffer (map whole lines ++ reads)).is_done
            ≡ (read_loop fd buffer' reads).is_done)
  read_loop-append [] buffer reads h = (buffer, refl, refl)
  read_loop-append (b ∷ lines) buffer reads h =
      let (buffer', c, d) =
        read_loop-append lines (fill buffer b) reads (&&-right (is_line b) (all is_line lines) h) in
      let e =
        read_loop-whole b buffer (map whole lines ++ reads)
          (&&-left (is_line b) (all is_line lines) h) in
      (buffer', ap (λ r. r.calls) e ∙ ap (λ l. echoed fd b ∷ l) c, ap (λ r. r.is_done) e ∙ d)

  -- Lines of three to ten bytes that do not begin with "...", one for each read, go back to the client
  -- one by one, in order, whatever `buffer` held, if each write takes its line; the connection stays
  -- open when they are all read, and ends at the end of the stream or at the first chunk that begins
  -- with "...", which does not go back.
  pub read_loop-echoes :
      (lines : List CString) (buffer : Buffer) (last : CString) (result : Option ℕ)
      (reads : List Read)
      → all is_line lines ≡ true
      → ((read_loop fd buffer (map whole lines)).calls ≡ map (echoed fd) lines)
        × ((read_loop fd buffer (map whole lines)).is_done ≡ false)
        × ((read_loop fd buffer (map whole lines ++ ended ∷ reads)).calls ≡ map (echoed fd) lines)
        × ((read_loop fd buffer (map whole lines ++ ended ∷ reads)).is_done ≡ true)
        × ((read_loop fd buffer
              (map whole lines ++ chunk (codes "..." ++ last) result ∷ reads)).calls
            ≡ map (echoed fd) lines)
        × ((read_loop fd buffer
              (map whole lines ++ chunk (codes "..." ++ last) result ∷ reads)).is_done
            ≡ true)
  unfolding read_loop
  read_loop-echoes lines buffer last result reads h =
      let (_, c0, d0) = read_loop-append lines buffer [] h in
      let (_, c1, d1) = read_loop-append lines buffer (ended ∷ reads) h in
      let (_, c2, d2) =
        read_loop-append lines buffer (chunk (codes "..." ++ last) result ∷ reads) h in
      (
        ap (λ l. (read_loop fd buffer l).calls) (sym (append-nil (map whole lines)))
            ∙ c0
            ∙ append-nil (map (echoed fd) lines),
        ap (λ l. (read_loop fd buffer l).is_done) (sym (append-nil (map whole lines))) ∙ d0,
        c1 ∙ append-nil (map (echoed fd) lines),
        d1,
        c2 ∙ append-nil (map (echoed fd) lines),
        d2,
      )

  -- A shorter chunk is tested together with what `buffer` holds behind it: a lone "." behind an
  -- earlier text with dots at its second and third place ends the connection.
  read_loop-stale :
      (x : ℕ) (buffer : Buffer) (result : Option ℕ) (reads : List Read)
      → ((read_loop fd (x ∷ codes ".." ++ buffer) (chunk (codes ".") result ∷ reads)).is_done
          ≡ true)
        × ((read_loop fd (x ∷ codes ".." ++ buffer) (chunk (codes ".") result ∷ reads)).calls ≡ [])
  unfolding read_loop
  read_loop-stale x buffer result reads = (refl, refl)
