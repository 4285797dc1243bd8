-- ===== src/Files/Print.antt =====
-- `main` of ch03/execercise.c: a file is read in pieces, and printed as the texts in the buffer.
use linux_systemprogramming.Common.{
  ℕ, ◌-◌, ◌<◌, ◌≡◌, refl, true, false, Option, none, some, List, [], ◌∷◌, ◌++◌, length, drop,
  if◌then◌else◌, ltb, arith,
}
use linux_systemprogramming.Common.Text.{CString, codes}
use linux_systemprogramming.MsgServer.Buffer.{Buffer, cstr, is_text, cstr-text-append}

abbrev pub max_size : ℕ
max_size = 1024

pub data Event : Type 0 where
  opened : Option ℕ → Event
  printed : CString → Event
  complained : CString → Event
  closed : ℕ → Event

-- What read leaves in the buffer, and its length, for the pieces of the file; at their end it gives 0.
abbrev pub over : Buffer → CString → Buffer
over buffer piece = piece ++ drop (length piece) buffer

-- The loop on what read gives, each piece of up to `max_size - 1` bytes; `none` is an error, which
-- leaves the buffer as it is and is below `max_size - 1`.
unfoldable pub print_loop : Buffer → List (Option CString) → List Event
print_loop buffer [] = printed (cstr buffer) ∷ []
print_loop buffer (none ∷ pieces) = printed (cstr buffer) ∷ []
print_loop buffer (some piece ∷ pieces) =
    let now = over buffer piece in
    let rest = print_loop now pieces in
    printed (cstr now) ∷ (if ltb (length piece) (max_size - 1) then [] else rest)

unfoldable pub print_file :
    List CString → Option ℕ → Buffer → List (Option CString) → ℕ × List Event
unfolding print_loop
print_file (path ∷ []) (some fd) stale pieces = (
  0,
  opened (some fd) ∷ printed (codes "buffer : ") ∷ print_loop stale pieces
      ++ printed (codes "\n") ∷ closed fd ∷ [],
)
print_file (path ∷ []) none stale pieces = (1, opened none ∷ complained (codes "open") ∷ [])
print_file [] fd stale pieces = (1, printed (codes "Usage : filename\n") ∷ [])
print_file (a ∷ b ∷ args) fd stale pieces = (1, printed (codes "Usage : filename\n") ∷ [])

-- A text shorter than the buffer is printed with what the buffer held behind it, up to its first NUL;
-- and the rest of a longer file is printed with the end of the piece before it.
pub print_loop-stale :
    (piece last : CString) (stale : Buffer) (pieces : List (Option CString))
    → is_text piece ≡ true
    → is_text last ≡ true
    → length piece ≡ max_size - 1
    → length last < max_size - 1
    → (print_loop stale (some last ∷ pieces)
        ≡ printed (last ++ cstr (drop (length last) stale)) ∷ [])
      × (print_loop stale (some piece ∷ some last ∷ pieces)
          ≡ printed (piece ++ cstr (drop (length piece) stale))
            ∷ printed (last ++ cstr (drop (length last) (over stale piece)))
            ∷ [])
unfolding print_loop
print_loop-stale piece last stale pieces h k e l =
    let full : ltb (length piece) (max_size - 1) ≡ false = ground arith in
    let short : ltb (length last) (max_size - 1) ≡ true = ground arith in
    rw
      (
        short,
        full,
        cstr-text-append last (drop (length last) stale) k,
        cstr-text-append piece (drop (length piece) stale) h,
        cstr-text-append last (drop (length last) (over stale piece)) k,
      )
      (refl, refl)
