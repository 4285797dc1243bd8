-- ===== src/MsgServer/Buffer.antt =====
-- Character arrays of ch09/msg_server.c, NUL bytes included, and strncpy.
use linux_systemprogramming.Common.{
  ℕ, zero, suc, ◌≤◌, ◌≡◌, refl, ap, ◌∙◌, Bool, true, not, List, [], ◌∷◌, ◌++◌, length, take, drop,
  all, arith, ◌==◌, if◌then◌else◌, length-append, length-drop,
}
use linux_systemprogramming.Common.Text.{CString}

abbrev pub Buffer : Type 0
Buffer = List ℕ

-- The string that a buffer holds.
abbrev pub cstr : Buffer → CString
cstr [] = []
cstr (c ∷ b) = if c == 0 then [] else c ∷ cstr b

-- `n` bytes: those of the string, then NULs.
abbrev pub pad : ℕ → CString → Buffer
pad zero s = []
pad (suc n) [] = 0 ∷ pad n []
pad (suc n) (c ∷ s) = c ∷ pad n s

-- `strncpy(dst, src, n)`, for a `dst` of at least `n` bytes
unfoldable pub strncpy : Buffer → CString → ℕ → Buffer
strncpy dst src n = pad n src ++ drop n dst

abbrev pub is_text : CString → Bool
is_text s = all (λ c. not (c == 0)) s

-- Behind a text the buffer reads on.
pub cstr-text-append : (s : CString) (b : Buffer) → is_text s ≡ true → cstr (s ++ b) ≡ s ++ cstr b
cstr-text-append [] b h = refl
cstr-text-append (c ∷ s) b h = ground (arith, cstr-text-append s b)

pub cstr-is_text : (b : Buffer) → is_text (cstr b) ≡ true
cstr-is_text [] = refl
cstr-is_text (c ∷ b) = ground (arith, cstr-is_text b)

length-pad : (n : ℕ) (s : CString) → length (pad n s) ≡ n
length-pad zero s = refl
length-pad (suc n) [] = ap suc (length-pad n [])
length-pad (suc n) (c ∷ s) = ap suc (length-pad n s)

pub length-strncpy :
    (dst : Buffer) (src : CString) (n : ℕ)
    → n ≤ length dst
    → length (strncpy dst src n) ≡ length dst
unfolding strncpy
length-strncpy dst src n h =
    omega (arith, length-append (pad n src) (drop n dst), length-pad n src, length-drop n dst)

-- In front of a NUL the buffer reads as the first `n` bytes of the text.
cstr-pad :
    (n : ℕ) (s : CString) (b : Buffer) → is_text s ≡ true → cstr (pad n s ++ 0 ∷ b) ≡ take n s
cstr-pad zero s b h = refl
cstr-pad (suc n) [] b h = refl
cstr-pad (suc n) (c ∷ s) b h = ground (arith, cstr-pad n s b)

-- The byte behind the copied ones is NUL.
abbrev pub IsClosed : ℕ → Buffer → Type 0
IsClosed n b = drop n b ≡ 0 ∷ []

pub cstr-strncpy :
    (dst : Buffer) (src : CString) (n : ℕ)
    → IsClosed n dst
    → is_text src ≡ true
    → cstr (strncpy dst src n) ≡ take n src
unfolding strncpy
cstr-strncpy dst src n closed h = rw closed (cstr-pad n src [] h)

drop-pad : (n : ℕ) (s : CString) (b : Buffer) → drop n (pad n s ++ b) ≡ b
drop-pad zero s b = refl
drop-pad (suc n) [] b = drop-pad n [] b
drop-pad (suc n) (c ∷ s) b = drop-pad n s b

pub strncpy-IsClosed :
    (dst : Buffer) (src : CString) (n : ℕ) → IsClosed n dst → IsClosed n (strncpy dst src n)
unfolding strncpy
strncpy-IsClosed dst src n closed = drop-pad n src (drop n dst) ∙ closed
