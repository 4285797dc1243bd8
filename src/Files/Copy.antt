-- ===== src/Files/Copy.antt =====
-- `main` of ch03/ex04.c: /etc/hosts is copied to myhosts.
use linux_systemprogramming.Common.{
  hit, ℕ, ◌+◌, ◌≡◌, refl, Bool, true, false, ◌&&◌, ◌||◌, Bool-cases, inl, inr, Option, none, some,
  List, [], ◌∷◌, length, take, if◌then◌else◌, ◌==◌, arith,
}
use linux_systemprogramming.Common.Text.{CString, codes, str_eq}
use linux_systemprogramming.MsgServer.Buffer.{Buffer}

pub data Event : Type 0 where
  opened : CString → Option ℕ → Event
  -- malloc of a number of bytes
  allocated : ℕ → Bool → Event
  freed : Event
  closed : ℕ → Event
  -- descriptor and bytes, and how many of them were taken
  wrote : ℕ → Buffer → Option ℕ → Event
  printed : CString → Event
  complained : CString → Event

-- The answers of the calls. `fstat` gives the size, and `stale_size` is what the uninitialised
-- `sb.st_size` holds; read gives at most as many bytes as it was asked for, or an error. What close
-- gives is not looked at.
pub record Answers : Type 0 where
  pub source : Option ℕ
  pub fstat : Option ℕ
  pub stale_size : ℕ
  pub has_memory : Bool
  pub target : Option ℕ
  pub read : Option Buffer
  pub write : Option ℕ

-- Whether write has taken all.
abbrev pub is_whole : Option ℕ → Buffer → Bool
is_whole none buf = false
is_whole (some n) buf = n == length buf

-- `sb.st_size` behind fstat, whose result is not looked at.
abbrev pub size_of : Option ℕ → ℕ → ℕ
size_of none stale = stale
size_of (some n) stale = n

-- read, write and what is told of them.
unfoldable pub transfer : ℕ → Answers → List Event
transfer wfd a = elim a.read [
  | none ↦ complained (codes "read") ∷ []
  | some data' ↦
      let buf = take (size_of a.fstat a.stale_size) data' in
      wrote wfd buf a.write
      ∷ (if is_whole a.write buf
          then printed (codes "File Copy Success!!\n")
          else complained (codes "write"))
      ∷ []
]

abbrev pub then_do : List Event → ℕ × List Event → ℕ × List Event
then_do [] r = r
then_do (e ∷ es) r = let (status, rest) = then_do es r in (status, e ∷ rest)

-- The status and the events, oldest first.
unfoldable pub copy : Answers → ℕ × List Event
unfolding transfer
copy a = elim a.source [
  | none ↦ (
    1,
    opened (codes "/etc/hosts") none
        ∷ complained (codes "open1")
        ∷ printed (codes "File Read Fail.....\n")
        ∷ [],
  )
  | some rfd ↦
      then_do
        (opened (codes "/etc/hosts") (some rfd)
          ∷ printed (codes "File Read Success!!")
          ∷ allocated (size_of a.fstat a.stale_size) a.has_memory
          ∷ [])
        (if a.has_memory
          then elim a.target [
            | none ↦ (
              1,
              opened (codes "myhosts") none
                  ∷ complained (codes "open2")
                  ∷ printed (codes "File Create Fail.....\n")
                  ∷ freed
                  ∷ closed rfd
                  ∷ [],
            )
            | some wfd ↦
                then_do
                  (opened (codes "myhosts") (some wfd)
                    ∷ printed (codes "File Creat Success!!")
                    ∷ [])
                  (then_do (transfer wfd a) (0, freed ∷ closed rfd ∷ closed wfd ∷ []))
          ]
          else (1, complained (codes "malloc") ∷ closed rfd ∷ []))
]

abbrev pub opens : ℕ → List Event → ℕ
opens n [] = 0
opens n (opened path (some fd) ∷ l) = hit n fd + opens n l
opens n (e ∷ l) = opens n l

abbrev pub closes : ℕ → List Event → ℕ
closes n [] = 0
closes n (closed fd ∷ l) = hit n fd + closes n l
closes n (e ∷ l) = closes n l

abbrev pub allocations : List Event → ℕ
allocations [] = 0
allocations (allocated n true ∷ l) = 1 + allocations l
allocations (e ∷ l) = allocations l

abbrev pub frees : List Event → ℕ
frees [] = 0
frees (freed ∷ l) = 1 + frees l
frees (e ∷ l) = frees l

-- Whether the program says that it has copied the file.
abbrev pub is_success : List Event → Bool
is_success [] = false
is_success (printed s ∷ l) = str_eq s (codes "File Copy Success!!\n") || is_success l
is_success (e ∷ l) = is_success l

-- Whether both open, malloc and read have succeeded, and write has taken all that read gave.
abbrev pub is_complete : Answers → Bool
is_complete a = is_some a.source && (a.has_memory && (is_some a.target && is_taken a.read a.write))
  where
    is_some : Option ℕ → Bool
    is_some none = false
    is_some (some n) = true

    is_taken : Option Buffer → Option ℕ → Bool
    is_taken none w = false
    is_taken (some data') w = is_whole w (take (size_of a.fstat a.stale_size) data')

-- Nothing is left open or allocated.
abbrev pub IsClean : ℕ × List Event → Type 0
IsClean r = ((n : ℕ) → opens n r.1 ≡ closes n r.1) × (allocations r.1 ≡ frees r.1)

copied :
    (rfd wfd : ℕ) (f : Option ℕ) (stale : ℕ) (data' : Buffer) (w : Option ℕ)
    → let a : Answers = record {
      source = some rfd;
      fstat = f;
      stale_size = stale;
      has_memory = true;
      target = some wfd;
      read = some data';
      write = w;
    } in
      IsClean (copy a) × (is_success (copy a).1 ≡ is_whole w (take (size_of f stale) data'))
unfolding copy transfer
copied rfd wfd f stale data' w = elim (Bool-cases (is_whole w (take (size_of f stale) data'))) [
  | inl e ↦ rw e ((λ n. omega arith, refl), refl)
  | inr e ↦ rw e ((λ n. omega arith, refl), refl)
]

-- On every path, errors included, the program closes each descriptor that it has opened and frees
-- the buffer that it has allocated, once each; and it says that the file is copied exactly if both
-- open, malloc and read have succeeded and write has taken all the bytes that read gave: a read that
-- gives less than the whole file counts as success, and a failed fstat does not matter.
pub copy-IsClean : (a : Answers) → IsClean (copy a) × (is_success (copy a).1 ≡ is_complete a)
unfolding copy transfer
copy-IsClean a = go a.source a.has_memory a.target a.read a.write
  where
    go :
        (s : Option ℕ) (m : Bool) (t : Option ℕ) (r : Option Buffer) (w : Option ℕ)
        → let b : Answers = record {
          source = s;
          fstat = a.fstat;
          stale_size = a.stale_size;
          has_memory = m;
          target = t;
          read = r;
          write = w;
        } in
          IsClean (copy b) × (is_success (copy b).1 ≡ is_complete b)
    go none m t r w = ((λ n. refl, refl), refl)
    go (some rfd) false t r w = ((λ n. refl, refl), refl)
    go (some rfd) true none r w = ((λ n. refl, refl), refl)
    go (some rfd) true (some wfd) none w = ((λ n. omega arith, refl), refl)
    go (some rfd) true (some wfd) (some data') w = copied rfd wfd a.fstat a.stale_size data' w
