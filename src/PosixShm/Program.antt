-- ===== src/PosixShm/Program.antt =====
-- The set-up and the commands of ch07/posix_shm.c. A line is what one fgets gives: up to 255 bytes.
use linux_systemprogramming.Common.{
  ℕ, zero, suc, Bool, true, false, Option, none, some, List, [], ◌∷◌, ◌++◌, length, drop,
  if◌then◌else◌, ◌==◌, replicate,
}
use linux_systemprogramming.Common.Text.{CString, codes}
use linux_systemprogramming.MsgServer.Buffer.{Buffer, cstr}

abbrev pub sz_shm_segment : ℕ
sz_shm_segment = 1024

-- What shm_open with O_EXCL gives: a descriptor, EEXIST, or another error.
pub data Created : Type 0 where
  created : ℕ → Created
  exists_already : Created
  create_failed : Created

pub record Answers : Type 0 where
  pub create : Created
  -- whether `errno` is EEXIST from before, for a descriptor 0
  pub is_stale_exist : Bool
  pub truncates : Bool
  pub reopen : Option ℕ
  pub maps : Bool

-- The set-up ends in `exit(1)`, after a text or none, or with a descriptor, and whether it is that of
-- a new object.
pub data Attached : Type 0 where
  gave_up : CString → Attached
  attached : ℕ → Bool → Attached

abbrev map_or_exit : Answers → ℕ → Bool → Attached
map_or_exit a fd is_new = if a.maps then attached fd is_new else gave_up (codes "mmap")

abbrev open_existing : Answers → Attached
open_existing a = elim a.reopen [
  | none ↦ gave_up (codes "shm_open()")
  | some fd ↦ map_or_exit a fd false
]

unfoldable pub attach : Answers → Attached
attach a = elim a.create [
  | created zero ↦ (if a.is_stale_exist then open_existing a else gave_up (codes "shm_open"))
  | created (suc fd) ↦ (if a.truncates then map_or_exit a (suc fd) true else gave_up [])
  | exists_already ↦ open_existing a
  | create_failed ↦ gave_up (codes "shm_open")
]

-- ftruncate fills a new object with zeros.
abbrev pub new_memory : Buffer
new_memory = replicate sz_shm_segment 0

-- `input[strlen(input)-1] = '\0'`, without a byte in front of which to write for an empty text.
unfoldable pub chop : CString → Option CString
chop [] = none
chop (c ∷ []) = some []
chop (c ∷ d ∷ s) = elim (chop (d ∷ s)) [ none ↦ none | some r ↦ some (c ∷ r) ]

-- memcpy to the start of the memory.
abbrev pub memcpy : Buffer → CString → Buffer
memcpy memory s = s ++ drop (length s) memory

-- The processes have one memory; `inputs` and `is_open` are those of each process.
pub record World : Type 0 where
  pub memory : Buffer
  pub is_open : ℕ → Bool
  -- what the command * has printed, newest first
  pub shown : List CString

abbrev pub leave : ℕ → (ℕ → Bool) → ℕ → Bool
leave i is_open j = if i == j then false else is_open j

-- A process executes a line behind fgets. `none` is a write in front of `input`.
unfoldable pub command : ℕ → CString → World → Option World
unfolding chop
command i [] w = none
command i (c ∷ line) w =
    let text = cstr (c ∷ line) in
    let chopped = chop text in
    if c == 46
    then some (record w { is_open = leave i w.is_open })
    else if c == 42
    then some (record w { shown = cstr w.memory ∷ w.shown })
    else elim chopped [ none ↦ none | some s ↦ some (record w { memory = memcpy w.memory s }) ]

-- The processes in any order; one that has left its loop reads no command.
unfoldable pub run : List (ℕ × CString) → World → Option World
unfolding command
run [] w = some w
run ((i, line) ∷ ts) w =
    if w.is_open i then elim (command i line w) [ none ↦ none | some v ↦ run ts v ] else run ts w

-- Behind the loop: whether the object is removed, by what `input` begins with after one more fgets.
unfoldable pub is_unlinked : CString → Bool
is_unlinked [] = false
is_unlinked (c ∷ line) = c == 121
