-- ===== src/Threads/Cleanup.antt =====
-- ch08/ex08.c: a thread with a cleanup handler, which main may cancel.
use linux_systemprogramming.Common.{
  ℕ, ◌+◌, ◌≡◌, ◌≢◌, refl, Bool, true, false, Option, none, some, List, [], ◌∷◌, ◌++◌, length,
  length-append, leb, if◌then◌else◌, arith,
}
use linux_systemprogramming.Common.Text.{CString, codes, str_eq}

pub data Event : Type 0 where
  printed : CString → Event
  complained : CString → Event
  -- `malloc` of so many bytes, the text at `ptr` with its NUL, a `printf` of it, and `free`
  allocated : ℕ → Event
  wrote : CString → Event
  shown : CString → Event
  freed : Event

-- The cancellation points behind malloc: a printf may be one.
pub data Point : Type 0 where
  first_print last_print sleeping : Point

pub data End : Type 0 where
  returned : List Event → End
  cancelled : List Event → End

abbrev pub suffix : CString
suffix = codes "_handler"

unfoldable pub cleanup : CString → List Event
cleanup text = shown text ∷ freed ∷ printed (codes "cleanup : free called\n") ∷ []

abbrev pub before : List Event → End → End
before es (returned fs) = returned (es ++ fs)
before es (cancelled fs) = cancelled (es ++ fs)

abbrev pub written : CString → List Event
written arg = printed (codes "thread_function start\n") ∷ wrote arg ∷ wrote (arg ++ suffix) ∷ []

-- With the point at which a cancellation takes effect, if any.
unfoldable pub thread_function : CString → Option Point → End
unfolding cleanup
thread_function arg point = before (allocated (length arg + length suffix + 1) ∷ []) (elim point [
  | none ↦ returned (written arg ++ freed ∷ printed (codes "thread_function : free called\n") ∷ [])
  | some first_print ↦ cancelled []
  | some sleeping ↦ cancelled (written arg ++ cleanup (arg ++ suffix))
  | some last_print ↦ cancelled (written arg ++ freed ∷ [])
])

abbrev pub events : End → List Event
events (returned es) = es
events (cancelled es) = es

-- `main`: its status and all that happens; `point` is where a cancellation would take effect.
unfoldable pub main : List CString → Bool → Option Point → ℕ × List Event
unfolding thread_function
main (name ∷ value ∷ []) is_created point = (
  if is_created then 0 else 1,
  printed (codes "main start\n")
      ∷ (if is_created
          then events
              (thread_function value (if str_eq value (codes "cleanup") then point else none))
            ++ printed (codes "main end\n") ∷ []
          else complained (codes "pthread_create1") ∷ []),
)
main args is_created point =
    (1, printed (codes "main start\n") ∷ complained (codes "Usage : [thread | cleanup]\n") ∷ [])

-- The size of the allocated memory behind these events; the outer `none` is an access out of bounds or
-- to memory that is not allocated, or a second allocation.
abbrev pub heap : Option ℕ → List Event → Option (Option ℕ)
heap memory [] = some memory
heap none (allocated n ∷ es) = heap (some n) es
heap (some m) (allocated n ∷ es) = none
heap none (wrote text ∷ es) = none
heap (some m) (wrote text ∷ es) =
    let rest = heap (some m) es in if leb (length text + 1) m then rest else none
heap none (shown text ∷ es) = none
heap (some m) (shown text ∷ es) = heap (some m) es
heap none (freed ∷ es) = none
heap (some m) (freed ∷ es) = heap none es
heap memory (printed text ∷ es) = heap memory es
heap memory (complained text ∷ es) = heap memory es

fits_arg : (arg : CString) → leb (length arg + 1) (length arg + length suffix + 1) ≡ true
fits_arg arg = ground arith

fits_all :
    (arg : CString) → leb (length (arg ++ suffix) + 1) (length arg + length suffix + 1) ≡ true
fits_all arg = ground (arith, length-append arg suffix)

thread_frees :
    (arg : CString) (point : Option Point)
    → point ≢ some first_print
    → heap none (events (thread_function arg point) ++ printed (codes "main end\n") ∷ [])
      ≡ some none
unfolding thread_function cleanup
thread_frees arg none h = rw (heap, fits_arg arg, heap, fits_all arg) refl
thread_frees arg (some first_print) h = absurd (h refl)
thread_frees arg (some sleeping) h = rw (heap, fits_arg arg, heap, fits_all arg) refl
thread_frees arg (some last_print) h = rw (heap, fits_arg arg, heap, fits_all arg) refl

-- On every path of main no access is out of bounds, no memory is freed twice or used behind free, and
-- none is left; unless the cancellation takes effect at the printf in front of pthread_cleanup_push.
pub main_frees :
    (args : List CString) (is_created : Bool) (point : Option Point)
    → point ≢ some first_print
    → heap none (main args is_created point).1 ≡ some none
unfolding main
main_frees [] b point h = refl
main_frees (name ∷ []) b point h = refl
main_frees (name ∷ value ∷ []) true point h =
    thread_frees value _ (chosen (str_eq value (codes "cleanup")))
  where
    chosen : (b : Bool) → (if b then point else none) ≢ some first_print
    chosen true = h
    chosen false = λ e. cc
main_frees (name ∷ value ∷ []) false point h = refl
main_frees (name ∷ value ∷ more ∷ args) b point h = refl
