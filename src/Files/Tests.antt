-- ===== src/Files/Tests.antt =====
-- The file programs on concrete answers.
use linux_systemprogramming.Common.{◌≡◌, refl, true, false, some, [], ◌∷◌}
use linux_systemprogramming.Common.Text.{codes}
use linux_systemprogramming.Files.Copy.{
  Answers, copy, transfer, IsClean, is_success, is_complete, copy-IsClean,
}
use linux_systemprogramming.Files.Print.{print_loop, printed}

abbrev usual : Answers
usual = record {
  source = some 3;
  fstat = some 5;
  stale_size = 0;
  has_memory = true;
  target = some 4;
  read = some (codes "hosts");
  write = some 5;
}

usual_text : is_success (copy usual).1 ≡ true
unfolding copy transfer
usual_text = refl

-- The disk is full.
full_text : is_success (copy (record usual { write = some 2 })).1 ≡ false
unfolding copy transfer
full_text = refl

-- Two of the five bytes are read, and that is all that is copied.
short_text : is_success (copy (record usual { read = some (codes "ho"); write = some 2 })).1 ≡ true
unfolding copy transfer
short_text = refl

copy-IsClean_example : IsClean (copy usual) × (is_success (copy usual).1 ≡ is_complete usual)
copy-IsClean_example = copy-IsClean usual

-- The second byte of the buffer is printed, which no read has written.
stale_text : print_loop (codes "xyz") (some (codes "a") ∷ []) ≡ printed (codes "ayz") ∷ []
unfolding print_loop
stale_text = refl
