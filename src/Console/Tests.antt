-- ===== src/Console/Tests.antt =====
-- The theorems on kernel/console.c where `r` and `w` are about to wrap and one letter is typed.
use osmini_project.Base.{true, false, ◌≡◌, refl, [], ◌∷◌, arith, replicate, set}
use osmini_project.Console.{Cons, read_line, consoleintr, input_buf_size}
use osmini_project.Console.Spec.{typed_of, edit, IsValid}
use osmini_project.Console.Editing.{consoleintr_lem}
use osmini_project.Console.Reading.{gives, outcome, read_line_lem}

abbrev typing : Cons
typing = record {
  buf = set (replicate input_buf_size 0) 127 b'l';
  r = 4294967295;
  w = 4294967295;
  e = 0;
  echoed = b'l' ∷ [];
  wakes = 0;
}

typing-IsValid : IsValid typing
typing-IsValid = record {
  room = refl;
  read_range = omega arith;
  write_range = omega arith;
  edit_range = omega arith;
  bounded = omega arith;
  plain = (refl, tt);
}

-- The return key.
consoleintr_lem_example :
    IsValid (consoleintr 13 typing) × (typed_of (consoleintr 13 typing) ≡ edit 13 (typed_of typing))
consoleintr_lem_example = consoleintr_lem 13 typing typing-IsValid

line_done : (edit 13 (typed_of typing)).lines ≡ b'l' ∷ 10 ∷ []
line_done = refl

-- One line is complete.
abbrev complete : Cons
complete = record {
  buf = set (set (replicate input_buf_size 0) 127 b'l') 0 10;
  r = 4294967295;
  w = 1;
  e = 1;
  echoed = b'l' ∷ 10 ∷ [];
  wakes = 1;
}

complete-IsValid : IsValid complete
complete-IsValid = record {
  room = refl;
  read_range = omega arith;
  write_range = omega arith;
  edit_range = omega arith;
  bounded = omega arith;
  plain = tt;
}

read_line_lem_example :
    outcome (read_line false [] (replicate 9 true) complete) ≡ gives 2 (b'l' ∷ 10 ∷ []) []
read_line_lem_example = read_line_lem false 9 [] complete complete-IsValid
