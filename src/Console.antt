-- ===== src/Console.antt =====
-- kernel/console.c: the ring of typed bytes with its line editing. A call of `consoleread` runs under
-- the lock until it returns or sleeps.
pub mod Ring
pub mod Spec
pub mod Erasing
pub mod Storing
pub mod Editing
pub mod Reading
mod Tests
use osmini_project.Base.{
  ℕ, zero, suc, ◌+◌, ◌%◌, ◌<◌, Bool, true, false, not, ◌&&◌, ◌||◌, List, [], ◌∷◌, ◌++◌, get_or, set,
  length, ◌==◌, ltb, if◌then◌else◌, add32, sub32, minus_one,
}

-- INPUT_BUF_SIZE.
abbrev pub input_buf_size : ℕ
input_buf_size = 128

abbrev pub newline : ℕ
newline = 10

-- C('D').
abbrev pub end_of_file : ℕ
end_of_file = 4

-- What `consputc` is given to erase a character.
abbrev pub backspace : ℕ
backspace = 256

-- `cons`, what was echoed, and the number of calls of `wakeup(&cons.r)`.
pub record Cons : Type 0 where
  pub buf : List ℕ
  pub r : ℕ
  pub w : ℕ
  pub e : ℕ
  pub echoed : List ℕ
  pub wakes : ℕ

abbrev pub consputc : ℕ → Cons → Cons
consputc c k = record k { echoed = k.echoed ++ c ∷ [] }

-- `cons.e--; consputc(BACKSPACE)`.
unfoldable pub erase : Cons → Cons
erase k = consputc backspace (record k { e = sub32 k.e 1 })

-- The loop of C('U'), with `rounds` characters between `w` and `e`.
unfoldable pub kill_line : (rounds : ℕ) → Cons → Cons
kill_line zero k = k
kill_line (suc rounds) k =
    let more = kill_line rounds (erase k) in
    if not (k.e == k.w) && not (get_or k.buf (sub32 k.e 1 % input_buf_size) 0 == newline)
    then more
    else k

-- A byte is stored and echoed.
unfoldable pub store_char : ℕ → Cons → Cons
store_char c k =
    let k1 = consputc c k in record k1 { buf = set k.buf (k.e % input_buf_size) c; e = add32 k.e 1 }

-- `cons.w = cons.e; wakeup(&cons.r)`.
abbrev pub commit_line : Cons → Cons
commit_line k = record k { w = k.e; wakes = k.wakes + 1 }

-- The default case, with `\r` replaced.
unfoldable pub type_char : ℕ → Cons → Cons
type_char c k =
    if not (c == 0) && ltb (sub32 k.e k.r) input_buf_size
    then (let ch = if c == 13 then newline else c in
        let k1 = store_char ch k in
        if (ch == newline) || ((ch == end_of_file) || (sub32 k1.e k1.r == input_buf_size))
        then commit_line k1
        else k1)
    else k

-- `consoleintr`; C('P') only prints.
unfoldable pub consoleintr : ℕ → Cons → Cons
consoleintr c k =
    if c == 16
    then k
    else if c == 21
    then kill_line (sub32 k.e k.w) k
    else if (c == 8) || (c == 127)
    then (if k.e == k.w then k else erase k)
    else type_char c k

-- What `consoleread` comes to, with the bytes that it has copied to `dst` and on: it returns -1, sleeps with
-- `n` bytes to go, or returns.
pub data ReadLine : Type 0 where
  read_killed : (copied : List ℕ) → Cons → ReadLine
  read_sleeps : (n : ℕ) (copied : List ℕ) → Cons → ReadLine
  read_returns : (result : ℕ) (copied : List ℕ) → Cons → ReadLine

-- The loop of `consoleread` with the results of `either_copyout` for the bytes that are to go; `copied` are the
-- bytes at `dst` so far.
unfoldable pub read_line : (killed : Bool) (copied : List ℕ) → List Bool → Cons → ReadLine
read_line killed copied [] k = read_returns (length copied) copied k
read_line killed copied (good ∷ rest) k =
    let c = get_or k.buf (k.r % input_buf_size) 0 in
    let k1 = record k { r = add32 k.r 1 } in
    let next = read_line killed (copied ++ c ∷ []) rest k1 in
    if k.r == k.w
    then (if killed then read_killed copied k else read_sleeps (length (good ∷ rest)) copied k)
    else if c == end_of_file
    then (if ltb 0 (length copied)
        then read_returns (length copied) copied k
        else read_returns (length copied) copied k1)
    else if not good
    then read_returns (length copied) copied k1
    else if c == newline
    then read_returns (length copied + 1) (copied ++ c ∷ []) k1
    else next
