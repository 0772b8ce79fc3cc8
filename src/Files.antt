-- ===== src/Files.antt =====
-- kernel/file.c: the table of open files and the counts of their references.
pub mod Count
mod Tests
use osmini_project.Base.{
  ℕ, ◌+◌, ◌<◌, Bool, true, false, List, Option, none, some, find_from, get_or, modify, ◌==◌, ltb,
  leb, if◌then◌else◌, add32, sub32, is_nonpositive, replicate,
}

-- What an open file stands for: FD_NONE, FD_PIPE, FD_INODE, FD_DEVICE.
pub data Kind : Type 0 where
  fd_none : Kind
  fd_pipe : (pipe : ℕ) → Kind
  fd_inode : (ip : ℕ) → Kind
  fd_device : (ip major : ℕ) → Kind

-- `struct file`.
pub record File : Type 0 where
  pub kind : Kind
  pub ref : ℕ
  pub readable : Bool
  pub writable : Bool
  pub off : ℕ

abbrev pub zero_file : File
zero_file = record { kind = fd_none; ref = 0; readable = false; writable = false; off = 0 }

-- NFILE.
abbrev pub nfile : ℕ
nfile = 100

-- `ftable.file` when the kernel starts.
abbrev pub fileinit : List File
fileinit = replicate nfile zero_file

abbrev pub file_at : List File → ℕ → File
file_at fs f = get_or fs f zero_file

-- `f->ref < 1`.
abbrev pub is_closed : File → Bool
is_closed f = is_nonpositive f.ref

unfoldable pub filealloc : List File → Option (ℕ × List File)
filealloc fs = elim (find_from 0 (λ (f : File). f.ref == 0) fs) [
  | none ↦ none
  | some i ↦ some (i, modify fs i (λ f. record f { ref = 1 }))
]

-- `none` is a panic.
unfoldable pub filedup : ℕ → List File → Option (List File)
filedup i fs =
    if is_closed (file_at fs i)
    then none
    else some (modify fs i (λ f. record f { ref = add32 f.ref 1 }))

-- What `fileclose` goes on to close.
pub data Closing : Type 0 where
  nothing : Closing
  closes_pipe : (pipe : ℕ) (writable : Bool) → Closing
  puts_inode : (ip : ℕ) → Closing

abbrev pub closing : File → Closing
closing f = elim f.kind [
  | fd_none ↦ nothing
  | fd_pipe pipe ↦ closes_pipe pipe f.writable
  | fd_inode ip ↦ puts_inode ip
  | fd_device ip _ ↦ puts_inode ip
]

-- `--f->ref > 0`.
abbrev pub is_shared : File → Bool
is_shared f = let left = sub32 f.ref 1 in if is_nonpositive left then false else true

unfoldable pub fileclose : ℕ → List File → Option (List File × Closing)
fileclose i fs =
    let f = file_at fs i in
    if is_closed f
    then none
    else if is_shared f
    then some (modify fs i (λ f. record f { ref = sub32 f.ref 1 }), nothing)
    else some (modify fs i (λ f. record f { ref = 0; kind = fd_none }), closing f)
