-- ===== src/Files/Tests.antt =====
-- The theorems on kernel/file.c at a table with one open pipe end, in two hands.
use osmini_project.Base.{ℕ, ◌≢◌, ◌≡◌, refl, true, false, some, List, [], ◌∷◌, arith, zero, suc}
use osmini_project.Files.{
  Closing, fd_device, File, fd_pipe, zero_file, file_at, filealloc, filedup, fileclose, nothing,
}
use osmini_project.Files.Count.{
  IsClosedBy, count, IsCounted, fileclose_lem, filedup_lem, filealloc-eq-some,
}

abbrev pipe_end : File
pipe_end = record { kind = fd_pipe 3; ref = 2; readable = false; writable = true; off = 0 }

abbrev table : List File
table = pipe_end ∷ zero_file ∷ []

table-IsCounted : IsCounted table (0 ∷ 0 ∷ [])
table-IsCounted = record { refs = refs; few = omega arith }
  where
    refs : (i : ℕ) → (file_at table i).ref ≡ count i (0 ∷ 0 ∷ [])
    refs zero = refl
    refs (suc zero) = refl
    refs (suc (suc i)) = ground arith

-- The console with one handle.
abbrev devices : List File
devices = record zero_file { kind = fd_device 5 1; ref = 1 } ∷ []

devices-IsCounted : IsCounted devices (0 ∷ [])
devices-IsCounted = record { refs = λ i. cases i; few = omega arith }
  where
    cases : (i : ℕ) → (file_at devices i).ref ≡ count i (0 ∷ [])
    cases zero = refl
    cases (suc i) = ground arith

fileclose_lem_example :
    (fs' : List File) × (c : Closing) × (fileclose 0 devices ≡ some (fs', c))
    × IsCounted fs' []
    × (count 0 (0 ∷ []) ≡ 1 → IsClosedBy (file_at devices 0) c)
    × (count 0 (0 ∷ []) ≢ 1 → c ≡ nothing)
fileclose_lem_example = fileclose_lem 0 devices (0 ∷ []) devices-IsCounted (omega arith)

filedup_lem_run : (fs' : List File) × (filedup 0 table ≡ some fs') × IsCounted fs' (0 ∷ 0 ∷ 0 ∷ [])
filedup_lem_run = filedup_lem 0 table (0 ∷ 0 ∷ []) table-IsCounted (omega arith) (omega arith)

filealloc_table : filealloc table ≡ some (1, pipe_end ∷ record zero_file { ref = 1 } ∷ [])
unfolding filealloc
filealloc_table = refl

filealloc-eq-some_run :
    (count 1 (0 ∷ 0 ∷ []) ≡ 0)
    × IsCounted (pipe_end ∷ record zero_file { ref = 1 } ∷ []) (1 ∷ 0 ∷ 0 ∷ [])
filealloc-eq-some_run =
    filealloc-eq-some table (0 ∷ 0 ∷ []) table-IsCounted (omega arith) filealloc_table
