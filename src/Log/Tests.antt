-- ===== src/Log/Tests.antt =====
-- The theorems on kernel/log.c at a transaction of two blocks.
use osmini_project.Base.{true, ℕ, ◌+◌, ◌≡◌, refl, false, [], ◌∷◌, some, arith}
use osmini_project.Log.{
  install_trans, write_log, Disk, Log, bwrites, commit, recover_from_log, recover_writes, begin_op,
  end_op, maxopblocks,
}
use osmini_project.Log.Recovery.{take, recover_from_log-crash}
use osmini_project.Log.Commit.{IsAtomic, committed, commit-IsAtomic, commit_lem}
use osmini_project.Log.Space.{Reachable, HasRoom, Reachable-HasRoom, end_op_succeeds}

-- A block is a number here; block `b` has `b` at home and `b + 100` in the cache.
abbrev disk : Disk ℕ
disk = record { head = []; log_block = λ _. 0; home = λ b. b }

abbrev cache : ℕ → ℕ
cache b = b + 100

-- The machine stops when one of two blocks is at home.
commit-IsAtomic_example :
    IsAtomic cache
      (7 ∷ 3 ∷ [])
      disk.home
      (recover_from_log (bwrites (take 4 (commit cache (7 ∷ 3 ∷ []) disk)) disk)).home
commit-IsAtomic_example = commit-IsAtomic cache 4 (7 ∷ 3 ∷ []) disk refl

-- Its blocks are all there after the recovery, and none is if it stops two writes before.
late_crash :
    (recover_from_log (bwrites (take 4 (commit cache (7 ∷ 3 ∷ []) disk)) disk)).home 3 ≡ 103
unfolding recover_from_log recover_writes bwrites commit write_log install_trans
late_crash = refl

early_crash : (recover_from_log (bwrites (take 2 (commit cache (7 ∷ 3 ∷ []) disk)) disk)).home 3 ≡ 3
unfolding recover_from_log recover_writes bwrites commit write_log install_trans
early_crash = refl

commit_lem_run :
    let d' = bwrites (commit cache (7 ∷ 3 ∷ []) disk) disk in
    (d'.head ≡ []) × (d'.home 3 ≡ committed cache (7 ∷ 3 ∷ []) disk.home 3)
commit_lem_run = commit_lem cache (7 ∷ 3 ∷ []) disk 3 refl

abbrev crashed : Disk ℕ
crashed = record { head = 7 ∷ 3 ∷ []; log_block = λ t. t + 50; home = λ b. b }

recover_from_log-crash_example :
    (recover_from_log (bwrites (take 1 (recover_writes crashed)) crashed)).home 3
    ≡ (recover_from_log crashed).home 3
recover_from_log-crash_example = recover_from_log-crash 1 crashed 3

abbrev one_open : Log
one_open = record { outstanding = 1; committing = false; lh = [] }

one_open-Reachable : Reachable one_open (maxopblocks ∷ [])
unfolding begin_op
one_open-Reachable = Reachable.begins Reachable.starts refl

one_open-HasRoom : HasRoom one_open (maxopblocks ∷ [])
one_open-HasRoom = Reachable-HasRoom one_open-Reachable

end_op_succeeds_run :
    end_op one_open ≡ some (record one_open { outstanding = 0; committing = true }, true)
end_op_succeeds_run = end_op_succeeds 0 one_open-Reachable (omega arith)
