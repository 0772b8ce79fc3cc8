-- ===== src/Log.antt =====
-- kernel/log.c: the redo log of the file system. A block is an element of `B`. On the disk the log has
-- its header and its blocks, and the blocks that the log protects are at home: none of these is a
-- block of the log.
pub mod Commit
pub mod Recovery
pub mod Space
mod Tests
use osmini_project.Base.{
  update, ℕ, suc, ◌+◌, ◌*◌, sub32, Bool, true, false, ◌||◌, List, [], ◌∷◌, ◌++◌, Option, none, some,
  ◌==◌, ltb, leb, if◌then◌else◌, length,
}

-- LOGBLOCKS and MAXOPBLOCKS.
abbrev pub logblocks : ℕ
logblocks = 30

abbrev pub maxopblocks : ℕ
maxopblocks = 10

-- The disk: `log.start` holds the header, `log.start+tail+1` the block `tail` of the log.
pub record Disk (B : Type 0) : Type 0 where
  pub head : List ℕ
  pub log_block : ℕ → B
  pub home : ℕ → B

-- A `bwrite` of log.c.
pub data Write (B : Type 0) : Type 0 where
  write_block : (tail : ℕ) → B → Write B
  write_header : List ℕ → Write B
  write_home : (blockno : ℕ) → B → Write B

abbrev pub bwrite : {B : Type 0} → Write B → Disk B → Disk B
bwrite (write_block tail v) d = record d { log_block = update d.log_block tail v }
bwrite (write_header lh) d = record d { head = lh }
bwrite (write_home b v) d = record d { home = update d.home b v }

-- The disk after a list of writes.
unfoldable pub bwrites : {B : Type 0} → List (Write B) → Disk B → Disk B
bwrites [] d = d
bwrites (w ∷ ws) d = bwrites ws (bwrite w d)

module _ {B : Type 0} where
  -- The writes of `write_log` from `tail` on; `bread` of a block that is pinned gives it as `cache`
  -- has it.
  unfoldable pub write_log : (cache : ℕ → B) (tail : ℕ) (lh : List ℕ) → List (Write B)
  write_log cache tail [] = []
  write_log cache tail (b ∷ lh) = write_block tail (cache b) ∷ write_log cache (tail + 1) lh

  -- The writes of `install_trans` from `tail` on, on the disk `d`.
  unfoldable pub install_trans : (tail : ℕ) (lh : List ℕ) → Disk B → List (Write B)
  install_trans tail [] d = []
  install_trans tail (b ∷ lh) d =
      let w = write_home b (d.log_block tail) in w ∷ install_trans (tail + 1) lh (bwrite w d)

  -- The writes of `commit` of the transaction `lh`, in their order.
  unfoldable pub commit : (cache : ℕ → B) (lh : List ℕ) → Disk B → List (Write B)
  commit cache [] d = []
  commit cache (b ∷ lh) d =
      let logged = write_log cache 0 (b ∷ lh) in
      let d1 = bwrite (write_header (b ∷ lh)) (bwrites logged d) in
      logged ++ (write_header (b ∷ lh) ∷ (install_trans 0 (b ∷ lh) d1 ++ write_header [] ∷ []))

  -- The writes of `recover_from_log`.
  unfoldable pub recover_writes : Disk B → List (Write B)
  recover_writes d = install_trans 0 d.head d ++ write_header [] ∷ []

  unfoldable pub recover_from_log : Disk B → Disk B
  recover_from_log d = bwrites (recover_writes d) d

-- `struct log`: the operations under way, whether it commits, and the header in memory.
pub record Log : Type 0 where
  pub outstanding : ℕ
  pub committing : Bool
  pub lh : List ℕ

-- A pass of the loop of `begin_op`: `none` is a sleep.
unfoldable pub begin_op : Log → Option Log
begin_op l =
    if l.committing
    then none
    else if ltb logblocks (length l.lh + (l.outstanding + 1) * maxopblocks)
    then none
    else some (record l { outstanding = l.outstanding + 1 })

-- The loop over `log.lh.block`, which adds a block that is not there at the end.
unfoldable pub absorb : ℕ → List ℕ → List ℕ
absorb b [] = b ∷ []
absorb b (x ∷ xs) = let rest = absorb b xs in if x == b then x ∷ xs else x ∷ rest

-- `log_write` of a block: `none` is a panic.
unfoldable pub log_write : ℕ → Log → Option Log
log_write b l =
    if leb logblocks (length l.lh)
    then none
    else if ltb l.outstanding 1
    then none
    else some (record l { lh = absorb b l.lh })

-- `end_op` up to its commit, and whether it commits; `none` is a panic.
unfoldable pub end_op : Log → Option (Log × Bool)
end_op l =
    if l.committing
    then none
    else if sub32 l.outstanding 1 == 0
    then some (record l { outstanding = 0; committing = true }, true)
    else some (record l { outstanding = sub32 l.outstanding 1 }, false)

-- The end of `end_op` when `commit` is done.
unfoldable pub end_commit : Log → Log
end_commit l = record l { committing = false; lh = [] }
