-- ===== src/Log/Tests.antt =====
-- Tests of kernel/log.c, and the theorems at concrete inputs.
use operating_systems_ass.Base.{
  ℕ, ◌≤◌, ◌<◌, ◌≡◌, refl, ◌≢◌, inr, false, List, [], ◌∷◌, arith, length, take, update,
}
use operating_systems_ass.Log.{
  max_op_blocks, Disk, apply, Cache, Log, ok, panic, begin_op, end_op, log_write, commit, write_log,
  write_head, install_trans,
}
use operating_systems_ass.Log.Crash.{after_tx}
use operating_systems_ass.Log.Phases.{recovered}
use operating_systems_ass.Log.Atomic.{commit_atomic}
use operating_systems_ass.Log.Space.{opens, Reach, boot, later, within_share}
use operating_systems_ass.Log.Small.{AllNew, write_each, full_share_panics}

-- Every word of block b is b, but the log header at block 2 is clear.
abbrev disk : Disk
disk = update (λ b. λ w. b) 2 (λ w. 0)

-- Blocks 50 and 60 are changed in the cache.
abbrev cache : Cache
cache = record { view = update (update disk 50 (λ w. 7)) 60 (λ w. 8); pins = λ b. 1 }

written :
    (apply (commit 2 (50 ∷ 60 ∷ []) cache).1 disk 50 3 ≡ 7)
    × (length (commit 2 (50 ∷ 60 ∷ []) cache).1 ≡ 6)
unfolding apply commit write_log write_head install_trans
written = (refl, refl)

-- The blocks of the transaction.
abbrev logged : List ℕ
logged = 50 ∷ 60 ∷ []

commit_atomic_example :
    let d' = recovered 2 (λ b. 0) (apply (take 4 (commit 2 logged cache).1) disk) in
    (4 ≤ length logged → d' 60 ≡ disk 60)
    × (length logged < 4 → d' 60 ≡ after_tx cache.view logged disk 60)
commit_atomic_example =
    commit_atomic 30 2 50 (60 ∷ []) cache disk (λ b. 0) (omega arith)
      (inr (omega arith), (inr (omega arith), tt)) refl 4 60 (inr (omega arith))

abbrev booted : Log
booted = record { start = 2; size = 31; outstanding = 0; committing = false; blocks = [] }

abbrev opened : Log
opened = record booted { outstanding = 1 }

opened-Reach : Reach 31 2 (record { log = opened; shares = max_op_blocks ∷ [] })
unfolding begin_op
opened-Reach = later boot (opens {l = booted} {l' = opened} refl)

within_share_example :
    (0 < 10 → (b : ℕ) (c : Cache) → log_write b opened c ≢ panic) × (end_op opened ≢ panic)
within_share_example = within_share 10 [] [] (omega arith) opened-Reach refl

abbrev many : List ℕ
many =
    50 ∷ 51 ∷ 52 ∷ 53 ∷ 54 ∷ 55 ∷ 56 ∷ 57 ∷ 58 ∷ 59 ∷ 60 ∷ 61 ∷ 62 ∷ 63 ∷ 64 ∷ 65 ∷ 66 ∷ 67 ∷ 68
    ∷ 69 ∷ 70 ∷ 71 ∷ 72 ∷ 73 ∷ 74 ∷ 75 ∷ 76 ∷ 77 ∷ 78 ∷ []

abbrev small : Log
small = record { start = 2; size = 30; outstanding = 0; committing = false; blocks = [] }

many-AllNew : AllNew [] many
many-AllNew = ground arith

full_share_panics_example :
    (begin_op small ≡ ok (record small { outstanding = 1 }))
    × (begin_op (record small { outstanding = 1 }) ≡ ok (record small { outstanding = 2 }))
    × (begin_op (record small { outstanding = 2 }) ≡ ok (record small { outstanding = 3 }))
    × (u : Log) × (c' : Cache) × (write_each many (record small { outstanding = 3 }, cache)
        ≡ ok (u, c'))
    × ((b : ℕ) (d : Cache) → log_write b u d ≡ panic)
full_share_panics_example = full_share_panics small many cache refl refl refl refl refl many-AllNew
