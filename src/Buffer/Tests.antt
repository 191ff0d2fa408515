-- ===== src/Buffer/Tests.antt =====
-- Tests of kernel/bio.c, and the theorems at concrete inputs.
use operating_systems_ass.Base.{ℕ, ◌≡◌, refl, false, none, some, ◌≢◌, ◌+◌, ◌^◌, ◌<◌, arith, Option}
use operating_systems_ass.Buffer.{
  Buf, Bcache, Drive, Got, got, sleeps, panics, link_all, binit, is_block, find_cached, find_free,
  lock_from, lock_buf, recycle, bget_from, bget, fill, bread,
}
use operating_systems_ass.Buffer.View.{IsCoherent}
use operating_systems_ass.Buffer.Read.{Reads, bread-Reads}

abbrev unused_buf : Buf
unused_buf = record {
  valid = false;
  dev = 0;
  blockno = 0;
  lock = none;
  refcnt = 0;
  content = λ _. 0;
}

abbrev fresh : Bcache
fresh = binit (λ _. unused_buf)

-- Every word of block b is b.
abbrev drive : Drive
drive dev blockno w = blockno

other_device : (dev blockno : ℕ) → dev ≢ 0 → is_block unused_buf dev blockno ≡ false
other_device dev blockno n = ground arith

fresh-IsCoherent : IsCoherent fresh drive
unfolding binit
fresh-IsCoherent = record {
  unique = λ i j dev blockno n mi mj hi hj. absurd (cc (hi, other_device dev blockno n));
  clean = λ i m z v. absurd (cc v);
}

-- The list begins with the last buffer, and its end is taken first.
abbrev taken : Got → Option ℕ
taken (got i c) = some i
taken (sleeps i c) = none
taken panics = none

first_taken : taken (bread drive 3 1 46 fresh) ≡ some 0
unfolding bread fill bget bget_from recycle lock_buf lock_from binit link_all find_cached find_free
first_taken = refl

bread-Reads_example : Reads drive 3 1 46 (omega arith) fresh (bread drive 3 1 46 fresh)
unfolding binit
bread-Reads_example = bread-Reads drive 3 1 46 (omega arith) fresh fresh-IsCoherent small
  where
    small : (i : ℕ) → (fresh.bufs i).refcnt + 1 < 2 ^ 32
    small i = omega arith
