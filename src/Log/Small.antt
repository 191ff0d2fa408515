-- ===== src/Log/Small.antt =====
-- A log of LOGSIZE blocks, the size that mkfs gives it, one of which holds the header.
use operating_systems_ass.Base.{
  ℕ, ◌+◌, ◌-◌, ◌*◌, ◌<◌, ◌≡◌, refl, ◌∙◌, sym, ap, ltb, leb, update, true, false, ◌||◌, List, [],
  ◌∷◌, ◌++◌, arith, length, length-append, ◌==◌,
}
use mathlib.Core.Path.{subst}
use mathlib.Core.List.{append-nil}
use operating_systems_ass.Log.{
  max_op_blocks, log_size, Cache, Log, Result, ok, sleeping, panic, begin_op, log_block, log_write,
}
use operating_systems_ass.Log.Crash.{mem}

-- A log_write of each block of a list
unfoldable pub logs_after :
    (Log × Cache → Result (Log × Cache)) → Result (Log × Cache) → Result (Log × Cache)
logs_after next (ok s) = next s
logs_after next sleeping = sleeping
logs_after next panic = panic

unfoldable pub write_each : List ℕ → Log × Cache → Result (Log × Cache)
write_each [] s = ok s
write_each (b ∷ bs) (l, c) = logs_after (write_each bs) (log_write b l c)

-- The blocks `bs` are different, and none of `logged`.
abbrev pub AllNew : (logged bs : List ℕ) → Type 0
AllNew logged [] = Unit
AllNew logged (b ∷ bs) = (mem b logged ≡ false) × AllNew (logged ++ (b ∷ [])) bs

log_block_new : (b : ℕ) (xs : List ℕ) → mem b xs ≡ false → log_block b xs ≡ (xs ++ (b ∷ []), true)
unfolding log_block
log_block_new b [] h = refl
log_block_new b (x ∷ xs) h =
    let rest : mem b xs ≡ false = ground (arith, h) in
    let other : (x == b) ≡ false = ground (arith, h) in rw (log_block_new b xs rest, other) refl

module _ (l : Log) (b : ℕ) (c : Cache) where
  -- A block that is not in the log is added to it.
  log_write_new :
      0 < l.outstanding
      → l.size ≡ log_size
      → length l.blocks + 1 < log_size
      → mem b l.blocks ≡ false
      → (c' : Cache) × (log_write b l c ≡ ok (record l { blocks = l.blocks ++ (b ∷ []) }, c'))
  unfolding log_write
  log_write_new open_ size room new =
      let small : (leb log_size (length l.blocks) || leb (l.size - 1) (length l.blocks)) ≡ false =
        ground arith in
      let some_op : ltb l.outstanding 1 ≡ false = ground arith in
      (
        record c { pins = update c.pins b (c.pins b + 1) },
        rw (log_block_new b l.blocks new, small, some_op) refl,
      )

append_one : (xs : List ℕ) (b : ℕ) (ys : List ℕ) → (xs ++ (b ∷ [])) ++ ys ≡ xs ++ (b ∷ ys)
append_one [] b ys = refl
append_one (x ∷ xs) b ys = ap (λ l. x ∷ l) (append_one xs b ys)

write_each_new :
    (bs : List ℕ) (l : Log) (c : Cache)
    → 0 < l.outstanding
    → l.size ≡ log_size
    → length l.blocks + length bs < log_size
    → AllNew l.blocks bs
    → (c' : Cache) × (write_each bs (l, c) ≡ ok (record l { blocks = l.blocks ++ bs }, c'))
unfolding write_each logs_after
write_each_new [] l c open_ size room new =
    (c, ap (λ (bs : List ℕ). ok (record l { blocks = bs }, c)) (sym (append-nil l.blocks)))
write_each_new (b ∷ bs) l c open_ size room new =
    let first = log_write_new l b c open_ size (omega arith) new.0 in
    let l' : Log = record l { blocks = l.blocks ++ (b ∷ []) } in
    let rest =
      write_each_new bs l' first.0 open_ size (omega (arith, length-append l.blocks (b ∷ [])))
        new.1 in
    (
      rest.0,
      rw first.1 (
          rest.1
          ∙ ap (λ (bs : List ℕ). ok (record l { blocks = bs }, rest.0)) (append_one l.blocks b bs)),
    )

-- On an empty log of LOGSIZE blocks, the size that mkfs gives it: begin_op admits three system calls,
-- whose shares are MAXOPBLOCKS blocks each; they can log any 29 different blocks; and then each
-- log_write is a panic, though the three shares together are 30 blocks.
pub full_share_panics :
    (l : Log) (bs : List ℕ) (c : Cache)
    → l.size ≡ log_size
    → l.committing ≡ false
    → l.outstanding ≡ 0
    → l.blocks ≡ []
    → length bs ≡ 3 * max_op_blocks - 1
    → AllNew [] bs
    → (begin_op l ≡ ok (record l { outstanding = 1 }))
      × (begin_op (record l { outstanding = 1 }) ≡ ok (record l { outstanding = 2 }))
      × (begin_op (record l { outstanding = 2 }) ≡ ok (record l { outstanding = 3 }))
      × (u : Log) × (c' : Cache) × (write_each bs (record l { outstanding = 3 }, c) ≡ ok (u, c'))
      × ((b : ℕ) (d : Cache) → log_write b u d ≡ panic)
unfolding begin_op log_write
full_share_panics l bs c size idle none_open empty many new =
    let l₃ : Log = record l { outstanding = 3 } in
    let nothing : length l.blocks ≡ 0 = ap (λ (xs : List ℕ). length xs) empty in
    let all =
      write_each_new bs l₃ c (omega arith) size (omega (arith, nothing))
        (subst (λ xs. AllNew xs bs) (sym empty) new) in
    let full : length (l.blocks ++ bs) ≡ 29 = omega (arith, length-append l.blocks bs, nothing) in
    (
      ground (arith, nothing, none_open, idle),
      ground (arith, nothing, idle),
      ground (arith, nothing, idle),
      record l₃ { blocks = l.blocks ++ bs },
      all.0,
      all.1,
      λ b d. ground (arith, full, size),
    )
