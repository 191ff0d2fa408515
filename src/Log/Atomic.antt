-- ===== src/Log/Atomic.antt =====
-- Recovery after a crash at any write of a commit.
use operating_systems_ass.Base.{
  ℕ, suc, ◌-◌, ◌≤◌, ◌<◌, ◌≡◌, refl, inl, inr, ◌∙◌, true, false, List, [], ◌∷◌, ◌++◌, arith, length,
  take, take_append, All, update,
}
use operating_systems_ass.Log.{
  Block, Disk, Writes, apply, Cache, header, write_head, install_trans, write_log, commit,
}
use operating_systems_ass.Log.Crash.{mem, Outside, after_tx, apply-append, length-write_log}
use operating_systems_ass.Log.Phases.{
  recovered, Before, write_log-Before, header-Committed, view-Logged, rest_recovers,
  recover_nothing,
}

mem-All :
    (bs cs : List ℕ) → ((b : ℕ) → mem b cs ≡ true → mem b bs ≡ true) → All (λ b. mem b bs ≡ true) cs
mem-All bs [] h = tt
mem-All bs (c ∷ cs) h = (h c (ground arith), mem-All bs cs (λ b m. h b (ground arith)))

module _ (size start : ℕ) (b : ℕ) (bs : List ℕ) (c : Cache) (d : Disk) (pins : ℕ → ℕ)
    (fits : length (b ∷ bs) < size) (outside : All (Outside size start) (b ∷ bs))
    (clean : d start 0 ≡ 0) where
  abbrev all : List ℕ
  all = b ∷ bs

  abbrev c₁ : Cache
  c₁ = (write_log start 0 all c).0

  abbrev ws₁ : Writes
  ws₁ = (write_log start 0 all c).1

  abbrev hdr : Block
  hdr = header all (c₁.view start)

  abbrev c₂ : Cache
  c₂ = record c₁ { view = update c₁.view start hdr }

  abbrev tail_writes : Writes
  tail_writes =
      (install_trans false start 0 all c₂).1
      ++ ((start, header [] ((install_trans false start 0 all c₂).0.view start)) ∷ [])

  commit_writes : (commit start all c).1 ≡ ws₁ ++ ((start, hdr) ∷ tail_writes)
  unfolding commit write_head
  commit_writes = refl

  before : Before size start c.view d all d
  before = record { none_logged = clean; old = λ x o. refl }

  after_header :
      (k : ℕ) (x : ℕ)
      → Outside size start x
      → recovered start pins (apply (ws₁ ++ take (suc k) ((start, hdr) ∷ tail_writes)) d) x
        ≡ after_tx c.view all d x
  unfolding apply header
  after_header k x o = rw (apply-append ws₁ (take (suc k) ((start, hdr) ∷ tail_writes)) d) (
      rest_recovers size start c.view d all c₂ (update (apply ws₁ d) start hdr) _ k pins x fits
        outside (mem-All all all (λ y m. m))
        (view-Logged size start c.view d all c (c₁.view start) fits outside (λ y p. refl))
        (header-Committed size start c.view d all c (c₁.view start) d fits outside (λ y p. refl)
          before)
        refl o)

  -- Crash after any number of the disk writes of a commit, on a log of `size` blocks with its header
  -- block, where the transaction's blocks are fewer than that and none of the log's, and a disk
  -- whose log is empty. Recovery finds every block that is none of the log's as before the
  -- transaction, if the header was not yet written, and otherwise with the whole transaction applied.
  pub commit_atomic :
      (k : ℕ) (x : ℕ)
      → Outside size start x
      → let d' = recovered start pins (apply (take k (commit start (b ∷ bs) c).1) d) in
        (k ≤ length (b ∷ bs) → d' x ≡ d x)
        × (length (b ∷ bs) < k → d' x ≡ after_tx c.view (b ∷ bs) d x)
  commit_atomic k x o = elim (take_append k ws₁ ((start, hdr) ∷ tail_writes)) [
    | inl (le, e) ↦
        let early = write_log-Before size start c.view d all c d k fits before in
        (
          λ h.
              rw (commit_writes, e)
                (recover_nothing size start c.view d all pins _ x (omega arith) early.none_logged o
                  ∙ early.old x o),
          λ h. absurd (omega (arith, length-write_log start 0 all c)),
        )
    | inr (lt, e) ↦
        let some_left : k - length ws₁ ≡ suc (k - length ws₁ - 1) = omega arith in
        (
          λ h. absurd (omega (arith, length-write_log start 0 all c)),
          λ h. rw (commit_writes, e, some_left) (after_header (k - length ws₁ - 1) x o),
        )
  ]
