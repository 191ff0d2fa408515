-- ===== src/Log/Phases.antt =====
-- The disk at the stages of a commit, and what recovery makes of each.
use operating_systems_ass.Base.{
  ℕ, zero, suc, ◌-◌, ◌<◌, ◌≡◌, refl, ◌≢◌, inl, inr, ◌∙◌, ap, Bool, true, false, List, [], ◌∷◌, ◌++◌,
  arith, length, take, take_append, take_one, All, update, update_self, update_ne, Bool-cases,
}
use operating_systems_ass.Log.{
  Block, Disk, Writes, apply, Cache, header, read_blocks, read_head, write_head, install_trans,
  write_log, recover_from_log,
}
use operating_systems_ass.Log.Header.{header_roundtrip}
use operating_systems_ass.Log.Crash.{
  mem, Outside, Outside-Beside, after_tx, Logged, Logged-update, install_apply, apply-append,
  write_log_below, write_log_whole, Agrees, write_log-Logged, write_log_view,
}

-- The disk that recovery leaves.
unfoldable pub recovered : ℕ → (ℕ → ℕ) → Disk → Disk
recovered start pins d = apply (recover_from_log start (record { view = d; pins = pins })).1 d

apply_one : (d : Disk) (b : ℕ) (c : Block) (x : ℕ) → b ≢ x → apply ((b, c) ∷ []) d x ≡ d x
unfolding apply
apply_one d b c x h = update_ne d b x c h

apply_self : (d : Disk) (b : ℕ) (c : Block) → apply ((b, c) ∷ []) d b ≡ c
unfolding apply
apply_self d b c = update_self d b c

module _ (size start : ℕ) (content d₀ : ℕ → Block) (bs : List ℕ) where
  -- The transaction is not on the disk.
  pub record Before (d : Disk) : Type 0 where
    pub none_logged : d start 0 ≡ 0
    pub old : (x : ℕ) → Outside size start x → d x ≡ d₀ x

  -- The transaction is in the log, and some of it may be installed.
  pub record Committed (d : Disk) : Type 0 where
    pub named : read_blocks (d start) 0 (d start 0) ≡ bs
    pub logged : Logged d content start 0 bs
    pub others : (x : ℕ) → Outside size start x → mem x bs ≡ false → d x ≡ d₀ x

  pub recover_nothing :
      (pins : ℕ → ℕ) (d : Disk) (x : ℕ)
      → 0 < size
      → d start 0 ≡ 0
      → Outside size start x
      → recovered start pins d x ≡ d x
  unfolding recovered recover_from_log read_head read_blocks install_trans write_head apply
  recover_nothing pins d x pos e o = rw e (update_ne d start x _ (omega arith))

  after_tx-old :
      (d : Disk) (x : ℕ)
      → (mem x bs ≡ false → d x ≡ d₀ x)
      → after_tx content bs d x ≡ after_tx content bs d₀ x
  after_tx-old d x h = elim (Bool-cases (mem x bs)) [
    | inl at ↦ rw at refl
    | inr away ↦ rw away (h away)
  ]

  -- Installing the log and clearing the header applies the transaction.
  install_whole :
      (r : Bool) (c : Cache) (d : Disk) (hdr : Block) (x : ℕ)
      → length bs < size
      → All (Outside size start) bs
      → Logged c.view content start 0 bs
      → ((y : ℕ) → Outside size start y → mem y bs ≡ false → d y ≡ d₀ y)
      → Outside size start x
      → apply ((install_trans r start 0 bs c).1 ++ ((start, hdr) ∷ [])) d x
        ≡ after_tx content bs d₀ x
  install_whole r c d hdr x l h g same o =
      let ws = (install_trans r start 0 bs c).1 in
      ap (λ (f : Disk). f x) (apply-append ws ((start, hdr) ∷ []) d)
      ∙ (apply_one (apply ws d) start hdr x (omega arith)
          ∙ (install_apply size r start 0 bs c content d (omega arith) h g x
              ∙ after_tx-old d x (same x o)))

  recover-Committed :
      (pins : ℕ → ℕ) (d : Disk) (x : ℕ)
      → length bs < size
      → All (Outside size start) bs
      → Committed d
      → Outside size start x
      → recovered start pins d x ≡ after_tx content bs d₀ x
  unfolding recovered recover_from_log read_head write_head
  recover-Committed pins d x l h c o =
      rw c.named
        (install_whole true (record { view = d; pins = pins }) d _ x l h c.logged c.others o)

  -- Each prefix of the writes of write_log leaves the transaction off the disk.
  pub write_log-Before :
      (c : Cache) (d : Disk) (k : ℕ)
      → length bs < size
      → Before d
      → Before (apply (take k (write_log start 0 bs c).1) d)
  write_log-Before c d k l b = record {
    none_logged =
        ap (λ (w : Block). w 0) (write_log_below start 0 bs c d start k (inl (omega arith)))
        ∙ b.none_logged;
    old = λ x o. write_log_below start 0 bs c d x k (ground arith) ∙ b.old x o;
  }

  -- Each prefix of the writes of install_trans keeps the transaction in the log.
  install-Committed :
      (r : Bool) (tail k : ℕ) (cs : List ℕ) (c : Cache) (d : Disk)
      → length bs < size
      → All (Outside size start) cs
      → All (λ b. mem b bs ≡ true) cs
      → Committed d
      → Committed (apply (take k (install_trans r start tail cs c).1) d)
  unfolding install_trans apply
  install-Committed r tail zero [] c d l h m g = g
  install-Committed r tail (suc k) [] c d l h m g = g
  install-Committed r tail zero (b ∷ cs) c d l h m g = g
  install-Committed r tail (suc k) (b ∷ cs) c d l h m g =
      install-Committed r (suc tail) k cs _ _ l h.1 m.1 (record {
        named = rw (update_ne d b start _ (omega arith)) g.named;
        logged =
            Logged-update size d content start 0 bs b _ (Outside-Beside size start b h.0)
              (omega arith) g.logged;
        others = λ x o out. update_ne d b x _ (λ e. cc (m.0)) ∙ g.others x o out;
      })

  -- The write of the header puts the whole transaction in the log at once.
  pub header-Committed :
      (c : Cache) (old : Block) (d : Disk)
      → length bs < size
      → All (Outside size start) bs
      → Agrees size start c content
      → Before d
      → Committed (update (apply (write_log start 0 bs c).1 d) start (header bs old))
  header-Committed c old d l h a b =
      let u = apply (write_log start 0 bs c).1 d in
      record {
        named = rw (update_self u start (header bs old)) (header_roundtrip bs old);
        logged =
            Logged-update size u content start 0 bs start _ (inl (omega arith)) (omega arith)
              (write_log-Logged size start 0 bs c content d (omega arith) h a);
        others = λ x o out.
            update_ne u start x _ (omega arith)
            ∙ (write_log_whole start 0 bs c d x (ground arith) ∙ b.old x o);
      }

  -- So does the cache, from which install_trans reads.
  pub view-Logged :
      (c : Cache) (old : Block)
      → length bs < size
      → All (Outside size start) bs
      → Agrees size start c content
      → Logged (update (write_log start 0 bs c).0.view start (header bs old)) content start 0 bs
  view-Logged c old l h a = rw (write_log_view start 0 bs c) (
      Logged-update size (apply (write_log start 0 bs c).1 c.view) content start 0 bs start _
        (inl (omega arith)) (omega arith)
        (write_log-Logged size start 0 bs c content c.view (omega arith) h a))

  -- After the header, the rest of a commit is `install_trans` and the clearing of the header.
  pub rest_recovers :
      (c : Cache) (d : Disk) (hdr : Block) (k : ℕ) (pins : ℕ → ℕ) (x : ℕ)
      → length bs < size
      → All (Outside size start) bs
      → All (λ b. mem b bs ≡ true) bs
      → Logged c.view content start 0 bs
      → Committed d
      → hdr 0 ≡ 0
      → Outside size start x
      → recovered start pins
          (apply (take k ((install_trans false start 0 bs c).1 ++ ((start, hdr) ∷ []))) d)
          x
        ≡ after_tx content bs d₀ x
  rest_recovers c d hdr k pins x l h m g kept z o =
      elim (take_append k (install_trans false start 0 bs c).1 ((start, hdr) ∷ [])) [
        | inl (le, e) ↦
            rw e (recover-Committed pins _ x l h (install-Committed false 0 k bs c d l h m kept) o)
        | inr (lt, e) ↦
            rw (e, last_write lt)
              (recover_nothing pins _ x (omega arith)
                  (ap (λ (f : Disk). f start 0) (apply-append ws ((start, hdr) ∷ []) d)
                    ∙ (ap (λ (w : Block). w 0) (apply_self (apply ws d) start hdr) ∙ z))
                  o
                ∙ install_whole false c d hdr x l h g kept.others o)
      ]
    where
      ws : Writes
      ws = (install_trans false start 0 bs c).1

      last : Writes
      last = (start, hdr) ∷ []

      last_write : length ws < k → take (k - length ws) last ≡ last
      last_write lt =
          let some_left : k - length ws ≡ suc (k - length ws - 1) = omega arith in
          rw some_left (take_one (k - length ws - 1) (start, hdr))
