-- ===== src/Log/Crash.antt =====
-- A commit is atomic: recovery after a crash at any point finds all of the transaction or nothing.
use operating_systems_ass.Base.{
  ℕ, zero, suc, ◌+◌, ◌≤◌, ◌<◌, ◌≡◌, refl, ◌⊎◌, inl, inr, ◌∙◌, sym, ap, Bool, false, ◌||◌, List, [],
  ◌∷◌, ◌++◌, arith, length, take, All, update, update_self, update_ne, ◌==◌, if◌then◌else◌,
}
use native.Mathlib.Decide.{ℕ_discrete}
use operating_systems_ass.Log.{Block, Disk, Writes, apply, Cache, install_trans, write_log}

abbrev pub mem : ℕ → List ℕ → Bool
mem x [] = false
mem x (b ∷ bs) = (b == x) || mem x bs

-- A block that is not one of the `size` blocks of the log, the header block among them, from `start` on
abbrev pub Outside : ℕ → ℕ → ℕ → Type 0
Outside size start b = (b < start) ⊎ (start + size ≤ b)

-- The header block, or one that is not in the log's area.
abbrev pub Beside : ℕ → ℕ → ℕ → Type 0
Beside size start b = (b ≤ start) ⊎ (start + size ≤ b)

pub Outside-Beside : (size start b : ℕ) → Outside size start b → Beside size start b
Outside-Beside size start b (inl h) = inl (omega arith)
Outside-Beside size start b (inr h) = inr h

-- The disk with a transaction applied: the blocks of `bs` as in `view`, the others as before.
abbrev pub after_tx : (ℕ → Block) → List ℕ → Disk → Disk
after_tx view bs d x = if mem x bs then view x else d x

-- The log area holds the contents of `bs`, from log block `tail` on.
abbrev pub Logged : (ℕ → Block) → (ℕ → Block) → ℕ → ℕ → List ℕ → Type 0
Logged v content start tail [] = Unit
Logged v content start tail (b ∷ bs) =
    (v (start + tail + 1) ≡ content b) × Logged v content start (suc tail) bs

pub Logged-update :
    (size : ℕ) (v content : ℕ → Block) (start tail : ℕ) (bs : List ℕ) (x : ℕ) (c : Block)
    → Beside size start x
    → tail + length bs < size
    → Logged v content start tail bs
    → Logged (update v x c) content start tail bs
Logged-update size v content start tail [] x c h l g = tt
Logged-update size v content start tail (b ∷ bs) x c h l g = (
  update_ne v x (start + tail + 1) c (omega arith) ∙ g.0,
  Logged-update size v content start (suc tail) bs x c h (omega arith) g.1,
)

after_tx-cons :
    (content d : ℕ → Block) (b : ℕ) (bs : List ℕ) (block : Block) (x : ℕ)
    → block ≡ content b
    → after_tx content bs (update d b block) x ≡ after_tx content (b ∷ bs) d x
after_tx-cons content d b bs block x e = elim (ℕ_discrete b x) [
  | yes same ↦ ground (arith, e, ap content same)
  | no other ↦ ground arith
]

-- Installing the log's blocks on a disk applies the transaction.
pub install_apply :
    (size : ℕ) (r : Bool) (start tail : ℕ) (bs : List ℕ) (c : Cache) (content d : ℕ → Block)
    → tail + length bs < size
    → All (Outside size start) bs
    → Logged c.view content start tail bs
    → (x : ℕ) → apply (install_trans r start tail bs c).1 d x ≡ after_tx content bs d x
unfolding apply install_trans
install_apply size r start tail [] c content d l h g x = refl
install_apply size r start tail (b ∷ bs) c content d l h g x =
    install_apply size r start (suc tail) bs _ content (update d b (c.view (start + tail + 1)))
      (omega arith) h.1
      (Logged-update size c.view content start (suc tail) bs b _ (Outside-Beside size start b h.0)
        (omega arith) g.1)
      x
    ∙ after_tx-cons content d b bs _ x g.0

pub apply-append : (ws vs : Writes) (d : Disk) → apply (ws ++ vs) d ≡ apply vs (apply ws d)
unfolding apply
apply-append [] vs d = refl
apply-append ((b, c) ∷ ws) vs d = apply-append ws vs (update d b c)

-- A block that is not written keeps its contents.
pub write_log_below :
    (start tail : ℕ) (bs : List ℕ) (c : Cache) (v : ℕ → Block) (y k : ℕ)
    → (y ≤ start + tail) ⊎ (start + tail + length bs < y)
    → apply (take k (write_log start tail bs c).1) v y ≡ v y
unfolding apply write_log
write_log_below start tail [] c v y zero h = refl
write_log_below start tail [] c v y (suc k) h = refl
write_log_below start tail (b ∷ bs) c v y zero h = refl
write_log_below start tail (b ∷ bs) c v y (suc k) h =
    write_log_below start (suc tail) bs _ _ y k (ground arith)
    ∙ update_ne v (start + tail + 1) y _ (ground arith)

pub take-all {ℓ} : {A : Type ℓ} (xs : List A) → take (length xs) xs ≡ xs
take-all [] = refl
take-all (x ∷ xs) = ap (λ ys. x ∷ ys) (take-all xs)

pub write_log_whole :
    (start tail : ℕ) (bs : List ℕ) (c : Cache) (v : ℕ → Block) (y : ℕ)
    → (y ≤ start + tail) ⊎ (start + tail + length bs < y)
    → apply (write_log start tail bs c).1 v y ≡ v y
write_log_whole start tail bs c v y h =
    let ws = (write_log start tail bs c).1 in
    ap (λ (us : Writes). apply us v y) (sym (take-all ws))
    ∙ write_log_below start tail bs c v y (length ws) h

-- `content` is what the cache has for every block that is not in the log's area.
abbrev pub Agrees : ℕ → ℕ → Cache → (ℕ → Block) → Type 0
Agrees size start c content = (x : ℕ) → Outside size start x → c.view x ≡ content x

-- After write_log the log area holds the contents of the transaction.
pub write_log-Logged :
    (size start tail : ℕ) (bs : List ℕ) (c : Cache) (content v : ℕ → Block)
    → tail + length bs < size
    → All (Outside size start) bs
    → Agrees size start c content
    → Logged (apply (write_log start tail bs c).1 v) content start tail bs
unfolding apply write_log
write_log-Logged size start tail [] c content v l h a = tt
write_log-Logged size start tail (b ∷ bs) c content v l h a = (
  write_log_whole start (suc tail) bs _ _ (start + tail + 1) (inl (omega arith))
      ∙ (update_self v (start + tail + 1) _ ∙ a b h.0),
  write_log-Logged size start (suc tail) bs _ content _ (omega arith) h.1
      (λ x o. update_ne c.view (start + tail + 1) x _ (omega arith) ∙ a x o),
)

-- The cache takes the same writes as the disk.
pub write_log_view :
    (start tail : ℕ) (bs : List ℕ) (c : Cache)
    → (write_log start tail bs c).0.view ≡ apply (write_log start tail bs c).1 c.view
unfolding apply write_log
write_log_view start tail [] c = refl
write_log_view start tail (b ∷ bs) c = write_log_view start (suc tail) bs _

pub length-write_log :
    (start tail : ℕ) (bs : List ℕ) (c : Cache) → length (write_log start tail bs c).1 ≡ length bs
unfolding write_log
length-write_log start tail [] c = refl
length-write_log start tail (b ∷ bs) c = ap suc (length-write_log start (suc tail) bs _)
