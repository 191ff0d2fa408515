-- ===== src/Dinode/Layout.antt =====
-- The fields of an inode in its block do not overlap.
use native.Mathlib.Decide.{ℕ_discrete}
use operating_systems_ass.Base.{
  ℕ, zero, suc, ◌+◌, ◌-◌, ◌*◌, ◌^◌, ◌<◌, ◌≤◌, ◌≡◌, refl, ◌∙◌, true, false, arith, ◌==◌, ltb, leb,
  ◌&&◌, ==_iff, ==_ne, if◌then◌else◌,
}
use operating_systems_ass.Words.{
  Bytes, half_at, word_at, half_at-set_half, word_at-set_word, half_at-set_word, word_at-set_half,
  set_half-IsBytes, set_word-IsBytes,
}
use operating_systems_ass.Dinode.{ndirect, Dinode, set_addrs, write_dinode}

half_at-set_addrs :
    (n : ℕ) (addrs : ℕ → ℕ) (block : Bytes) (m c k : ℕ)
    → c < 4
    → k ≤ 13
    → half_at (set_addrs k n addrs block) (32 * m + c) ≡ half_at block (32 * m + c)
unfolding set_addrs
half_at-set_addrs n addrs block m c zero h l = refl
half_at-set_addrs n addrs block m c (suc k) h l =
    half_at-set_word (16 * n + 3 + k) (addrs k) _ (32 * m + c) (omega arith)
    ∙ half_at-set_addrs n addrs block m c k h (omega arith)

-- A word of an inode's block after the first `k` addresses of inode `n` are written.
word_at-set_addrs :
    (n : ℕ) (addrs : ℕ → ℕ) (block : Bytes) (m c k : ℕ)
    → ((i : ℕ) → i ≤ ndirect → addrs i < 2 ^ 32)
    → c < 16
    → k ≤ 13
    → word_at (set_addrs k n addrs block) (16 * m + c) ≡ (
        if (n == m) && (leb 3 c && ltb c (3 + k))
        then addrs (c - 3)
        else word_at block (16 * m + c))
unfolding set_addrs
word_at-set_addrs n addrs block m c zero a h l = ground arith
word_at-set_addrs n addrs block m c (suc k) a h l =
    word_at-set_word (16 * n + 3 + k) (addrs k) (set_addrs k n addrs block) (16 * m + c)
      (a k (omega arith))
    ∙ elim (ℕ_discrete (16 * n + 3 + k) (16 * m + c)) [
      | yes same ↦
          let at : (16 * n + 3 + k == 16 * m + c) ≡ true = (==_iff _ _).1 same in
          let mine : ((n == m) && (leb 3 c && ltb c (3 + suc k))) ≡ true = ground (arith, same) in
          let index : c - 3 ≡ k = omega arith in rw (at, mine, index) refl
      | no d ↦
          let off : (16 * n + 3 + k == 16 * m + c) ≡ false = ==_ne _ _ d in
          let grown : ((n == m) && (leb 3 c && ltb c (3 + suc k)))
              ≡ ((n == m) && (leb 3 c && ltb c (3 + k))) =
            ground (arith, d) in
          rw (off, grown) (word_at-set_addrs n addrs block m c k a h (omega arith))
    ]

-- An inode with fields that fit
pub record IsFit (d : Dinode) : Type 0 where
  pub type_fits : d.type < 2 ^ 16
  pub major_fits : d.major < 2 ^ 16
  pub minor_fits : d.minor < 2 ^ 16
  pub nlink_fits : d.nlink < 2 ^ 16
  pub size_fits : d.size < 2 ^ 32
  pub addrs_fit : (i : ℕ) → i ≤ ndirect → d.addrs i < 2 ^ 32

-- The same fields, and the same addresses
pub record Agrees (d e : Dinode) : Type 0 where
  pub same_type : d.type ≡ e.type
  pub same_major : d.major ≡ e.major
  pub same_minor : d.minor ≡ e.minor
  pub same_nlink : d.nlink ≡ e.nlink
  pub same_size : d.size ≡ e.size
  pub same_addrs : (k : ℕ) → k ≤ ndirect → d.addrs k ≡ e.addrs k

module _ (n : ℕ) (d : Dinode) (block : Bytes) (fit : IsFit d) (m : ℕ) where
  -- The half words of the fields of inode `m` after inode `n` is written.
  pub half_after :
      (c : ℕ)
      → c < 4
      → half_at (write_dinode n d block) (32 * m + c) ≡ (
          if 32 * n + 3 == 32 * m + c
          then d.nlink
          else if 32 * n + 2 == 32 * m + c
          then d.minor
          else if 32 * n + 1 == 32 * m + c
          then d.major
          else if 32 * n == 32 * m + c
          then d.type
          else half_at block (32 * m + c))
  unfolding write_dinode
  half_after c h =
      half_at-set_addrs n d.addrs _ m c 13 h (omega arith)
      ∙ (half_at-set_word (16 * n + 2) d.size _ (32 * m + c) (omega arith)
          ∙ rw
              (
                half_at-set_half (32 * n + 3) d.nlink _ (32 * m + c) fit.nlink_fits,
                half_at-set_half (32 * n + 2) d.minor _ (32 * m + c) fit.minor_fits,
                half_at-set_half (32 * n + 1) d.major _ (32 * m + c) fit.major_fits,
                half_at-set_half (32 * n) d.type block (32 * m + c) fit.type_fits,
              )
              refl)

  pub word_after :
      (c : ℕ)
      → c < 16
      → 2 ≤ c
      → word_at (write_dinode n d block) (16 * m + c) ≡ (
          if (n == m) && (leb 3 c && ltb c 16)
          then d.addrs (c - 3)
          else if 16 * n + 2 == 16 * m + c
          then d.size
          else word_at block (16 * m + c))
  unfolding write_dinode
  word_after c h l =
      word_at-set_addrs n d.addrs _ m c 13 fit.addrs_fit h (omega arith)
      ∙ rw
          (
            word_at-set_word (16 * n + 2) d.size _ (16 * m + c) fit.size_fits,
            word_at-set_half (32 * n + 3) d.nlink _ (16 * m + c) (omega arith),
            word_at-set_half (32 * n + 2) d.minor _ (16 * m + c) (omega arith),
            word_at-set_half (32 * n + 1) d.major _ (16 * m + c) (omega arith),
            word_at-set_half (32 * n) d.type block (16 * m + c) (omega arith),
          )
          refl

set_addrs-IsBytes :
    (k n : ℕ) (addrs : ℕ → ℕ) (block : Bytes)
    → ((w : ℕ) → block w < 2 ^ 8)
    → (w : ℕ) → set_addrs k n addrs block w < 2 ^ 8
unfolding set_addrs
set_addrs-IsBytes zero n addrs block h = h
set_addrs-IsBytes (suc k) n addrs block h =
    set_word-IsBytes (16 * n + 3 + k) (addrs k) (set_addrs k n addrs block)
      (set_addrs-IsBytes k n addrs block h)

pub write_dinode-IsBytes :
    (n : ℕ) (d : Dinode) (block : Bytes)
    → ((w : ℕ) → block w < 2 ^ 8)
    → (w : ℕ) → write_dinode n d block w < 2 ^ 8
unfolding write_dinode
write_dinode-IsBytes n d block h = set_addrs-IsBytes 13 n d.addrs _ (
    set_word-IsBytes (16 * n + 2) d.size _ (
      set_half-IsBytes (32 * n + 3) d.nlink _ (
        set_half-IsBytes (32 * n + 2) d.minor _
          (set_half-IsBytes (32 * n + 1) d.major _ (set_half-IsBytes (32 * n) d.type block h)))))
