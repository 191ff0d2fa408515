-- ===== src/Log/Header.antt =====
-- The log header: read_head reads back what write_head wrote.
use operating_systems_ass.Base.{
  ℕ, suc, ◌+◌, ◌-◌, ◌<◌, ◌≡◌, refl, ◌∙◌, ap, List, [], ◌∷◌, arith, length, get_or,
}
use mathlib.Core.Path.{ap₂}
use operating_systems_ass.Log.{Block, header, read_blocks}

header-word :
    (bs : List ℕ) (old : Block) (i : ℕ) → i < length bs → header bs old (i + 1) ≡ get_or bs i 0
unfolding header
header-word bs old i h =
    let back : i + 1 - 1 ≡ i = omega arith in ground (arith, ap (λ k. get_or bs k 0) back)

read_header :
    (all rest : List ℕ) (old : Block) (i : ℕ)
    → i + length rest ≡ length all
    → ((j : ℕ) → j < length rest → get_or all (i + j) 0 ≡ get_or rest j 0)
    → read_blocks (header all old) i (length rest) ≡ rest
unfolding read_blocks
read_header all [] old i e h = refl
read_header all (b ∷ rest) old i e h =
    let here : i ≡ i + 0 = omega arith in
    ap₂ ◌∷◌
      (header-word all old i (omega arith) ∙ (ap (λ k. get_or all k 0) here ∙ h 0 (omega arith)))
      (read_header all rest old (suc i) (omega arith) (λ j l.
        let next : suc i + j ≡ i + suc j = omega arith in
        ap (λ k. get_or all k 0) next ∙ h (suc j) (omega arith)))

-- What is read back from a header block is what was written there.
pub header_roundtrip :
    (bs : List ℕ) (old : Block) → read_blocks (header bs old) 0 (header bs old 0) ≡ bs
unfolding header
header_roundtrip bs old =
    read_header bs bs old 0 (omega arith)
      (λ j l. let here : 0 + j ≡ j = omega arith in ap (λ k. get_or bs k 0) here)
