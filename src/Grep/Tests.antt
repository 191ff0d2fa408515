-- ===== src/Grep/Tests.antt =====
-- Tests of user/grep.c, and the theorems at concrete inputs.
use operating_systems_ass.Base.{ℕ, ◌<◌, min, ◌≡◌, ◌↔◌, refl, true, false, some, [], ◌∷◌, arith}
use operating_systems_ass.Grep.{
  Text, match, match_from, matchhere, matchstar, grep, grep_read, scan,
}
use operating_systems_ass.Grep.Regex.{Found, match_iff}
use operating_systems_ass.Grep.Lines.{Fits, ended_lines, matching, grep-matching}

-- `a.*c$`
abbrev pattern_ac : Text
pattern_ac = b'a' ∷ b'.' ∷ b'*' ∷ b'c' ∷ b'$' ∷ []

-- The texts `xabc` and `acx`
abbrev xabc : Text
xabc = b'x' ∷ b'a' ∷ b'b' ∷ b'c' ∷ []

abbrev acx : Text
acx = b'a' ∷ b'c' ∷ b'x' ∷ []

searched : (match pattern_ac xabc ≡ true) × (match pattern_ac acx ≡ false)
unfolding match match_from matchhere matchstar
searched = (refl, refl)

-- The lines `xabc` and, not ended, `acc`; a read gives at most three bytes, so the newline of the first line
-- comes in the second read.
abbrev input : Text
input = b'x' ∷ b'a' ∷ b'b' ∷ b'c' ∷ 10 ∷ b'a' ∷ b'c' ∷ b'c' ∷ []

abbrev three : ℕ → ℕ
three k = min 3 k

three_gives : (k : ℕ) → 0 < k → 0 < three k
three_gives k more = omega (arith, more)

input-Fits : Fits 0 input
input-Fits = (
  λ e. absurd (omega (arith, e)),
  omega arith,
  (
    λ e. absurd (omega (arith, e)),
    omega arith,
    (
      λ e. absurd (omega (arith, e)),
      omega arith,
      (
        λ e. absurd (omega (arith, e)),
        omega arith,
        (
          λ e. absurd (omega (arith, e)),
          omega arith,
          (
            λ e. absurd (omega (arith, e)),
            omega arith,
            (
              λ e. absurd (omega (arith, e)),
              omega arith,
              (λ e. absurd (omega (arith, e)), omega arith, tt),
            ),
          ),
        ),
      ),
    ),
  ),
)

printed : grep 9 three pattern_ac [] input ≡ some (b'x' ∷ b'a' ∷ b'b' ∷ b'c' ∷ 10 ∷ [])
unfolding grep grep_read scan match match_from matchhere matchstar
printed = refl

match_iff_example : (match pattern_ac xabc ≡ true) ↔ Found pattern_ac xabc
match_iff_example = match_iff pattern_ac xabc

grep-matching_example :
    grep 9 three pattern_ac [] input ≡ some (matching pattern_ac (ended_lines [] input))
grep-matching_example = grep-matching 9 three pattern_ac input three_gives input-Fits (omega arith)
