-- ===== src/Grep.antt =====
-- user/grep.c. A C string is the list of its characters, none of them 0; its end stands for the zero
-- byte that ends it. The input of grep is a list of any bytes.
pub mod Regex
pub mod Lines
mod Tests
use operating_systems_ass.Base.{
  ℕ, zero, suc, ◌-◌, min, Bool, true, false, ◌&&◌, ◌||◌, Option, none, some, List, [], ◌∷◌, ◌++◌,
  ◌==◌, if◌then◌else◌, length, take, drop,
}
use mathlib.Core.Option.{map}

abbrev pub Text : Type 0
Text = List ℕ

-- `re[0]=='.' || re[0]==*text`
abbrev pub accepts : ℕ → ℕ → Bool
accepts c x = c == b'.' || c == x

-- `re[0] == '\0'`, for the end of a string
abbrev pub is_end : Text → Bool
is_end [] = true
is_end (_ ∷ _) = false

-- `matchstar`, with `here` for matchhere on the rest of the pattern
unfoldable pub matchstar : (here : Text → Bool) → ℕ → Text → Bool
matchstar here c [] = here []
matchstar here c (x ∷ text) = here (x ∷ text) || ((x == c || c == b'.') && matchstar here c text)

-- The last test of matchhere, with `here` for matchhere on the rest of the pattern
abbrev pub match_one : (here : Text → Bool) → ℕ → Text → Bool
match_one here c [] = false
match_one here c (x ∷ text) = accepts c x && here text

unfoldable pub matchhere : Text → Text → Bool
matchhere [] text = true
matchhere (c ∷ []) text = if c == b'$' then is_end text else match_one (matchhere []) c text
matchhere (c ∷ d ∷ re) text =
    if d == b'*' then matchstar (matchhere re) c text else match_one (matchhere (d ∷ re)) c text

-- The loop of match
unfoldable pub match_from : (here : Text → Bool) → Text → Bool
match_from here [] = here []
match_from here (x ∷ text) = here (x ∷ text) || match_from here text

unfoldable pub match : Text → Text → Bool
match [] text = match_from (matchhere []) text
match (c ∷ re) text = if c == b'^' then matchhere re text else match_from (matchhere (c ∷ re)) text

-- The inner loop of grep over `buf`, where `line` is what was passed of the line so far: what it writes,
-- and what is left from the beginning of that line on. strchr finds no newline behind a byte 0.
unfoldable pub scan : (re line buf : Text) → Text × Text
scan re line [] = ([], line)
scan re line (c ∷ buf) =
    let whole = scan re [] buf in
    let rest = scan re (line ++ (c ∷ [])) buf in
    let kept = if match re line then line ++ (c ∷ []) else [] in
    if c == 0 then ([], line ++ (c ∷ buf)) else if c == 10 then (kept ++ whole.0, whole.1) else rest

-- `sizeof(buf)`
abbrev pub buf_size : ℕ
buf_size = 1024

-- `grep`, where `left` stands at the front of the buffer and `input` is what the file still has. Of `k` bytes
-- that it has, a call of read for `cap` bytes gives `min cap (gives k)`, and no more than `k`; the loop
-- ends when that is 0. The result is `none` when the fuel runs out.
unfoldable pub grep_read :
    (next : Text → Text → Option Text) → (re left input : Text) → (n : ℕ) → Option Text
grep_read next re left input zero = some []
grep_read next re left input (suc n) =
    let (out, left') = scan re [] (left ++ take (suc n) input) in
    map (λ more. out ++ more) (next left' (drop (suc n) input))

unfoldable pub grep : ℕ → (gives : ℕ → ℕ) → (re left input : Text) → Option Text
grep zero gives re left input = none
grep (suc fuel) gives re left input =
    grep_read (λ left input. grep fuel gives re left input) re left input
      (min (buf_size - length left - 1) (min (gives (length input)) (length input)))
