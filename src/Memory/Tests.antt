-- ===== src/Memory/Tests.antt =====
-- Tests of kernel/string.c, and the theorems at concrete inputs.
use operating_systems_ass.Base.{ℕ, ◌≡◌, refl, some, arith, inr, pos, negsuc}
use operating_systems_ass.Memory.{
  Memory, strlen, memmove, move_down, move_up, memcmp, strncmp, safestrcpy, memset, memset_from,
  strncpy, copy_string, pad,
}
use operating_systems_ass.Memory.Move.{Moved, memmove-Moved}
use operating_systems_ass.Memory.Copy.{Cut}
use operating_systems_ass.Memory.Length.{strlen-safestrcpy}

-- Each address holds itself.
abbrev bytes : Memory
bytes a = a

overlap : memmove 12 10 5 bytes 16 ≡ 14
unfolding memmove move_down move_up
overlap = refl

compared : (memcmp 3 5 2 bytes ≡ negsuc 1) × (strncmp 0 5 4 bytes ≡ negsuc 4)
unfolding memcmp strncmp
compared = (refl, refl)

filled : memset 4 259 3 bytes 6 ≡ 3
unfolding memset memset_from
filled = refl

padded : strncpy 9 0 (pos 3) bytes 11 ≡ 0
unfolding strncpy copy_string pad
padded = refl

memmove-Moved_example : Moved 12 10 5 bytes (memmove 12 10 5 bytes)
memmove-Moved_example = memmove-Moved 12 10 5 bytes

strlen-safestrcpy_example :
    (k : ℕ) × Cut 10 3 5 k bytes (safestrcpy 10 3 (pos 5) bytes)
    × (strlen 5 10 (safestrcpy 10 3 (pos 5) bytes) ≡ some k)
strlen-safestrcpy_example = strlen-safestrcpy 10 3 4 bytes (inr (omega arith))
