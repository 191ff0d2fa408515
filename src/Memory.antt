-- ===== src/Memory.antt =====
-- kernel/string.c: routines on the bytes of memory. A memory is a function from addresses to bytes,
-- a pointer is an address, and a routine gives the memory that it leaves. Addresses do not wrap.
pub mod Move
pub mod Copy
pub mod Length
mod Tests
use operating_systems_ass.Base.{
  ℕ, zero, suc, ◌+◌, ◌-◌, ◌%◌, ◌^◌, ◌*◌, not, ◌&&◌, ℤ, pos, negsuc, ltb, ◌==◌, Option, none, some,
  if◌then◌else◌, update,
}

abbrev pub Memory : Type 0
Memory = ℕ → ℕ

-- `a - b` of two bytes, as an int
abbrev pub minus : ℕ → ℕ → ℤ
minus a b = if ltb a b then negsuc (b - a - 1) else pos (a - b)

-- The loop of memset from `i` on; the int `c` is cut to a byte.
unfoldable pub memset_from : ℕ → (dst i c : ℕ) → Memory → Memory
memset_from zero dst i c m = m
memset_from (suc k) dst i c m = memset_from k dst (suc i) c (update m (dst + i) (c % 2 ^ 8))

unfoldable pub memset : (dst c n : ℕ) → Memory → Memory
memset dst c n m = memset_from n dst 0 c m

unfoldable pub memcmp : (v1 v2 n : ℕ) → Memory → ℤ
memcmp s1 s2 zero m = pos 0
memcmp s1 s2 (suc n) m =
    let rest = memcmp (s1 + 1) (s2 + 1) n m in
    if not (m s1 == m s2) then minus (m s1) (m s2) else rest

-- `while(n-- > 0) *--d = *--s`
unfoldable pub move_down : (d s n : ℕ) → Memory → Memory
move_down d s zero m = m
move_down d s (suc n) m = move_down (d - 1) (s - 1) n (update m (d - 1) (m (s - 1)))

-- `while(n-- > 0) *d++ = *s++`
unfoldable pub move_up : (d s n : ℕ) → Memory → Memory
move_up d s zero m = m
move_up d s (suc n) m = move_up (d + 1) (s + 1) n (update m d (m s))

unfoldable pub memmove : (dst src n : ℕ) → Memory → Memory
memmove dst src n m =
    if n == 0
    then m
    else if ltb src dst && ltb dst (src + n)
    then move_down (dst + n) (src + n) n m
    else move_up dst src n m

unfoldable pub memcpy : (dst src n : ℕ) → Memory → Memory
memcpy dst src n m = memmove dst src n m

unfoldable pub strncmp : (p q n : ℕ) → Memory → ℤ
strncmp p q zero m = pos 0
strncmp p q (suc n) m =
    let rest = strncmp (p + 1) (q + 1) n m in
    if not (m p == 0) && (m p == m q) then rest else minus (m p) (m q)

-- `while(n-- > 0) *s++ = 0`
unfoldable pub pad : (s n : ℕ) → Memory → Memory
pad s zero m = m
pad s (suc n) m = pad (s + 1) n (update m s 0)

-- The two loops of strncpy
unfoldable pub copy_string : (s t n : ℕ) → Memory → Memory
copy_string s t zero m = m
copy_string s t (suc n) m =
    let m' = update m s (m t) in
    let rest = copy_string (s + 1) (t + 1) n m' in
    let padded = pad (s + 1) n m' in if m t == 0 then padded else rest

unfoldable pub strncpy : (s t : ℕ) → (n : ℤ) → Memory → Memory
strncpy s t (negsuc _) m = m
strncpy s t (pos n) m = copy_string s t n m

-- The loop of safestrcpy with the final `*s = 0`, where `n` is what `--n` leaves
unfoldable pub safe_copy : (s t n : ℕ) → Memory → Memory
safe_copy s t zero m = update m s 0
safe_copy s t (suc n) m =
    let m' = update m s (m t) in
    let rest = safe_copy (s + 1) (t + 1) n m' in if m t == 0 then update m' (s + 1) 0 else rest

unfoldable pub safestrcpy : (s t : ℕ) → (n : ℤ) → Memory → Memory
safestrcpy s t (negsuc _) m = m
safestrcpy s t (pos zero) m = m
safestrcpy s t (pos (suc n)) m = safe_copy s t n m

-- The loop of strlen from `n` on; `none` when the fuel runs out.
unfoldable pub strlen_from : (fuel s n : ℕ) → Memory → Option ℕ
strlen_from zero s n m = none
strlen_from (suc fuel) s n m =
    let rest = strlen_from fuel s (n + 1) m in if m (s + n) == 0 then some n else rest

unfoldable pub strlen : (fuel s : ℕ) → Memory → Option ℕ
strlen fuel s m = strlen_from fuel s 0 m
