-- ===== src/Pipe/Tests.antt =====
-- Tests of kernel/pipe.c, and the theorems at concrete inputs.
use operating_systems_ass.Base.{
  ℕ, Bool, ◌==◌, ◌-◌, ◌^◌, ◌≡◌, refl, true, false, some, [], ◌∷◌, pos, minus_one, arith,
  if◌then◌else◌, ◌&&◌,
}
use operating_systems_ass.Pipe.{Pipe, put, take, done, sleeping, pipewrite, piperead, is_empty}
use operating_systems_ass.Pipe.Ring.{queue}
use operating_systems_ass.Pipe.Transfer.{Wrote, pipewrite-Wrote, Takes, piperead_lem}

abbrev fresh : Pipe
fresh = record { bytes = λ _. 0; nread = 0; nwrite = 0; readopen = true; writeopen = true }

-- Two bytes, the counters about to wrap.
abbrev late : Pipe
late = record { bytes = λ i. i; nread = 2 ^ 32 - 1; nwrite = 1; readopen = true; writeopen = true }

queue-late : queue late ≡ 511 ∷ 0 ∷ []
queue-late = refl

read_two : (piperead (λ _. true) false 5 late).1 ≡ 511 ∷ 0 ∷ []
unfolding piperead take
read_two = refl

write_blocked : (pipewrite (λ i. some i) false 600 0 fresh).0 ≡ sleeping 512
unfolding pipewrite put
write_blocked = refl

pipewrite-Wrote_example :
    Wrote (λ i. some i) false 3 0 late (pipewrite (λ i. some i) false 3 0 late)
pipewrite-Wrote_example = pipewrite-Wrote (λ i. some i) false 3 0 late (omega arith) (omega arith)

-- The second byte is not accepted.
abbrev first_only : ℕ → Bool
first_only i = i == 0

piperead_lem_example :
    let (exit, out, p') = piperead first_only false 5 late in
    (if is_empty late && late.writeopen
      then (exit ≡ (if false then done minus_one else sleeping 0)) × (out ≡ []) × (p' ≡ late)
      else (j : ℕ) × (exit ≡ done (pos j)) × Takes first_only 5 0 late (out, j, p'))
piperead_lem_example = piperead_lem first_only false 5 late (omega arith)
