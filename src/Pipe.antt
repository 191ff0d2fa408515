-- ===== src/Pipe.antt =====
-- kernel/pipe.c: the ring buffer of a pipe, and the loops that write to it and read from it. The
-- functions run under the pipe's lock; where the code sleeps, the model returns `sleeping` with
-- the state that the sleeper leaves, and the call goes on from there with what others made of it.
pub mod Ring
pub mod Transfer
mod Tests
use operating_systems_ass.Base.{
  ℕ, zero, suc, ◌+◌, ◌-◌, ◌%◌, ◌^◌, Bool, true, false, not, ◌&&◌, ◌||◌, List, [], ◌∷◌, Option, none,
  some, ℤ, pos, minus_one, ltb, ◌==◌, if◌then◌else◌, update,
}

abbrev pub pipe_size : ℕ
pipe_size = 512

-- `struct pipe`, less its lock. `nread` and `nwrite` are of type uint.
pub record Pipe : Type 0 where
  pub bytes : ℕ → ℕ
  pub nread : ℕ
  pub nwrite : ℕ
  pub readopen : Bool
  pub writeopen : Bool

-- The fields that pipealloc sets.
unfoldable pub pipe_init : (ℕ → ℕ) → Pipe
pipe_init bytes = record { bytes = bytes; nread = 0; nwrite = 0; readopen = true; writeopen = true }

-- `pi->nwrite == pi->nread + PIPESIZE`, in uint arithmetic
abbrev pub is_full : Pipe → Bool
is_full p = p.nwrite == (p.nread + pipe_size) % 2 ^ 32

abbrev pub is_empty : Pipe → Bool
is_empty p = p.nread == p.nwrite

-- `pi->data[pi->nwrite++ % PIPESIZE] = ch`
unfoldable pub put : Pipe → ℕ → Pipe
put p ch = record p {
  bytes = update p.bytes (p.nwrite % pipe_size) ch;
  nwrite = (p.nwrite + 1) % 2 ^ 32;
}

-- `ch = pi->data[pi->nread++ % PIPESIZE]`
unfoldable pub take : Pipe → ℕ × Pipe
take p = (p.bytes (p.nread % pipe_size), record p { nread = (p.nread + 1) % 2 ^ 32 })

-- `pipeclose`: the pipe after the end is closed, and whether its page is freed.
unfoldable pub pipeclose : Pipe → (writable : Bool) → Pipe × Bool
pipeclose p writable =
    let p' = if writable then record p { writeopen = false } else record p { readopen = false } in
    (p', not p'.readopen && not p'.writeopen)

-- How a call leaves: with its return value, or asleep with `i` bytes done.
pub data Exit : Type 0 where
  done : ℤ → Exit
  sleeping : (i : ℕ) → Exit

-- The loop of pipewrite from byte `i` on, with `k` bytes left; `user i` is what copyin gives for
-- byte `i` (`none` for -1), and `killed` is the process's flag.
unfoldable pub pipewrite_loop : (user : ℕ → Option ℕ) → Bool → ℕ → ℕ → Pipe → Exit × Pipe
pipewrite_loop user killed zero i p = (done (pos i), p)
pipewrite_loop user killed (suc k) i p =
    let next = λ (ch : ℕ). pipewrite_loop user killed k (suc i) (put p ch) in
    if not p.readopen || killed
    then (done minus_one, p)
    else if is_full p
    then (sleeping i, p)
    else elim (user i) [ none ↦ (done (pos i), p) | some ch ↦ next ch ]

-- `pipewrite(pi, addr, n)`; it takes up at `i` after a sleep.
pub pipewrite : (user : ℕ → Option ℕ) → Bool → ℕ → ℕ → Pipe → Exit × Pipe
unfolding pipewrite_loop
pipewrite user killed n i p = pipewrite_loop user killed (n - i) i p

-- The copying loop of piperead, with `k` bytes left and `i` done; `accepts i` tells whether copyout
-- takes byte `i`. Returns the bytes that it copied out, and the number that piperead returns.
unfoldable pub piperead_copy : (accepts : ℕ → Bool) → ℕ → ℕ → Pipe → List ℕ × ℕ × Pipe
piperead_copy accepts zero i p = ([], i, p)
piperead_copy accepts (suc k) i p =
    let (ch, p') = take p in
    let rest = piperead_copy accepts k (suc i) p' in
    if is_empty p
    then ([], i, p)
    else if accepts i
    then (ch ∷ rest.0, rest.1, rest.2)
    else ([], i, p')

-- `piperead(pi, addr, n)`: the wait while the pipe is empty and open, then the copy.
pub piperead : (accepts : ℕ → Bool) → Bool → ℕ → Pipe → Exit × List ℕ × Pipe
unfolding piperead_copy
piperead accepts killed n p =
    let (out, i, p') = piperead_copy accepts n 0 p in
    if is_empty p && p.writeopen
    then (if killed then done minus_one else sleeping 0, [], p)
    else (done (pos i), out, p')
