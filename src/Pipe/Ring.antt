-- ===== src/Pipe/Ring.antt =====
-- The ring buffer of a pipe as a queue of bytes, with counters that wrap round.
use operating_systems_ass.Base.{
  ℕ, zero, suc, ◌+◌, ◌-◌, ◌%◌, ◌^◌, ◌≤◌, ◌<◌, ◌≡◌, refl, ◌∙◌, ap, true, false, List, [], ◌∷◌, ◌++◌,
  arith, length, update, update_ne, update_self,
}
use mathlib.Core.Path.{ap₂}
use operating_systems_ass.Pipe.{Pipe, pipe_size, pipe_init, is_full, is_empty, put, take}

-- How many bytes are in the ring.
abbrev pub held : Pipe → ℕ
held p = (p.nwrite + 2 ^ 32 - p.nread) % 2 ^ 32

pub record IsValid (p : Pipe) : Type 0 where
  pub read_word : p.nread < 2 ^ 32
  pub write_word : p.nwrite < 2 ^ 32
  pub room : held p ≤ pipe_size

-- The `n` bytes from counter `r` on.
abbrev pub window : (ℕ → ℕ) → ℕ → ℕ → List ℕ
window b r zero = []
window b r (suc n) = b (r % pipe_size) ∷ window b ((r + 1) % 2 ^ 32) n

abbrev pub queue : Pipe → List ℕ
queue p = window p.bytes p.nread (held p)

pub length-window : (b : ℕ → ℕ) (r n : ℕ) → length (window b r n) ≡ n
length-window b r zero = refl
length-window b r (suc n) = ap suc (length-window b ((r + 1) % 2 ^ 32) n)

pub init-IsValid : (b : ℕ → ℕ) → IsValid (pipe_init b) × (queue (pipe_init b) ≡ [])
unfolding pipe_init
init-IsValid b = (omega arith, refl)

-- Writing just past a window extends it by that byte.
window-update :
    (b : ℕ → ℕ) (ch n r i : ℕ)
    → r < 2 ^ 32
    → n < pipe_size
    → i ≡ (r + n) % pipe_size
    → window (update b i ch) r (suc n) ≡ window b r n ++ (ch ∷ [])
window-update b ch zero r i hr hn e =
    ap (λ c. c ∷ []) (ap (λ k. update b i ch k) (omega arith) ∙ update_self b i ch)
window-update b ch (suc n) r i hr hn e =
    ap₂ ◌∷◌ (update_ne b i (r % pipe_size) ch (omega arith))
      (window-update b ch n ((r + 1) % 2 ^ 32) i (omega arith) (omega arith) (omega arith))

pub held-lt : (p : Pipe) → IsValid p → is_full p ≡ false → held p < pipe_size
held-lt p v h = ground arith

-- On a pipe that is not full, a byte written goes to the end of the queue.
pub queue-put :
    (p : Pipe) (ch : ℕ)
    → IsValid p
    → held p < pipe_size
    → IsValid (put p ch)
      × (queue (put p ch) ≡ queue p ++ (ch ∷ []))
      × (held (put p ch) ≡ held p + 1)
unfolding put
queue-put p ch v h = (
  omega arith,
  ap (window (put p ch).bytes p.nread) more
      ∙ window-update p.bytes ch (held p) p.nread (p.nwrite % pipe_size) v.read_word h
          (omega arith),
  omega arith,
)
  where
    more : held (put p ch) ≡ suc (held p)
    more = omega arith

-- From a pipe that is not empty, a byte read is the first of the queue.
pub queue-take :
    (p : Pipe)
    → IsValid p
    → is_empty p ≡ false
    → IsValid (take p).1
      × (queue p ≡ (take p).0 ∷ queue (take p).1)
      × (held p ≡ held (take p).1 + 1)
unfolding take
queue-take p v h = (ground arith, ap (window p.bytes p.nread) less, ground arith)
  where
    less : held p ≡ suc (held (take p).1)
    less = ground arith

pub held_full : (p : Pipe) → IsValid p → is_full p ≡ true → held p ≡ pipe_size
held_full p v h = ground arith

pub held_empty : (p : Pipe) → IsValid p → is_empty p ≡ true → held p ≡ 0
held_empty p v h = ground arith
