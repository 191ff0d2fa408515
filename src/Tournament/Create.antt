-- ===== src/Tournament/Create.antt =====
-- tournament_create on a table of free locks, and on one where lock 0 is taken.
use operating_systems_ass.Base.{ℕ, zero, suc, ◌-◌, ◌≤◌, ◌<◌, ◌^◌, ◌≡◌, List, [], ◌∷◌, ℤ, pos}
use operating_systems_ass.Peterson.{Table, max_peterson_locks, fresh_lock}
use operating_systems_ass.Tournament.{Creation, idle}
use operating_systems_ass.Tournament.Tree.{player}
use operating_systems_ass.Tournament.Run.{System, IsInit}

-- The first `k` locks are fresh and the others free.
record Filled (k : ℕ) (t : Table) : Type 0 where
  made : (j : ℕ) → j < k → t j ≡ fresh_lock
  left : (j : ℕ) → k ≤ j → j < max_peterson_locks → (t j).active ≡ 0

-- `pos i`, `pos (i + 1)`, … for `n` numbers
pub ids_from : ℕ → ℕ → List ℤ
ids_from i zero = []
ids_from i (suc n) = pos i ∷ ids_from (suc i) n

-- `i`, `i + 1`, … for `n` numbers
pub count_from : ℕ → ℕ → List ℕ
count_from i zero = []
count_from i (suc n) = i ∷ count_from (suc i) n

-- The state of the system when tournament_create has returned to every process.
pub initial : Creation → System
initial c = record { table = c.table; pc = λ _. idle }

-- What tournament_create is to do for 2 ^ levels processes.
pub record IsReady (levels : ℕ) (c : Creation) : Type 0 where
  pub result : c.result ≡ pos 0
  pub parent : c.parent ≡ player levels (ids_from 0 (2 ^ levels - 1)) 0
  pub children : c.children ≡ count_from 1 (2 ^ levels - 1)
  pub ready : IsInit levels (ids_from 0 (2 ^ levels - 1)) (initial c)
