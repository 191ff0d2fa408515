-- ===== src/Tournament.antt =====
-- user/libtournament.c: a tournament tree of Peterson locks among processes made by fork().
-- tournament_acquire and tournament_release are machines over the shared accesses of the system
-- calls that they make (Peterson.acquire_step and Peterson.release_step).
pub mod Tree
pub mod Run
pub mod Climb
pub mod Invariant
pub mod Safety
pub mod Create
pub mod Failure
mod Tests
use Prim.Native.Nat.{bit_and}
use operating_systems_ass.Base.{
  ℕ, zero, suc, ◌+◌, ◌-◌, ◌/◌, ◌^◌, Bool, true, false, not, ◌||◌, Option, none, some, List, [], ◌∷◌,
  ◌++◌, ℤ, pos, negsuc, minus_one, is_neg, ltb, leb, ◌==◌, if◌then◌else◌,
}
use operating_systems_ass.Peterson.{
  Table, petersonlock_create, petersonlock_destroy, Next, goto, ret, fault, AcquirePc, check,
  ReleasePc, acquire_step, release_step,
}

-- The static variables of one process.
pub record Player : Type 0 where
  pub proc_id : ℕ
  pub num_processes : ℕ
  pub num_levels : ℕ
  pub lock_ids : Option (List ℤ)

abbrev pub fresh_player : Player
fresh_player = record { proc_id = 0; num_processes = 0; num_levels = 0; lock_ids = none }

-- The test at the head of tournament_create; the bitwise test is on an `int` in 1..16.
pub is_valid_count : ℤ → Bool
is_valid_count (negsuc _) = false
is_valid_count (pos n) = not (leb n 0 || ltb 16 n || not (bit_and n (n - 1) == 0))

-- `peterson_destroy(lock_ids[j])` for each j in order
destroy_all : List ℤ → Table → Table
destroy_all [] t = t
destroy_all (id ∷ ids) t = destroy_all ids (petersonlock_destroy id t).1

-- The loop that creates the locks, with `n` rounds left and the ids of the earlier rounds.
pub create_locks : ℕ → List ℤ → Table → Option (List ℤ) × Table
unfolding destroy_all
create_locks zero ids t = (some ids, t)
create_locks (suc n) ids t =
    let (id, t') = petersonlock_create t in
    let rest = create_locks n (ids ++ (id ∷ [])) t' in
    if is_neg id then (none, destroy_all ids t') else rest

-- `while (temp > 1) { temp >>= 1; num_levels++; }` with fuel
count_levels : ℕ → ℕ → ℕ → ℕ
count_levels zero temp levels = levels
count_levels (suc fuel) temp levels =
    let rest = count_levels fuel (temp / 2) (levels + 1) in if ltb 1 temp then rest else levels

-- The calls of fork() by the parent, from proc_id `i` on with `n` rounds left; `forks i` tells
-- whether the call succeeds. Returns the ids of the children, and whether all calls succeeded.
spawn : (forks : ℕ → Bool) → ℕ → ℕ → List ℕ × Bool
spawn forks zero i = ([], true)
spawn forks (suc n) i =
    let rest = spawn forks n (suc i) in if forks i then (i ∷ rest.0, rest.1) else ([], false)

-- What tournament_create does in all: what it returns to the parent, the parent's variables, the
-- ids of the children (to each of which it returns its id), and the table.
pub record Creation : Type 0 where
  pub result : ℤ
  pub parent : Player
  pub children : List ℕ
  pub table : Table

spawned : Player → Table → List ℕ × Bool → Creation
spawned me t (children, done) = record {
  result = if done then pos me.proc_id else minus_one;
  parent = me;
  children = children;
  table = t;
}

located : (forks : ℕ → Bool) → ℕ → Player → Option (List ℤ) × Table → Creation
unfolding spawned spawn count_levels
located forks n me (none, t) = record {
  result = minus_one;
  parent = record me { lock_ids = none };
  children = [];
  table = t;
}
located forks n me (some ids, t) =
    spawned (record me { num_levels = count_levels n n 0; lock_ids = some ids }) t
      (spawn forks (n - 1) 1)

-- `mem` tells whether malloc succeeds.
pub tournament_create : ℤ → Bool → (forks : ℕ → Bool) → Player → Table → Creation
unfolding is_valid_count located create_locks
tournament_create (negsuc k) mem forks me t = record {
  result = minus_one;
  parent = me;
  children = [];
  table = t;
}
tournament_create (pos n) mem forks me t =
    if is_valid_count (pos n)
    then if mem
      then located forks n (record me { num_processes = n }) (create_locks (n - 1) [] t)
      else record {
        result = minus_one;
        parent = record me { num_processes = n; lock_ids = none };
        children = [];
        table = t;
      }
    else record { result = minus_one; parent = me; children = []; table = t }

-- `(proc_id & (1 << shift)) >> shift` with `shift = num_levels - i - 1`
unfoldable pub role_of : Player → ℕ → ℕ
role_of me i = let shift = me.num_levels - i - 1 in bit_and me.proc_id (2 ^ shift) / 2 ^ shift

-- `(proc_id >> (num_levels - i)) + (1 << i) - 1`
unfoldable pub node_of : Player → ℕ → ℕ
node_of me i = me.proc_id / 2 ^ (me.num_levels - i) + 2 ^ i - 1

-- Where a process stands in a round of tournament_acquire and tournament_release.
pub data Pc : Type 0 where
  idle : Pc
  acquiring : (i : ℕ) → AcquirePc → Pc  -- in peterson_acquire at level i
  unwinding : (j : ℕ) → ReleasePc → Pc  -- in peterson_release at level j, after a failure
  critical : Pc  -- tournament_acquire has returned 0
  releasing : (i : ℕ) → ReleasePc → Pc  -- in peterson_release at level i
  failed : Pc  -- a call has returned -1
  crashed : Pc  -- an access out of bounds

-- `for (int i = num_levels - 1; i >= 0; i--)`: what follows a success at level i
abbrev pub acquired : ℕ → Pc
acquired zero = critical
acquired (suc i) = acquiring i check

abbrev pub after_acquire : ℕ → Next AcquirePc → Pc
after_acquire i (goto p) = acquiring i p
after_acquire i (ret (pos _)) = acquired i
after_acquire i (ret (negsuc _)) = unwinding i ReleasePc.check
after_acquire i fault = crashed

-- The loop `for (int j = i; j < num_levels; j++)` of the failure path.
abbrev pub after_unwind : Player → ℕ → Next ReleasePc → Pc
after_unwind me j (goto p) = unwinding j p
after_unwind me j (ret (pos _)) =
    if ltb (j + 1) me.num_levels then unwinding (j + 1) ReleasePc.check else failed
after_unwind me j (ret (negsuc _)) = failed
after_unwind me j fault = crashed

-- The head of the loop of tournament_release.
abbrev pub release_from : Player → ℕ → Pc
release_from me i = if ltb i me.num_levels then releasing i ReleasePc.check else idle

abbrev pub after_release : Player → ℕ → Next ReleasePc → Pc
after_release me i (goto p) = releasing i p
after_release me i (ret (pos _)) = release_from me (i + 1)
after_release me i (ret (negsuc _)) = failed
after_release me i fault = crashed

abbrev pub is_null : Option (List ℤ) → Bool
is_null none = true
is_null (some _) = false

-- The head of tournament_acquire.
pub begin_acquire : Player → Pc
begin_acquire me =
    if me.num_processes == 0 || me.num_levels == 0 || is_null me.lock_ids
    then failed
    else acquiring (me.num_levels - 1) check

-- One step of a process that loops over tournament_acquire and tournament_release.
unfoldable pub player_step : Player → Pc → Table → Pc × Table
unfolding begin_acquire
player_step me idle t = (begin_acquire me, t)
player_step me (acquiring i p) t =
    let (n, t') = acquire_step (pos (node_of me i)) (pos (role_of me i)) p t in
    (after_acquire i n, t')
player_step me (unwinding j p) t =
    let (n, t') = release_step (pos (node_of me j)) (pos (role_of me j)) p t in
    (after_unwind me j n, t')
player_step me critical t = (release_from me 0, t)
player_step me (releasing i p) t =
    let (n, t') = release_step (pos (node_of me i)) (pos (role_of me i)) p t in
    (after_release me i n, t')
player_step me failed t = (failed, t)
player_step me crashed t = (crashed, t)
