-- ===== src/Tournament/Run.antt =====
-- The processes of a tournament, interleaved one shared access at a time with each other and with
-- calls on locks outside the tree.
use operating_systems_ass.Base.{ℕ, ◌+◌, ◌<◌, ◌^◌, ◌≡◌, List, ℤ, update}
use operating_systems_ass.Peterson.{Table, fresh_lock}
use operating_systems_ass.Tournament.{Pc, player_step}
use operating_systems_ass.Tournament.Tree.{player}

pub record System : Type 0 where
  pub table : Table
  pub pc : ℕ → Pc

module _ (levels : ℕ) (ids : List ℤ) where
  abbrev pub moved : ℕ → System → System
  moved p s =
      let next = player_step (player levels ids p) (s.pc p) s.table in
      record { table = next.1; pc = update s.pc p next.0 }

  pub data Step (s : System) : System → Type 0 where
    move : (p : ℕ) → p < 2 ^ levels → Step s (moved p s)
    -- a call on a lock that is not in the tree
    elsewhere :
        (t : Table)
        → ((v : ℕ) → v + 1 < 2 ^ levels → t v ≡ s.table v)
        → Step s (record s { table = t })

  -- The locks of the tree are as petersonlock_create leaves them, and nobody has called them yet.
  pub record IsInit (s : System) : Type 0 where
    pub fresh : (v : ℕ) → v + 1 < 2 ^ levels → s.table v ≡ fresh_lock
    pub unused : (p : ℕ) → s.pc p ≡ Pc.idle

  pub data Reach : System → Type 0 where
    start : {s : System} → IsInit s → Reach s
    later : {s u : System} → Reach s → Step s u → Reach u
