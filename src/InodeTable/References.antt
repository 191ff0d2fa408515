-- ===== src/InodeTable/References.antt =====
-- References to the entries of the table of inodes.
use mathlib.Core.Path.{subst}
use native.Mathlib.Decide.{ℕ_discrete}
use operating_systems_ass.Base.{
  ℕ, ◌+◌, ◌-◌, ◌<◌, ◌≡◌, refl, ◌≢◌, ◌∙◌, sym, ap, true, false, Option, none, some, arith,
  if◌then◌else◌, Bool-cases, inl, inr, update, update_self, update_ne,
}
use operating_systems_ass.Dinode.{Inode}
use operating_systems_ass.InodeTable.{
  ninode, Itable, is_entry, Found, cached, recycles, find_entry, iget_from, iget, drop_ref,
}
use operating_systems_ass.InodeTable.Search.{Scans, find_entry-Scans}

-- No inode has two entries with references.
pub record IsTable (t : Itable) : Type 0 where
  pub unique :
      (dev inum i j : ℕ)
      → i < ninode
      → j < ninode
      → is_entry (t i) dev inum ≡ true
      → is_entry (t j) dev inum ≡ true
      → i ≡ j

-- An entry changes to one of an inode that has no other entry.
update-IsTable :
    (t : Itable) (i : ℕ) (ip : Inode)
    → IsTable t
    → ((dev inum j : ℕ)
        → j < ninode
        → i ≢ j
        → is_entry ip dev inum ≡ true
        → is_entry (t j) dev inum ≡ false)
    → IsTable (update t i ip)
update-IsTable t i ip ok alone = record {
  unique = λ dev inum a b ha hb ea eb. elim (ℕ_discrete i a) [
    | yes ia ↦ elim (ℕ_discrete i b) [
      | yes ib ↦ sym ia ∙ ib
      | no nb ↦
          let mine : is_entry ip dev inum ≡ true =
            ap (λ q. is_entry q dev inum) (sym (at a ia)) ∙ ea in
          let other : is_entry (t b) dev inum ≡ true =
            ap (λ q. is_entry q dev inum) (sym (update_ne t i b ip nb)) ∙ eb in
          absurd (cc (alone dev inum b hb nb mine, other))
    ]
    | no na ↦
        let this : is_entry (t a) dev inum ≡ true =
          ap (λ q. is_entry q dev inum) (sym (update_ne t i a ip na)) ∙ ea in
        elim (ℕ_discrete i b) [
          | yes ib ↦
              let mine : is_entry ip dev inum ≡ true =
                ap (λ q. is_entry q dev inum) (sym (at b ib)) ∙ eb in
              absurd (cc (alone dev inum a ha na mine, this))
          | no nb ↦
              ok.unique dev inum a b ha hb this
                (ap (λ q. is_entry q dev inum) (sym (update_ne t i b ip nb)) ∙ eb)
        ]
  ];
}
  where
    at : (a : ℕ) → i ≡ a → update t i ip a ≡ ip
    at a e = subst (λ a. update t i ip a ≡ ip) e (update_self t i ip)

-- Iget returns entry `i`.
pub record Gives (t : Itable) (dev inum i : ℕ) (t' : Itable) : Type 0 where
  pub within : i < ninode
  pub names : ((t' i).dev ≡ dev) × ((t' i).inum ≡ inum)
  pub counts : (t' i).ref ≡ (if is_entry (t i) dev inum then (t i).ref + 1 else 1)
  pub keeps :
      is_entry (t i) dev inum ≡ true → ((t' i).valid ≡ (t i).valid) × ((t' i).copy ≡ (t i).copy)
  pub recycled : is_entry (t i) dev inum ≡ false → ((t i).ref ≡ 0) × ((t' i).valid ≡ false)
  pub only_entry : (j : ℕ) → j < ninode → is_entry (t j) dev inum ≡ true → j ≡ i
  pub others : (j : ℕ) → i ≢ j → t' j ≡ t j
  pub still_table : IsTable t'

abbrev pub GivesOr : Itable → (dev inum : ℕ) → Option (ℕ × Itable) → Type 0
GivesOr t dev inum none = (j : ℕ) → j < ninode → ((t j).ref ≢ 0) × (is_entry (t j) dev inum ≡ false)
GivesOr t dev inum (some (i, t')) = Gives t dev inum i t'

is_entry_parts :
    (ip : Inode) (dev inum : ℕ)
    → is_entry ip dev inum ≡ true
    → (ip.dev ≡ dev) × (ip.inum ≡ inum) × (0 < ip.ref)
is_entry_parts ip dev inum h = ground (arith, h)

module _ (t : Itable) (ok : IsTable t) where
  -- An entry with references keeps its device and number.
  same_name :
      (i : ℕ) (ip : Inode)
      → i < ninode
      → 0 < (t i).ref
      → ip.dev ≡ (t i).dev
      → ip.inum ≡ (t i).inum
      → IsTable (update t i ip)
  same_name i ip h r ed ei = update-IsTable t i ip ok (λ dev inum j l n on.
      let was : is_entry (t i) dev inum ≡ true = ground (arith, on, r, ed, ei) in
      elim (Bool-cases (is_entry (t j) dev inum)) [
        | inl both ↦ absurd (n (ok.unique dev inum i j h l was both))
        | inr off ↦ off
      ])

  module _ (dev inum : ℕ) where
    from-Gives :
        (f : Found) → Scans t dev inum ninode 0 none f → GivesOr t dev inum (iget_from t dev inum f)
    unfolding iget_from
    from-Gives (cached i) h =
        let parts = is_entry_parts (t i) dev inum h.2 in
        let new : Inode = record (t i) { ref = (t i).ref + 1 } in
        let here : update t i new i ≡ new = update_self t i new in
        record {
          within = h.1;
          names =
              (ap (λ (q : Inode). q.dev) here ∙ parts.0, ap (λ (q : Inode). q.inum) here ∙ parts.1);
          counts = ap (λ (q : Inode). q.ref) here ∙ rw h.2 refl;
          keeps = λ _. (ap (λ (q : Inode). q.valid) here, ap (λ (q : Inode). q.copy) here);
          recycled = λ off. absurd (cc (h.2, off));
          only_entry = λ j l on. ok.unique dev inum j i l h.1 on h.2;
          others = λ j n. update_ne t i j new n;
          still_table = same_name i new h.1 parts.2 refl refl;
        }
    from-Gives (recycles none) h = λ j l. (h.1 j (omega arith) l, h.0 j (omega arith) l)
    from-Gives (recycles (some i)) h =
        let free : (t i).ref ≡ 0 = h.1.2 in
        let new : Inode = record (t i) { dev = dev; inum = inum; ref = 1; valid = false } in
        let here : update t i new i ≡ new = update_self t i new in
        let off : is_entry (t i) dev inum ≡ false = h.0 i (omega arith) h.1.1 in
        record {
          within = h.1.1;
          names = (ap (λ (q : Inode). q.dev) here, ap (λ (q : Inode). q.inum) here);
          counts = ap (λ (q : Inode). q.ref) here ∙ rw off refl;
          keeps = λ on. absurd (cc (on, off));
          recycled = λ _. (free, ap (λ (q : Inode). q.valid) here);
          only_entry = λ j l on. absurd (cc (on, h.0 j (omega arith) l));
          others = λ j n. update_ne t i j new n;
          still_table = update-IsTable t i new ok (λ dev' inum' j l n on.
              let ed : dev ≡ dev' = ground (arith, on) in
              let ei : inum ≡ inum' = ground (arith, on) in
              subst (λ d. is_entry (t j) d inum' ≡ false) ed
                (subst (λ k. is_entry (t j) dev k ≡ false) ei (h.0 j (omega arith) l)));
        }

    -- On a table where no inode has two entries with references: iget returns the entry of the
    -- inode with one reference more, or else an entry without references, made one of that inode
    -- that is to be read in, with one reference. No other entry changes, and still no inode has two
    -- entries. It panics only if each entry has references, and none is of the inode.
    pub iget-Gives : GivesOr t dev inum (iget t dev inum)
    unfolding iget
    iget-Gives =
        from-Gives (find_entry ninode 0 t dev inum none) (find_entry-Scans t dev inum ninode 0 none)

  -- Entry `i` with one reference less
  pub record Puts (i : ℕ) (t' : Itable) : Type 0 where
    pub one_less : (t' i).ref ≡ (t i).ref - 1
    pub same_inode : ((t' i).dev ≡ (t i).dev) × ((t' i).inum ≡ (t i).inum)
    pub rest : (j : ℕ) → i ≢ j → t' j ≡ t j
    pub is_table : IsTable t'

  pub drop_ref-Puts :
      (i : ℕ) (ip : Inode)
      → i < ninode
      → 0 < (t i).ref
      → ip.ref ≡ (t i).ref
      → ip.dev ≡ (t i).dev
      → ip.inum ≡ (t i).inum
      → Puts i (drop_ref i t ip)
  unfolding drop_ref
  drop_ref-Puts i ip h r er ed ei =
      let new : Inode = record ip { ref = ip.ref - 1 } in
      record {
        one_less = ap (λ (q : Inode). q.ref) (update_self t i new) ∙ ap (λ k. k - 1) er;
        same_inode = (
          ap (λ (q : Inode). q.dev) (update_self t i new) ∙ ed,
          ap (λ (q : Inode). q.inum) (update_self t i new) ∙ ei,
        );
        rest = λ j n. update_ne t i j new n;
        is_table = same_name i new h r ed ei;
      }
