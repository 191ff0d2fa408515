-- ===== src/Directory/Lookup.antt =====
-- dirlookup on the entries of a directory.
use mathlib.Core.Path.{subst}
use native.Mathlib.Decide.{ℕ_discrete, dec_lt}
use operating_systems_ass.Base.{
  ℕ, zero, suc, ◌+◌, ◌-◌, ◌*◌, ◌/◌, ◌%◌, ◌<◌, ◌≤◌, ◌≡◌, refl, ◌≢◌, ◌∙◌, sym, ap, true, false, ◌&&◌,
  Option, none, some, arith, ltb, leb, ◌==◌, ==_iff, ==_ne, lt→ltb, le→ltb, Bool-cases, ◌⊎◌, inl,
  inr,
}
use operating_systems_ass.Blocks.{Superblock, Store}
use operating_systems_ass.Dinode.{Dinode}
use operating_systems_ass.PathName.{dirsiz}
use operating_systems_ass.Content.{Bytes, paste, kernel_copyout, ReadResult, readi}
use operating_systems_ass.Content.Reading.{content, IsFull, Reads, readable, readi-Reads}
use operating_systems_ass.Directory.{
  t_dir, dirent_size, short_at, is_zero, namecmp, Looked, look_at, dirlookup_from, dirlookup,
}
use operating_systems_ass.Directory.Names.{SameName, strncmp-SameName, SameName-strncmp}

-- The entry at `o` of a directory with the bytes `bytes` is in use and has the name at `name`.
abbrev pub Matches : Bytes → Bytes → (name o : ℕ) → Type 0
Matches bytes m name o = (short_at bytes o ≢ 0) × SameName dirsiz m name bytes (o + 2)

-- What a lookup from `from` on finds: the first entry that matches, with its number, or none does.
abbrev pub Finds : Bytes → (size : ℕ) → Bytes → (name from : ℕ) → Option (ℕ × ℕ) → Type 0
Finds bytes size m name from none =
    (o : ℕ) → from ≤ o → o < size → o % dirent_size ≡ 0 → ¬ Matches bytes m name o
Finds bytes size m name from (some (o, inum)) =
    (from ≤ o)
    × (o < size)
    × (o % dirent_size ≡ 0)
    × (inum ≡ short_at bytes o)
    × Matches bytes m name o
    × ((q : ℕ) → from ≤ q → q < o → q % dirent_size ≡ 0 → ¬ Matches bytes m name q)

Finds-next :
    (bytes : Bytes) (size : ℕ) (m : Bytes) (name from : ℕ) (o : Option (ℕ × ℕ))
    → from % dirent_size ≡ 0
    → (¬ Matches bytes m name from)
    → Finds bytes size m name (from + dirent_size) o
    → Finds bytes size m name from o
Finds-next bytes size m name from none a n h = λ o l w e. elim (ℕ_discrete from o) [
  | yes same ↦ subst (λ o. ¬ Matches bytes m name o) same n
  | no d ↦ h o (omega arith) w e
]
Finds-next bytes size m name from (some (o, inum)) a n h = (
  omega (arith, h.0),
  h.1,
  h.2,
  h.3,
  h.4,
  λ q l w e. elim (ℕ_discrete from q) [
    | yes same ↦ subst (λ q. ¬ Matches bytes m name q) same n
    | no d ↦ h.5 q (omega arith) w e
  ],
)

SameName-shown :
    (n : ℕ) (a a' : Bytes) (p : ℕ) (b b' : Bytes) (q q' : ℕ)
    → ((i : ℕ) → i < n → a (p + i) ≡ a' (p + i))
    → ((i : ℕ) → i < n → b (q + i) ≡ b' (q' + i))
    → SameName n a p b q
    → SameName n a' p b' q'
SameName-shown n a a' p b b' q q' ea eb h i l before =
    sym (ea i l)
    ∙ (h i l (λ j m. subst (λ v. v ≢ 0) (sym (ea j (omega arith))) (before j m)) ∙ eb i l)

module _ (sb : Superblock) (d : Dinode) (st : Store) (whole : IsFull d st)
    (entries : d.size % dirent_size ≡ 0) (m : Bytes) (name de : ℕ)
    (apart : (i : ℕ) → i < dirsiz → (name + i < de) ⊎ (de + dirent_size ≤ name + i)) where
  abbrev bytes : Bytes
  bytes = content d st

  abbrev pub Result : (from : ℕ) → Option Looked → Type 0
  Result from o =
      (l : Looked) × (o ≡ some l)
      × Finds bytes d.size m name from l.found
      × (l.dir ≡ d)
      × (l.store ≡ st)

  abbrev NameKept : Bytes → Type 0
  NameKept m' = (i : ℕ) → i < dirsiz → m' (name + i) ≡ m (name + i)

  -- The memory after an entry is read
  module _ (m' m'' : Bytes) (off : ℕ) (kept : NameKept m')
      (read : (p : ℕ) → m'' p ≡ paste bytes off m' de dirent_size p) where
    entry_byte : (i : ℕ) → i < dirent_size → m'' (de + i) ≡ bytes (off + i)
    entry_byte i h =
        let inside : (leb de (de + i) && ltb (de + i) (de + dirent_size)) ≡ true = ground arith in
        let index : off + (de + i - de) ≡ off + i = omega arith in
        read (de + i) ∙ rw inside (ap bytes index)

    name_byte : NameKept m''
    name_byte i h =
        let side = apart i h in
        let outside : (leb de (name + i) && ltb (name + i) (de + dirent_size)) ≡ false =
          ground (arith, side) in
        read (name + i) ∙ rw outside (kept i h)

    entry_short : short_at m'' de ≡ short_at bytes off
    entry_short =
        let a : m'' de ≡ bytes off =
          ap m'' (omega arith) ∙ (entry_byte 0 (omega arith) ∙ ap bytes (omega arith)) in
        let b : m'' (de + 1) ≡ bytes (off + 1) = entry_byte 1 (omega arith) in rw (a, b) refl

    tail_byte : (i : ℕ) → i < dirsiz → m'' (de + 2 + i) ≡ bytes (off + 2 + i)
    tail_byte i h =
        let a : de + 2 + i ≡ de + (2 + i) = omega arith in
        let b : off + (2 + i) ≡ off + 2 + i = omega arith in
        ap m'' a ∙ (entry_byte (2 + i) (omega arith) ∙ ap bytes b)

    name_found : is_zero (namecmp name (de + 2) m'') ≡ true → SameName dirsiz m name bytes (off + 2)
    unfolding namecmp
    name_found h =
        SameName-shown dirsiz m'' m name m'' bytes (de + 2) (off + 2) name_byte tail_byte
          (strncmp-SameName dirsiz name (de + 2) m'' h)

    name_missed :
        is_zero (namecmp name (de + 2) m'') ≡ false → ¬ SameName dirsiz m name bytes (off + 2)
    unfolding namecmp
    name_missed h same =
        let back =
          SameName-shown dirsiz m m'' name bytes m'' (off + 2) (de + 2) (λ i l. sym (name_byte i l))
            (λ i l. sym (tail_byte i l)) same in
        cc (SameName-strncmp dirsiz name (de + 2) m'' back, h)

    look_at_lem :
        (next : ReadResult → Option Looked)
        → off % dirent_size ≡ 0
        → off < d.size
        → (let r : ReadResult = record {
          count = some dirent_size;
          copy = d;
          store = st;
          memory = m'';
        } in
            Result (off + dirent_size) (next r) → Result off (look_at next name de off r))
    unfolding look_at
    look_at_lem next a w rest = elim (ℕ_discrete (short_at bytes off) 0) [
      | yes z ↦
          let test : (short_at m'' de == 0) ≡ true = (==_iff _ 0).1 (entry_short ∙ z) in
          (
            rest.0,
            rw test rest.1,
            Finds-next bytes d.size m name off rest.0.found a (λ h. h.0 z) rest.2,
            rest.3,
            rest.4,
          )
      | no n ↦
          let test : (short_at m'' de == 0) ≡ false = ==_ne _ 0 (λ z. n (sym entry_short ∙ z)) in
          elim (Bool-cases (is_zero (namecmp name (de + 2) m''))) [
            | inl same ↦ (
              record { found = some (off, short_at m'' de); dir = d; store = st; memory = m'' },
              rw (test, same) refl,
              (
                omega arith,
                w,
                a,
                entry_short,
                (n, name_found same),
                λ q l u. absurd (omega (arith, l, u)),
              ),
              refl,
              refl,
            )
            | inr other ↦ (
              rest.0,
              rw (test, other) rest.1,
              Finds-next bytes d.size m name off rest.0.found a (λ h. name_missed other h.1) rest.2,
              rest.3,
              rest.4,
            )
          ]
    ]

  dirlookup_from_lem :
      (fuel off : ℕ) (m' : Bytes)
      → NameKept m'
      → off % dirent_size ≡ 0
      → off ≤ d.size
      → d.size < off + fuel * dirent_size
      → Result off (dirlookup_from fuel sb d name de off st m')
  unfolding dirlookup_from
  dirlookup_from_lem zero off m' kept a below f = absurd (omega (arith, below, f))
  dirlookup_from_lem (suc fuel) off m' kept a below f = elim (dec_lt off d.size) [
    | no l ↦ (
      record { found = none; dir = d; store = st; memory = m' },
      rw (le→ltb off d.size (omega arith)) refl,
      λ o h w. absurd (omega (arith, h, w, l)),
      refl,
      refl,
    )
    | yes l ↦
        let exact : readable sb d st whole off dirent_size ≡ dirent_size =
          ground (arith, whole.bounded) in
        let got : Reads d st dirent_size off de dirent_size m'
            (readi kernel_copyout sb d de off dirent_size st m') =
          subst (λ n. Reads d st n off de n m' (readi kernel_copyout sb d de off dirent_size st m'))
            exact
            (readi-Reads sb d st whole de off dirent_size m' (omega (arith, whole.bounded))) in
        let rest =
          dirlookup_from_lem fuel (off + dirent_size) got.0 (name_byte m' got.0 off kept got.2)
            (omega arith) (omega arith) (omega arith) in
        rw (lt→ltb off d.size l, got.1)
          (look_at_lem m' got.0 off kept got.2
            (λ (r : ReadResult).
              dirlookup_from fuel sb r.copy name de (off + dirent_size) r.store r.memory)
            a l rest)
  ]

  -- For a directory with a block for each of its bytes and a whole number of entries, and a name apart
  -- from the entry on the stack: dirlookup panics if the inode is no directory; otherwise it returns
  -- the offset and the inode number of the first entry in use whose name is the one looked up, or
  -- nothing if there is no such entry, and leaves the directory as it was. Two names are the same
  -- if their bytes agree up to the first 0, or to the size of a name.
  pub dirlookup-Finds :
      (d.type ≢ t_dir → dirlookup sb d name de st m ≡ none)
      × (d.type ≡ t_dir → Result 0 (dirlookup sb d name de st m))
  unfolding dirlookup
  dirlookup-Finds = (
    λ n. rw (==_ne d.type t_dir n) refl,
    λ e.
        let loop =
          dirlookup_from_lem (d.size / dirent_size + 2) 0 m (λ _ _. refl) (omega arith)
            (omega arith) (omega arith) in
        (loop.0, rw ((==_iff d.type t_dir).1 e) loop.1, loop.2, loop.3, loop.4),
  )
