-- ===== src/PathName.antt =====
-- kernel/fs.c, the elements of a path: skipelem. A path is the list of its bytes before the 0 that ends
-- it, and a pointer into it is the rest of the list. A name is the list of the bytes that the caller
-- reads in its buffer of `dirsiz` bytes: those before the first 0, or all of them.
pub mod Elements
mod Tests
use operating_systems_ass.Base.{
  ℕ, zero, suc, Bool, Option, none, some, List, [], ◌∷◌, ◌==◌, if◌then◌else◌, take,
}

abbrev pub dirsiz : ℕ
dirsiz = 14

abbrev pub String : Type 0
String = List ℕ

abbrev pub is_slash : ℕ → Bool
is_slash c = c == b'/'

-- `while(*path == '/') path++;`
unfoldable pub skip_slashes : String → String
skip_slashes [] = []
skip_slashes (c ∷ path) = let rest = skip_slashes path in if is_slash c then rest else c ∷ path

-- The bytes that `while(*path != '/' && *path != 0) path++;` passes
unfoldable pub elem_of : String → String
elem_of [] = []
elem_of (c ∷ path) = let rest = elem_of path in if is_slash c then [] else c ∷ rest

-- The path after that loop
unfoldable pub after_elem : String → String
after_elem [] = []
after_elem (c ∷ path) = let rest = after_elem path in if is_slash c then c ∷ path else rest

-- skipelem from the first byte that is no slash on: the name and the path that follows
unfoldable pub skip_one : String → Option (String × String)
skip_one [] = none
skip_one (c ∷ path) = some (take dirsiz (elem_of (c ∷ path)), skip_slashes (after_elem (c ∷ path)))

unfoldable pub skipelem : String → Option (String × String)
skipelem path = skip_one (skip_slashes path)

-- The names that the loop of namex goes through
unfoldable pub names_from : (String → List String) → Option (String × String) → List String
names_from next none = []
names_from next (some (name, path)) = name ∷ next path

unfoldable pub names : ℕ → String → List String
names zero path = []
names (suc fuel) path = names_from (names fuel) (skipelem path)
