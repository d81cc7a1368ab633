-- ===== src/Embedfs.antt =====
-- The read-only file tree that holds the Lua code, bridge/src/embedfs.c, and the module searcher
-- that looks files up in it, bridge/src/app.c.
--
-- Names and paths are C strings, so they have no zero byte. A pointer into the copied path is
-- represented by the text between `start` and `end` and the text behind `end`.
pub mod Search
pub mod Resolve
pub mod Modules
mod Tests
use homekit_bridge.Base.{
  ℕ, zero, suc, ◌+◌, ◌-◌, ◌/◌, Bool, true, false, Option, none, some, List, [], ◌∷◌, ◌++◌, map,
  Ordering, ltb, ◌==◌, if◌then◌else◌, length, get_elem?,
}
use homekit_bridge.Base.Bytes.{Bytes, strcmp}

-- `embedfs_file`; its length is that of `content`.
pub record File : Type 0 where
  pub name : Bytes
  pub content : Bytes

-- `embedfs_dir`: the name, the files and the children. `Dirs` is the array of children.
mutual
  pub data Dir : Type 0 where
    dir : Bytes → List File → Dirs → Dir

  pub data Dirs : Type 0 where
    nil : Dirs
    cons : Dir → Dirs → Dirs

abbrev pub dir_name : Dir → Bytes
dir_name (dir n fs ds) = n

abbrev pub files : Dir → List File
files (dir n fs ds) = fs

abbrev pub listed : Dirs → List Dir
listed nil = []
listed (cons d ds) = d ∷ listed ds

abbrev pub children : Dir → List Dir
children (dir n fs ds) = listed ds

-- How a search ends: it returns a pointer or NULL, or it has not ended when the rounds that are allowed
-- are used up, or it looks at an entry outside of the array.
pub data Sought (A : Type 0) : Type 0 where
  found : A → Sought A
  absent unending outside : Sought A

-- The loop of both binary searches. `hi` is `right + 1`, since `right` is -1 in an empty range;
-- the first argument bounds the rounds.
module _ {A : Type 0} (name : A → Bytes) (xs : List A) (key : Bytes) where
  unfoldable pub search : ℕ → ℕ → ℕ → Sought A
  search zero left hi = unending
  search (suc f) left hi =
      let mid = left + (hi - 1 - left) / 2 in
      elim (ltb left hi) [
        | false ↦ absent
        | true ↦ elim (get_elem? xs mid) [
          | none ↦ outside
          | some x ↦ elim (strcmp (name x) key) [
            | Ordering.gt ↦ search f left mid
            | Ordering.lt ↦ search f (mid + 1) hi
            | Ordering.eq ↦ found x
          ]
        ]
      ]

-- `embedfs_subdir`
unfoldable pub subdir : Dir → Bytes → Sought Dir
subdir d key = search dir_name (children d) key (suc (length (children d))) 0 (length (children d))

-- The end of `embedfs_find_file`: the binary search among the files of the last directory.
unfoldable pub find_last : Dir → Bytes → Sought File
find_last d [] = absent
find_last d (c ∷ s) =
    search (λ f. f.name) (files d) (c ∷ s) (suc (length (files d))) 0 (length (files d))

-- The loop of `embedfs_find_file`: `start` is the text from `start` to `end`, the last argument
-- the text from `end` on.
unfoldable pub find_from : Dir → Bytes → Bytes → Sought File
find_from d start [] = find_last d start
find_from d start (c ∷ rest) = elim (c == b'/') [
  | true ↦ elim (subdir d start) [
    | found d' ↦ find_from d' [] rest
    | absent ↦ absent
    | unending ↦ unending
    | outside ↦ outside
  ]
  | false ↦ find_from d (start ++ c ∷ []) rest
]

-- `embedfs_find_file`
unfoldable pub find_file : Dir → Bytes → Sought File
find_file d path = find_from d [] path

-- ".luac"
abbrev pub luac : Bytes
luac = b'.' ∷ b'l' ∷ b'u' ∷ b'a' ∷ b'c' ∷ []

-- `gen_filename`
unfoldable pub gen_filename : Bytes → Bytes
gen_filename [] = luac
gen_filename (c ∷ name) = (if c == b'.' then b'/' else c) ∷ gen_filename name

-- `searcher_embedfs`: the file that is loaded, or the name of the file that is not there.
unfoldable pub searcher_embedfs : Dir → Bytes → Sought File
searcher_embedfs root name = find_file root (gen_filename name)
