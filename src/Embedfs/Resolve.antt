-- ===== src/Embedfs/Resolve.antt =====
-- `embedfs_find_file` of bridge/src/embedfs.c, against a walk along the names of a path.
use homekit_bridge.Base.{
  ℕ, ◌≡◌, refl, ap, ◌∙◌, inl, inr, false, Option, none, some, List, [], ◌∷◌, ◌++◌, append_assoc,
  append-nil, arith, Bool-cases, Option-cases, ◌==◌,
}
use mathlib.Core.Path.{subst}
use homekit_bridge.Base.Bytes.{Bytes, same}
use homekit_bridge.Embedfs.{
  Sought, found, absent, unending, outside, File, Dir, Dirs, dir, nil, cons, dir_name, files,
  listed, children, subdir, find_last, find_from, find_file,
}
use homekit_bridge.Embedfs.Search.{IsSorted, first_named, told, search-eq-first_named}

abbrev pub file_name : File → Bytes
file_name f = f.name

-- In every directory of the tree the files and the children are sorted by name, as the build
-- script writes them.
unfoldable mutual
  pub WellFormed : Dir → Type 0
  WellFormed (dir n fs ds) = IsSorted file_name fs × IsSorted dir_name (listed ds) × Each ds

  pub Each : Dirs → Type 0
  Each nil = Unit
  Each (cons d ds) = WellFormed d × Each ds

abbrev pub Without : ℕ → Bytes → Type 0
Without c [] = Unit
Without c (x ∷ s) = ((x == c) ≡ false) × Without c s

abbrev pub EachWithout : ℕ → List Bytes → Type 0
EachWithout c [] = Unit
EachWithout c (p ∷ ps) = Without c p × EachWithout c ps

-- The parts and the last part, with `c` between them.
unfoldable pub join : ℕ → List Bytes → Bytes → Bytes
join c [] last = last
join c (p ∷ ps) last = p ++ c ∷ join c ps last

-- From `d` down through the children that `ps` names, and there the file of the name `last`. An
-- empty name is no file's.
unfoldable pub resolve : Dir → List Bytes → Bytes → Option File
unfolding first_named
resolve d [] [] = none
resolve d [] (c ∷ last) = first_named file_name (c ∷ last) (files d)
resolve d (p ∷ ps) last = elim (first_named dir_name p (children d)) [
  | none ↦ none
  | some d' ↦ resolve d' ps last
]

find_from-end :
    (d : Dir) (start s : Bytes) → Without b'/' s → find_from d start s ≡ find_last d (start ++ s)
unfolding find_from
find_from-end d start [] w = rw append-nil
find_from-end d start (c ∷ s) w =
    rw (w.0, find_from)
      (find_from-end d (start ++ c ∷ []) s w.1 ∙ ap (find_last d) (append_assoc start (c ∷ []) s))

-- What the walk does at the end of a directory's name.
abbrev enter : Dir → Bytes → Bytes → Sought File
enter d p rest = elim (subdir d p) [
  | found d' ↦ find_from d' [] rest
  | absent ↦ absent
  | unending ↦ unending
  | outside ↦ outside
]

find_from-slash :
    (d : Dir) (start p rest : Bytes)
    → Without b'/' p
    → find_from d start (p ++ b'/' ∷ rest) ≡ enter d (start ++ p) rest
unfolding find_from
find_from-slash d start [] rest w = rw append-nil
find_from-slash d start (c ∷ p) rest w =
    rw (w.0, find_from)
      (find_from-slash d (start ++ c ∷ []) p rest w.1
        ∙ ap (λ q. enter d q rest) (append_assoc start (c ∷ []) p))

subdir-eq-first_named :
    (d : Dir) (p : Bytes) → WellFormed d → subdir d p ≡ told (first_named dir_name p (children d))
unfolding subdir WellFormed
subdir-eq-first_named (dir n fs ds) p w = search-eq-first_named dir_name (listed ds) p w.1

Each-first_named :
    (ds : Dirs) (p : Bytes) (d : Dir)
    → Each ds
    → first_named dir_name p (listed ds) ≡ some d
    → WellFormed d
unfolding WellFormed first_named
Each-first_named nil p d e h = cc
Each-first_named (cons x ds) p d e h = elim (Bool-cases (same (dir_name x) p)) [
  | inl s ↦ let q : x ≡ d = ground (arith, s) in subst WellFormed q e.0
  | inr s ↦ Each-first_named ds p d e.1 (ground (arith, s))
]

child-WellFormed :
    (d : Dir) (p : Bytes) (d' : Dir)
    → WellFormed d
    → first_named dir_name p (children d) ≡ some d'
    → WellFormed d'
unfolding WellFormed
child-WellFormed (dir n fs ds) p d' w e = Each-first_named ds p d' w.2 e

find_last-eq-resolve :
    (d : Dir) (last : Bytes) → WellFormed d → find_last d last ≡ told (resolve d [] last)
unfolding find_last WellFormed resolve
find_last-eq-resolve d [] w = refl
find_last-eq-resolve (dir n fs ds) (c ∷ last) w = search-eq-first_named file_name fs (c ∷ last) w.0

-- In a tree that is sorted throughout, `embedfs_find_file` on a path of the parts `ps` and the
-- last part `last`, none of which holds a slash, ends and returns the file that is found by going
-- down through the children of those names, and NULL where a name is missing or `last` is empty.
-- Every binary search on the way ends within the rounds allowed, one more than the array has
-- entries, and looks at no entry outside of its array.
pub find_file-eq-resolve :
    (d : Dir) (ps : List Bytes) (last : Bytes)
    → WellFormed d
    → EachWithout b'/' ps
    → Without b'/' last
    → find_file d (join b'/' ps last) ≡ told (resolve d ps last)
unfolding find_file join resolve
find_file-eq-resolve d [] last w n m = find_from-end d [] last m ∙ find_last-eq-resolve d last w
find_file-eq-resolve d (p ∷ ps) last w n m =
    find_from-slash d [] p (join b'/' ps last) n.0
    ∙ elim (Option-cases (first_named dir_name p (children d))) [
      | inl e ↦ ground (arith, subdir-eq-first_named d p w, e)
      | inr (d', e) ↦ ground (
        arith,
        subdir-eq-first_named d p w,
        e,
        find_file-eq-resolve d' ps last (child-WellFormed d p d' w e) n.1 m,
      )
    ]
