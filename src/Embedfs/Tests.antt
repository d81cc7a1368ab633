-- ===== src/Embedfs/Tests.antt =====
-- Lookups in a small tree, and the theorems at them.
use homekit_bridge.Base.{◌≡◌, refl, [], ◌∷◌, arith}
use homekit_bridge.Base.Bytes.{strcmp, same}
use homekit_bridge.Embedfs.{
  File, Dir, dir, nil, cons, found, absent, luac, search, subdir, find_last, find_from, find_file,
  searcher_embedfs,
}
use homekit_bridge.Embedfs.Search.{first_named}
use homekit_bridge.Embedfs.Resolve.{WellFormed, join, resolve, find_file-eq-resolve}
use homekit_bridge.Embedfs.Modules.{searcher_embedfs-eq-resolve}

abbrev a_luac : File
a_luac = record { name = b'a' ∷ luac; content = 1 ∷ [] }

abbrev b_luac : File
b_luac = record { name = b'b' ∷ luac; content = 2 ∷ [] }

abbrev c_luac : File
c_luac = record { name = b'c' ∷ luac; content = 3 ∷ [] }

abbrev sub : Dir
sub = dir (b's' ∷ []) (b_luac ∷ c_luac ∷ []) nil

abbrev root : Dir
root = dir [] (a_luac ∷ b_luac ∷ c_luac ∷ []) (cons (dir (b'm' ∷ []) [] nil) (cons sub nil))

root-WellFormed : WellFormed root
unfolding WellFormed strcmp
root-WellFormed = ground arith

there : find_file root (b's' ∷ b'/' ∷ b'c' ∷ luac) ≡ found c_luac
unfolding find_file find_from subdir find_last search strcmp
there = refl

missing : find_file root (b's' ∷ b'/' ∷ b'a' ∷ luac) ≡ absent
unfolding find_file find_from subdir find_last search strcmp
missing = refl

no_name : find_file root (b's' ∷ b'/' ∷ []) ≡ absent
unfolding find_file find_from subdir find_last search strcmp
no_name = refl

find_file-eq-resolve_example :
    find_file root (join b'/' ((b's' ∷ []) ∷ []) (b'b' ∷ luac)) ≡ found b_luac
unfolding resolve first_named same strcmp
find_file-eq-resolve_example =
    find_file-eq-resolve root ((b's' ∷ []) ∷ []) (b'b' ∷ luac) root-WellFormed (ground arith)
      (ground arith)

searcher_embedfs-eq-resolve_example :
    searcher_embedfs root (join b'.' ((b's' ∷ []) ∷ []) (b'c' ∷ [])) ≡ found c_luac
unfolding resolve first_named same strcmp
searcher_embedfs-eq-resolve_example =
    searcher_embedfs-eq-resolve root ((b's' ∷ []) ∷ []) (b'c' ∷ []) root-WellFormed (ground arith)
      (ground arith) (ground arith) (ground arith)
