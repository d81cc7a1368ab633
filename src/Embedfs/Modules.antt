-- ===== src/Embedfs/Modules.antt =====
-- From the name of a Lua module to its file: `gen_filename` and `searcher_embedfs` of
-- bridge/src/app.c.
use homekit_bridge.Base.{◌≡◌, refl, ap, ◌∙◌, List, [], ◌∷◌, ◌++◌, arith}
use homekit_bridge.Base.Bytes.{Bytes}
use homekit_bridge.Embedfs.{Dir, luac, gen_filename, find_file, searcher_embedfs}
use homekit_bridge.Embedfs.Search.{told}
use homekit_bridge.Embedfs.Resolve.{
  WellFormed, Without, EachWithout, join, resolve, find_file-eq-resolve,
}

gen_filename-end : (s : Bytes) → Without b'.' s → gen_filename s ≡ s ++ luac
unfolding gen_filename
gen_filename-end [] w = refl
gen_filename-end (c ∷ s) w = ground (arith, gen_filename-end s w.1)

gen_filename-dot :
    (p rest : Bytes)
    → Without b'.' p
    → gen_filename (p ++ b'.' ∷ rest) ≡ p ++ b'/' ∷ gen_filename rest
unfolding gen_filename
gen_filename-dot [] rest w = refl
gen_filename-dot (c ∷ p) rest w = ground (arith, gen_filename-dot p rest w.1)

-- `gen_filename` turns the dots of a module name into slashes and adds ".luac".
pub gen_filename-join :
    (ps : List Bytes) (last : Bytes)
    → EachWithout b'.' ps
    → Without b'.' last
    → gen_filename (join b'.' ps last) ≡ join b'/' ps (last ++ luac)
unfolding join
gen_filename-join [] last n m = gen_filename-end last m
gen_filename-join (p ∷ ps) last n m =
    gen_filename-dot p (join b'.' ps last) n.0
    ∙ ap (λ s. p ++ b'/' ∷ s) (gen_filename-join ps last n.1 m)

Without-luac : (s : Bytes) → Without b'/' s → Without b'/' (s ++ luac)
Without-luac [] w = ground arith
Without-luac (c ∷ s) w = (w.0, Without-luac s w.1)

-- `searcher_embedfs` finds the module `a.b.c` as the file `c.luac` in the directory `a/b` of a
-- sorted tree, and finds nothing where that file is not there; the searches end in both cases and
-- stay in their arrays. The parts hold no dot and no slash.
pub searcher_embedfs-eq-resolve :
    (root : Dir) (ps : List Bytes) (last : Bytes)
    → WellFormed root
    → EachWithout b'.' ps
    → EachWithout b'/' ps
    → Without b'.' last
    → Without b'/' last
    → searcher_embedfs root (join b'.' ps last) ≡ told (resolve root ps (last ++ luac))
unfolding searcher_embedfs
searcher_embedfs-eq-resolve root ps last w n m k l =
    ap (find_file root) (gen_filename-join ps last n k)
    ∙ find_file-eq-resolve root ps (last ++ luac) w m (Without-luac last l)
