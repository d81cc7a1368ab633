-- ===== src/Nvs/Store.antt =====
-- The open handles and the files of platform/posix/src/nvs.c: `pal_nvs_init`, `pal_nvs_open`,
-- `pal_nvs_commit`, `pal_nvs_close`, `pal_nvs_deinit`.
--
-- The files of the store's directory are a function of the name. A handle's address is represented
-- by its namespace, since no two open handles have the same. The answers of the system and of the
-- allocator are arguments. The process's working directory is taken to be another directory, so
-- `remove(tmp_path)` on an error, which names no directory, removes nothing in the store. A path that
-- is cut short at 256 bytes, which passes the test of `pal_nvs_open` only if a byte outside of the
-- buffer happens to be the same, is taken to name the same file.
pub mod Commit
pub mod Handles
pub mod Reopen
use homekit_bridge.Base.{
  is_empty, ℕ, ◌+◌, ◌-◌, ◌%◌, ◌^◌, Bool, true, false, not, ◌&&◌, Option, none, some, List, [], ◌∷◌,
  ◌++◌, ltb, leb, ◌==◌, if◌then◌else◌, length,
}
use homekit_bridge.Base.Bytes.{Bytes, same}
use homekit_bridge.Base.Outcome.{Outcome, ok, abort, ◌>>=◌, ◌>>◌, require}
use homekit_bridge.Nvs.{Mode, readonly, readwrite, Item, Handle, is_readonly}
use homekit_bridge.Nvs.Io.{Answer}
use homekit_bridge.Nvs.Codec.{magic, all_parts, write_parts}
use homekit_bridge.Nvs.Load.{load, loaded, unreadable, crashed, overrun, out_of_fuel}

abbrev pub Files : Type 0
Files = Bytes → Option Bytes

abbrev pub put_file : Files → Bytes → Option Bytes → Files
put_file files name content n = if same name n then content else files n

-- The static variables, with the files.
pub record Store : Type 0 where
  pub inited : Bool
  pub dir : Bytes
  pub handles : List Handle
  pub files : Files

-- What the system answers to the calls of one `pal_nvs_commit`.
pub record CommitAnswers : Type 0 where
  pub remove_ok : Bool
  pub create_ok : Bool
  pub opendir_ok : Bool
  pub dirfd_ok : Bool
  pub openat_ok : Bool
  pub writes : List Answer
  pub sync_before_ok : Bool
  pub rename_ok : Bool
  pub sync_after_ok : Bool

-- What the system and the allocator answer to the calls of one `pal_nvs_open`. `stray` says
-- whether the byte that is compared outside of a buffer happens to be the same.
pub record OpenAnswers : Type 0 where
  pub handle_memory : Bool
  pub name_memory : Bool
  pub stray : Bool
  pub open_ok : Bool
  pub reads : List Answer
  pub item_memory : ℕ → Bool

-- "%s-tmp"
abbrev pub tmp_name : Bytes → Bytes
tmp_name name = name ++ b'-' ∷ b't' ∷ b'm' ∷ b'p' ∷ []

-- `pal_nvs_commit` from `renameat` on.
unfoldable pub rename_tmp : CommitAnswers → Handle → Files → Bytes → (Handle × Files) × Bool
rename_tmp a h files bytes =
    let renamed = put_file (put_file files (tmp_name h.name) none) h.name (some bytes) in
    if not a.rename_ok
    then ((h, files), false)
    else if not a.sync_after_ok
    then ((h, renamed), false)
    else ((record h { changed = false }, renamed), true)

-- `pal_nvs_commit` from the opening of the temporary file on.
unfoldable pub write_tmp : CommitAnswers → Handle → Files → (Handle × Files) × Bool
write_tmp a h files =
    let (bytes, whole) = write_parts a.writes (magic ∷ all_parts h.items) in
    let written = put_file files (tmp_name h.name) (some bytes) in
    if not a.openat_ok
    then ((h, files), false)
    else if not whole
    then ((h, written), false)
    else if not a.sync_before_ok
    then ((h, written), false)
    else rename_tmp a h written bytes

-- `pal_nvs_commit`
unfoldable pub commit : CommitAnswers → Handle → Files → (Handle × Files) × Bool
commit a h files =
    if is_readonly h.mode
    then ((h, files), false)
    else if not h.changed
    then ((h, files), true)
    else if is_empty h.items
    then (if a.remove_ok then ((h, put_file files h.name none), true) else ((h, files), false))
    else if not (a.create_ok && a.opendir_ok && a.dirfd_ok)
    then ((h, files), false)
    else if not (leb (length (tmp_name h.name)) 255)
    then ((h, files), false)
    else write_tmp a h files

-- `pal_nvs_init`; `memory` answers the allocation of the directory's name.
unfoldable pub init : Bool → Bytes → Store → Outcome Store
init memory dir s = do
  require (not s.inited)
  require memory
  ok (record s { dir = dir; handles = []; inited = true })

unfoldable pub find_handle : Bytes → List Handle → Option Handle
find_handle name [] = none
find_handle name (h ∷ hs) = if same h.name name then some h else find_handle name hs

-- The list with what is done to the handle of that name.
unfoldable pub alter : Bytes → (Handle → List Handle) → List Handle → List Handle
alter name f [] = []
alter name f (h ∷ hs) = if same h.name name then f h ++ hs else h ∷ alter name f hs

-- The test of the path that `snprintf` has written to a buffer of 256 bytes: its last byte is to be
-- the name's. The byte lies outside of a buffer for an empty name, and for a path of more than 256.
abbrev pub path_fits : Bytes → Bytes → Bool → Bool
path_fits dir name stray =
    let len = length dir + 1 + length name in
    if is_empty name
    then stray
    else if ltb len 256
    then true
    else if len == 256
    then false
    else stray

abbrev pub new_handle : Bytes → Mode → List Item → Handle
new_handle name mode is = record {
  using_count = 1;
  mode = mode;
  changed = false;
  name = name;
  items = is;
}

-- `pal_nvs_open` for a namespace that is not open. A read into a block that is too small ends here as
-- a failed assertion does.
unfoldable pub open_new : OpenAnswers → Bytes → Mode → Store → Outcome (Store × Bool)
open_new a name mode s =
    let opened =
      λ (is : List Item). ok (record s { handles = new_handle name mode is ∷ s.handles }, true) in
    if not (a.handle_memory && a.name_memory && path_fits s.dir name a.stray && a.open_ok)
    then ok (s, false)
    else elim (s.files name) [
      | none ↦ opened []
      | some content ↦ elim (load a.item_memory a.reads content) [
        | loaded is ↦ opened is
        | unreadable ↦ ok (s, false)
        | crashed ↦ abort
        | overrun ↦ abort
        | out_of_fuel ↦ ok (s, false)
      ]
    ]

-- `pal_nvs_open`: whether it returns a handle, which is then that of the namespace.
unfoldable pub open_handle : OpenAnswers → Bytes → Mode → Store → Outcome (Store × Bool)
open_handle a name mode s = do
  require s.inited
  elim (find_handle name s.handles) [
    | none ↦ open_new a name mode s
    | some h ↦
        if is_readonly h.mode && is_readonly mode
        then ok (
          record s {
            handles =
                alter name (λ g. record g { using_count = (g.using_count + 1) % 2 ^ 32 } ∷ [])
                  s.handles;
          },
          true,
        )
        else ok (s, false)
  ]

-- `pal_nvs_close` of an open handle; one that is not open any more has been freed.
unfoldable pub close_handle : CommitAnswers → Bytes → Store → Outcome Store
close_handle a name s = elim (find_handle name s.handles) [
  | none ↦ abort
  | some h ↦
      if ltb 1 h.using_count
      then require (is_readonly h.mode)
        >> ok (record s {
          handles = alter name (λ g. record g { using_count = g.using_count - 1 } ∷ []) s.handles;
        })
      else ok (record s {
        handles = alter name (λ g. []) s.handles;
        files = if is_readonly h.mode then s.files else (commit a h s.files).0.1;
      })
]

-- The loop of `pal_nvs_deinit`.
unfoldable pub close_each : (Bytes → CommitAnswers) → List Handle → Store → Outcome Store
close_each a [] s = ok s
close_each a (h ∷ hs) s = do s' ← close_handle (a h.name) h.name s; close_each a hs s'

-- `pal_nvs_deinit`
unfoldable pub deinit : (Bytes → CommitAnswers) → Store → Outcome Store
deinit a s = do
  require s.inited
  s' ← close_each a s.handles s
  ok (record s' { handles = []; inited = false })
