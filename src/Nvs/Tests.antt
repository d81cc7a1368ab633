-- ===== src/Nvs/Tests.antt =====
-- Runs of the key-value store on small inputs, and the theorems at them.
use homekit_bridge.Base.{
  ◌≡◌, ◌≢◌, refl, ◌⊎◌, if◌then◌else◌, true, false, none, some, List, [], ◌∷◌, ◌++◌, arith,
}
use homekit_bridge.Base.Bytes.{Bytes, same, strcmp}
use homekit_bridge.Base.Outcome.{ok}
use homekit_bridge.Nvs.{Item, Handle, readonly, readwrite, set, replace, apply_edit}
use homekit_bridge.Nvs.Items.{Distinct, look, look-set, set_failed}
use homekit_bridge.Nvs.Io.{Answer, interrupted, failed, chunk, IsHonest}
use homekit_bridge.Base.Endian.{le_bytes}
use homekit_bridge.Nvs.Codec.{magic, all_parts, joined, encode}
use homekit_bridge.Nvs.Load.{load, loaded, crashed, out_of_fuel}
use homekit_bridge.Nvs.Load.RoundTrip.{AllStorable, plenty, load-encode}
use homekit_bridge.Nvs.Load.Total.{load-ends}
use homekit_bridge.Nvs.Load.Damage.{load_cut}
use homekit_bridge.Nvs.Store.{
  Files, Store, CommitAnswers, OpenAnswers, commit, find_handle, open_handle, close_handle,
}
use homekit_bridge.Nvs.Store.Commit.{commit_atomic, commit_stores, commit_succeeds, AllSucceed}
use homekit_bridge.Nvs.Store.Handles.{StoreValid}
use homekit_bridge.Nvs.Store.Reopen.{OpenSucceeds, reopen}

abbrev a_item : Item
a_item = record { key = b'a' ∷ []; value = 1 ∷ [] }

abbrev b_item : Item
b_item = record { key = b'b' ∷ []; value = 2 ∷ 0 ∷ [] }

abbrev items : List Item
items = a_item ∷ b_item ∷ []

abbrev handle : Handle
handle = record {
  using_count = 1;
  mode = readwrite;
  changed = true;
  name = b'n' ∷ [];
  items = items;
}

abbrev reader : Handle
reader = record handle { mode = readonly; changed = false; name = b'r' ∷ []; using_count = 2 }

abbrev no_files : Files
no_files name = none

abbrev store : Store
store = record {
  inited = true;
  dir = b'/' ∷ b'd' ∷ [];
  handles = handle ∷ reader ∷ [];
  files = no_files;
}

-- Short writes and reads, with interruptions.
abbrev answers : List Answer
answers = chunk 3 ∷ interrupted ∷ chunk 1 ∷ chunk 5 ∷ []

abbrev committing : CommitAnswers
committing = record {
  remove_ok = true;
  create_ok = true;
  opendir_ok = true;
  dirfd_ok = true;
  openat_ok = true;
  writes = answers;
  sync_before_ok = true;
  rename_ok = true;
  sync_after_ok = true;
}

-- The third write fails.
abbrev disk_full : CommitAnswers
disk_full = record committing { writes = chunk 3 ∷ chunk 8 ∷ failed ∷ [] }

abbrev opening : OpenAnswers
opening = record {
  handle_memory = true;
  name_memory = true;
  stray = false;
  open_ok = true;
  reads = answers;
  item_memory = plenty;
}

answers-IsHonest : IsHonest answers
answers-IsHonest = ground arith

items-AllStorable : AllStorable items
items-AllStorable = (
  record {
    key_some = omega arith;
    key_short = omega arith;
    key_text = (refl, tt);
    value_some = omega arith;
    value_short = omega arith;
  },
  (
    record {
      key_some = omega arith;
      key_short = omega arith;
      key_text = (refl, tt);
      value_some = omega arith;
      value_short = omega arith;
    },
    tt,
  ),
)

committing-AllSucceed : AllSucceed committing
committing-AllSucceed = record {
  remove_ok = refl;
  create_ok = refl;
  opendir_ok = refl;
  dirfd_ok = refl;
  openat_ok = refl;
  writes = answers-IsHonest;
  sync_before_ok = refl;
  rename_ok = refl;
  sync_after_ok = refl;
}

names_differ : same (b'r' ∷ []) (b'n' ∷ []) ≡ false
unfolding same strcmp
names_differ = refl

store-StoreValid : StoreValid store
store-StoreValid = record {
  names = ((names_differ, tt), (tt, tt));
  handles = (
    record { used = omega arith; exclusive = λ e. refl },
    (record { used = omega arith; exclusive = λ e. cc }, tt),
  );
}

items-Distinct : Distinct items
unfolding same strcmp
items-Distinct = ((keys_differ, tt), (tt, tt))
  where
    keys_differ : same (b'b' ∷ []) (b'a' ∷ []) ≡ false
    keys_differ = refl

opening-OpenSucceeds : OpenSucceeds opening
opening-OpenSucceeds = record {
  handle_memory = refl;
  name_memory = refl;
  open_ok = refl;
  reads = answers-IsHonest;
  item_memory = refl;
}

set_a :
    set true handle (b'a' ∷ []) (7 ∷ [])
    ≡ ok (record handle { items = record a_item { value = 7 ∷ [] } ∷ b_item ∷ [] }, true)
unfolding set replace apply_edit same strcmp
set_a = refl

set-reader : set true reader (b'a' ∷ []) (7 ∷ []) ≡ ok (reader, false)
unfolding set
set-reader = refl

busy : open_handle opening (b'n' ∷ []) readonly store ≡ ok (store, false)
unfolding open_handle find_handle same strcmp
busy = refl

found : find_handle (b'n' ∷ []) store.handles ≡ some handle
unfolding find_handle same strcmp
found = refl

commit_atomic_example :
    let after = (commit disk_full handle no_files).0.1 in
    (after (b'n' ∷ []) ≡ none)
    ⊎ ((items ≡ []) × (after (b'n' ∷ []) ≡ none))
    ⊎ (after (b'n' ∷ []) ≡ some (encode items))
commit_atomic_example = commit_atomic disk_full handle no_files

load-encode_example : load plenty answers (encode items) ≡ loaded (b_item ∷ a_item ∷ [])
load-encode_example = load-encode items answers answers-IsHonest items-AllStorable

commit_succeeds_example : (commit committing handle no_files).1 ≡ true
commit_succeeds_example =
    commit_succeeds committing handle no_files committing-AllSucceed refl (omega arith)

commit_done : (commit committing handle no_files).1 ≡ true
commit_done = commit_succeeds committing handle no_files committing-AllSucceed refl (omega arith)

commit_stores_example :
    let (h', after) = (commit committing handle no_files).0 in
    ((items ≡ []) × (after (b'n' ∷ []) ≡ none))
    ⊎ ((items ≢ []) × (after (b'n' ∷ []) ≡ some (encode items)) × (h'.changed ≡ false))
commit_stores_example = commit_stores committing handle no_files refl commit_done

reopen_example :
    (s1 : Store) × (s2 : Store) × (h' : Handle) × (close_handle committing (b'n' ∷ []) store
      ≡ ok s1)
    × (open_handle opening (b'n' ∷ []) readonly s1 ≡ ok (s2, true))
    × (find_handle (b'n' ∷ []) s2.handles ≡ some h')
    × ((j : Bytes) → look j h'.items ≡ look j items)
reopen_example =
    reopen committing opening readonly store handle refl store-StoreValid.names found refl refl refl
      (λ e. cc) items-Distinct items-AllStorable (omega arith) refl committing-AllSucceed
      opening-OpenSucceeds

look-set_example :
    look (b'a' ∷ []) (record a_item { value = 7 ∷ [] } ∷ b_item ∷ [])
    ≡ (if same (b'a' ∷ []) (b'a' ∷ []) then some (7 ∷ []) else look (b'a' ∷ []) items)
look-set_example =
    look-set true handle (record handle { items = record a_item { value = 7 ∷ [] } ∷ b_item ∷ [] })
      (b'a' ∷ []) (7 ∷ []) (b'a' ∷ []) set_a

set_failed_example : reader ≡ reader
set_failed_example = set_failed true reader reader (b'a' ∷ []) (7 ∷ []) set-reader

load-ends_example : load plenty answers (magic ++ 1 ∷ 2 ∷ []) ≢ out_of_fuel
load-ends_example = load-ends plenty answers (magic ++ 1 ∷ 2 ∷ [])

load_cut_example :
    load plenty answers (joined (magic ∷ (all_parts items ++ le_bytes 8 4 ∷ []))) ≡ crashed
load_cut_example =
    load_cut items 4 answers answers-IsHonest items-AllStorable (omega arith) (omega arith)
