-- ===== src/Nvs/Store/Reopen.antt =====
-- The close of a namespace and its next open, `pal_nvs_close` and `pal_nvs_open` of
-- platform/posix/src/nvs.c.
use homekit_bridge.Base.{
  ◌≤◌, ◌≡◌, ◌≢◌, inl, inr, refl, ap, ◌∙◌, true, none, some, List, [], ◌∷◌, length, arith,
}
use mathlib.Core.List.{reverse, reverse_aux}
use homekit_bridge.Base.Bytes.{Bytes, same_iff, same_self}
use homekit_bridge.Base.Outcome.{ok}
use homekit_bridge.Nvs.{Mode, Handle, Item, readwrite, find_key}
use homekit_bridge.Nvs.Items.{look, Fresh-find_key, Distinct}
use homekit_bridge.Nvs.Io.{IsHonest}
use homekit_bridge.Nvs.Codec.{encode}
use homekit_bridge.Nvs.Load.{load, loaded}
use homekit_bridge.Nvs.Load.RoundTrip.{AllStorable, plenty, load-encode}
use homekit_bridge.Nvs.Store.{
  Store, CommitAnswers, OpenAnswers, tmp_name, commit, open_new, open_handle, close_handle,
  find_handle, alter, path_fits, new_handle,
}
use homekit_bridge.Nvs.Store.Commit.{AllSucceed, commit_succeeds, commit_stores}
use homekit_bridge.Nvs.Store.Handles.{DistinctNames, find_handle-alter_nil}

-- The calls of an open are answered with success; reads may be short or interrupted.
pub record OpenSucceeds (a : OpenAnswers) : Type 0 where
  pub handle_memory : a.handle_memory ≡ true
  pub name_memory : a.name_memory ≡ true
  pub open_ok : a.open_ok ≡ true
  pub reads : IsHonest a.reads
  pub item_memory : a.item_memory ≡ plenty

open_new-stored :
    (a : OpenAnswers) (name : Bytes) (mode : Mode) (s : Store) (is : List Item)
    → OpenSucceeds a
    → path_fits s.dir name a.stray ≡ true
    → AllStorable is
    → s.files name ≡ some (encode is)
    → open_new a name mode s
      ≡ ok (record s { handles = new_handle name mode (reverse is) ∷ s.handles }, true)
unfolding open_new
open_new-stored a name mode s is o f v e =
    let l : load a.item_memory a.reads (encode is) ≡ loaded (reverse is) =
      ap (λ m. load m a.reads (encode is)) o.item_memory ∙ load-encode is a.reads o.reads v in
    ground (arith, l, f)

look-reverse_aux :
    (j : Bytes) (is js : List Item)
    → Distinct is
    → look j (reverse_aux is js) ≡ elim (find_key j is) [ none ↦ look j js | some i ↦ some i.value ]
unfolding find_key
look-reverse_aux j [] js d = refl
look-reverse_aux j (i ∷ is) js d =
    ground
      (arith, look-reverse_aux j is (i ∷ js) d.1, same_iff i.key j, Fresh-find_key i.key is d.0)

-- The order of the items does not matter where the keys are distinct.
look-reverse : (j : Bytes) (is : List Item) → Distinct is → look j (reverse is) ≡ look j is
unfolding find_key
look-reverse j is d = look-reverse_aux j is [] d

-- Items stored by the close of a namespace opened for writing are there when it is opened again:
-- if its keys are distinct and its items such as the format can hold, and no call of the system
-- fails (reads and writes may be short or interrupted), the open returns a new handle of that name
-- in which each key has the value it had.
pub reopen :
    (c : CommitAnswers) (a : OpenAnswers) (mode : Mode) (s : Store) (h : Handle)
    → s.inited ≡ true
    → DistinctNames s.handles
    → find_handle h.name s.handles ≡ some h
    → h.mode ≡ readwrite
    → h.using_count ≡ 1
    → h.changed ≡ true
    → h.items ≢ []
    → Distinct h.items
    → AllStorable h.items
    → length (tmp_name h.name) ≤ 255
    → path_fits s.dir h.name a.stray ≡ true
    → AllSucceed c
    → OpenSucceeds a
    → (s1 : Store) × (s2 : Store) × (h' : Handle) × (close_handle c h.name s ≡ ok s1)
      × (open_handle a h.name mode s1 ≡ ok (s2, true))
      × (find_handle h.name s2.handles ≡ some h')
      × ((j : Bytes) → look j h'.items ≡ look j h.items)
unfolding close_handle open_handle find_handle
reopen c a mode s h i d f w u ch n ds st lt lp sc so = (
  s1,
  record s1 { handles = h' ∷ s1.handles },
  h',
  ground (arith, f, u, w),
  ground (arith, i, gone, opened),
  ground (arith, same_self h.name),
  λ j. look-reverse j h.items ds,
)
  where
    s1 : Store
    s1 = record s { handles = alter h.name (λ g. []) s.handles; files = (commit c h s.files).0.1 }

    h' : Handle
    h' = new_handle h.name mode (reverse h.items)

    gone : find_handle h.name s1.handles ≡ none
    gone = find_handle-alter_nil h.name s.handles d

    stored : s1.files h.name ≡ some (encode h.items)
    stored = elim (commit_stores c h s.files ch (commit_succeeds c h s.files sc w lt)) [
      | inl e ↦ absurd (n e.0)
      | inr e ↦ e.1
    ]

    opened : open_new a h.name mode s1 ≡ ok (record s1 { handles = h' ∷ s1.handles }, true)
    opened = open_new-stored a h.name mode s1 h.items so lp st stored
