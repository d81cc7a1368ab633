-- ===== src/Nvs/Items.antt =====
-- The items of a handle as a map from keys to values: what `pal_nvs_set`, `pal_nvs_remove` and
-- `pal_nvs_erase` change, and what they leave.
use homekit_bridge.Base.{
  ◌≤◌, ◌≡◌, ◌≢◌, ◌⊎◌, ◌↔◌, inl, inr, refl, Bool, true, false, Option, none, some, List, [], ◌∷◌,
  arith, if◌then◌else◌, length, Bool-cases, Option-cases,
}
use homekit_bridge.Base.Bytes.{Bytes, same, same_iff}
use homekit_bridge.Base.Outcome.{ok}
use homekit_bridge.Nvs.{
  Handle, Item, readonly, readwrite, key_max_len, find_key, Edit, absent, no_memory, kept, edited,
  behind, apply_edit, replace, set, unlink, remove,
}

-- The value stored under a key.
abbrev pub look : Bytes → List Item → Option Bytes
look key is = elim (find_key key is) [ none ↦ none | some i ↦ some i.value ]

abbrev pub Fresh : Bytes → List Item → Type 0
Fresh key [] = Unit
Fresh key (i ∷ is) = (same i.key key ≡ false) × Fresh key is

-- No two items have the same key.
abbrev pub Distinct : List Item → Type 0
Distinct [] = Unit
Distinct (i ∷ is) = Fresh i.key is × Distinct is

behind-edited :
    (i : Item) (e : Edit) (js : List Item)
    → behind i e ≡ edited js
    → (ks : List Item) × (e ≡ edited ks) × (js ≡ i ∷ ks)
behind-edited i absent js h = cc
behind-edited i no_memory js h = cc
behind-edited i kept js h = cc
behind-edited i (edited ks) js h = (ks, refl, cc)

-- `pal_nvs_set` replaces the value of its key alone.
replace-look :
    (memory : Bool) (key value j : Bytes) (is js : List Item)
    → replace memory key value is ≡ edited js
    → look j js ≡ (if same key j then some value else look j is)
unfolding replace find_key
replace-look memory key value j [] js e = cc
replace-look memory key value j (i ∷ is) js e = elim (Bool-cases (same i.key key)) [
  | inl s ↦ ground (arith, s, same_iff i.key key, same_iff key j)
  | inr s ↦
      let (ks, r, q) = behind-edited i (replace memory key value is) js (ground (arith, s)) in
      ground (
        arith,
        s,
        q,
        same_iff i.key key,
        same_iff key j,
        same_iff i.key j,
        replace-look memory key value j is ks r,
      )
]

replace-kept :
    (memory : Bool) (key value j : Bytes) (is : List Item)
    → replace memory key value is ≡ kept
    → look j is ≡ (if same key j then some value else look j is)
unfolding replace find_key
replace-kept memory key value j [] e = cc
replace-kept memory key value j (i ∷ is) e = ground (
  arith,
  same_iff i.key key,
  same_iff key j,
  same_iff i.key j,
  same_iff i.value value,
  replace-kept memory key value j is,
)

replace-absent :
    (memory : Bool) (key value : Bytes) (is : List Item)
    → replace memory key value is ≡ absent
    → Fresh key is
unfolding replace
replace-absent memory key value [] e = tt
replace-absent memory key value (i ∷ is) e = ground (arith, replace-absent memory key value is)

pub Fresh-find_key : (key : Bytes) (is : List Item) → Fresh key is → find_key key is ≡ none
unfolding find_key
Fresh-find_key key [] f = refl
Fresh-find_key key (i ∷ is) f = ground (arith, f.0, Fresh-find_key key is f.1)

-- What a call of `pal_nvs_set` that does not abort has checked and returned.
set-inv :
    (memory : Bool) (h : Handle) (key value : Bytes) (r : Handle × Bool)
    → set memory h key value ≡ ok r
    → (value ≢ [])
      × (((h.mode ≡ readonly) × (r ≡ (h, false)))
          ⊎ ((h.mode ≡ readwrite)
              × (length key ≤ key_max_len)
              × (r ≡ apply_edit memory h key value (replace memory key value h.items))))
unfolding set
set-inv memory h key value r e = ground arith

look-apply_edit :
    (memory : Bool) (h h' : Handle) (key value j : Bytes) (x : Edit)
    → replace memory key value h.items ≡ x
    → (h', true) ≡ apply_edit memory h key value x
    → look j h'.items ≡ (if same key j then some value else look j h.items)
unfolding apply_edit find_key
look-apply_edit memory h h' key value j absent x e = ground arith
look-apply_edit memory h h' key value j no_memory x e = cc
look-apply_edit memory h h' key value j kept x e =
    ground (arith, replace-kept memory key value j h.items)
look-apply_edit memory h h' key value j (edited is) x e =
    ground (arith, replace-look memory key value j h.items is x)

-- A `pal_nvs_set` that returns true stores the value under its key, and changes no other key.
pub look-set :
    (memory : Bool) (h h' : Handle) (key value j : Bytes)
    → set memory h key value ≡ ok (h', true)
    → look j h'.items ≡ (if same key j then some value else look j h.items)
look-set memory h h' key value j e = elim (set-inv memory h key value (h', true) e).1 [
  | inl r ↦ cc
  | inr w ↦ look-apply_edit memory h h' key value j (replace memory key value h.items) refl w.2
]

-- A `pal_nvs_set` that returns false leaves the handle as it was.
pub set_failed :
    (memory : Bool) (h h' : Handle) (key value : Bytes)
    → set memory h key value ≡ ok (h', false)
    → h' ≡ h
unfolding set apply_edit
set_failed memory h h' key value e = ground arith

unlink-look :
    (key j : Bytes) (is js : List Item)
    → Distinct is
    → unlink key is ≡ some js
    → look j js ≡ (if same key j then none else look j is)
unfolding unlink find_key
unlink-look key j [] js d e = cc
unlink-look key j (i ∷ is) js d e = elim (Bool-cases (same i.key key)) [
  | inl s ↦
      ground (
        arith,
        s,
        same_iff i.key key,
        same_iff key j,
        same_iff i.key j,
        Fresh-find_key i.key is d.0,
      )
  | inr s ↦ elim (Option-cases (unlink key is)) [
    | inl n ↦ ground (arith, s, n)
    | inr (ks, k) ↦ ground (
      arith,
      s,
      k,
      same_iff i.key key,
      same_iff key j,
      same_iff i.key j,
      unlink-look key j is ks d.1 k,
    )
  ]
]

unlink-absent : (key : Bytes) (is : List Item) → unlink key is ≡ none → Fresh key is
unfolding unlink
unlink-absent key [] e = tt
unlink-absent key (i ∷ is) e = ground (arith, unlink-absent key is)

unlink-present : (key : Bytes) (is js : List Item) → unlink key is ≡ some js → look key is ≢ none
unfolding unlink find_key
unlink-present key [] js e n = cc
unlink-present key (i ∷ is) js e n = elim (Option-cases (unlink key is)) [
  | inl k ↦ ground (arith, k)
  | inr (ks, k) ↦ ground (arith, k, unlink-present key is ks k)
]

-- `pal_nvs_remove` on a handle opened for writing removes the value of its key, changes no other
-- key, and returns whether there was a value.
look-remove :
    (h : Handle) (key j : Bytes)
    → Distinct h.items
    → h.mode ≡ readwrite
    → (look j (remove h key).0.items ≡ (if same key j then none else look j h.items))
      × (((remove h key).1 ≡ false) ↔ (look key h.items ≡ none))
unfolding remove
look-remove h key j d w = elim (Option-cases (unlink key h.items)) [
  | inl n ↦
      ground (arith, n, same_iff key j, Fresh-find_key key h.items (unlink-absent key h.items n))
  | inr (is, e) ↦
      ground (arith, e, unlink-look key j h.items is d e, unlink-present key h.items is e)
]
