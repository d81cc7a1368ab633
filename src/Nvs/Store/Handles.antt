-- ===== src/Nvs/Store/Handles.antt =====
-- The list of open handles of platform/posix/src/nvs.c, under `pal_nvs_open` and `pal_nvs_close`.
use homekit_bridge.Base.{
  ◌+◌, ◌-◌, ◌%◌, ◌^◌, ◌≤◌, ◌<◌, ◌≡◌, ◌⊎◌, inl, inr, refl, sym, Bool, true, false, ◌&&◌, none, some,
  List, [], ◌∷◌, ◌++◌, ltb, if◌then◌else◌, arith, Bool-cases, Option-cases,
}
use mathlib.Core.Path.{subst}
use homekit_bridge.Base.Bytes.{Bytes, same, same_iff}
use homekit_bridge.Base.Outcome.{ok}
use homekit_bridge.Nvs.{Mode, Handle, Item, readwrite, is_readonly}
use homekit_bridge.Nvs.Load.{load, Loaded, loaded, unreadable, crashed, overrun, out_of_fuel}
use homekit_bridge.Nvs.Store.{
  Store, CommitAnswers, OpenAnswers, commit, open_new, open_handle, close_handle, find_handle,
  alter, new_handle, path_fits,
}

abbrev pub Unnamed : Bytes → List Handle → Type 0
Unnamed name [] = Unit
Unnamed name (h ∷ hs) = (same h.name name ≡ false) × Unnamed name hs

-- No two handles are of the same namespace.
abbrev pub DistinctNames : List Handle → Type 0
DistinctNames [] = Unit
DistinctNames (h ∷ hs) = Unnamed h.name hs × DistinctNames hs

-- A handle has a user, and no more than one if it is open for writing.
pub record HandleValid (h : Handle) : Type 0 where
  pub used : 1 ≤ h.using_count
  pub exclusive : h.mode ≡ readwrite → h.using_count ≡ 1

abbrev pub AllValid : List Handle → Type 0
AllValid [] = Unit
AllValid (h ∷ hs) = HandleValid h × AllValid hs

pub record StoreValid (s : Store) : Type 0 where
  pub names : DistinctNames s.handles
  pub handles : AllValid s.handles

pub find_handle-none :
    (name : Bytes) (hs : List Handle) → find_handle name hs ≡ none → Unnamed name hs
unfolding find_handle
find_handle-none name [] e = tt
find_handle-none name (h ∷ hs) e = ground (arith, find_handle-none name hs)

pub Unnamed-find_handle :
    (name : Bytes) (hs : List Handle) → Unnamed name hs → find_handle name hs ≡ none
unfolding find_handle
Unnamed-find_handle name [] u = refl
Unnamed-find_handle name (h ∷ hs) u = ground (arith, u.0, Unnamed-find_handle name hs u.1)

find_handle-valid :
    (name : Bytes) (hs : List Handle) (h : Handle)
    → AllValid hs
    → find_handle name hs ≡ some h
    → HandleValid h × (h.name ≡ name)
unfolding find_handle
find_handle-valid name [] h v e = cc
find_handle-valid name (g ∷ hs) h v e = elim (Bool-cases (same g.name name)) [
  | inl n ↦
      let q : g ≡ h = ground (arith, n) in
      subst (λ x. HandleValid x × (x.name ≡ name)) q (v.0, (same_iff g.name name).0 n)
  | inr n ↦ find_handle-valid name hs h v.1 (ground (arith, n))
]

-- A closed namespace is gone from the list.
pub find_handle-alter_nil :
    (name : Bytes) (hs : List Handle)
    → DistinctNames hs
    → find_handle name (alter name (λ g. []) hs) ≡ none
unfolding find_handle alter
find_handle-alter_nil name [] d = refl
find_handle-alter_nil name (h ∷ hs) d = elim (Bool-cases (same h.name name)) [
  | inl n ↦
      rw n
        (Unnamed-find_handle name hs (subst (λ k. Unnamed k hs) ((same_iff h.name name).0 n) d.0))
  | inr n ↦ ground (arith, n, find_handle-alter_nil name hs d.1)
]

-- The name of a handle's replacement.
module _ (name : Bytes) (f : Handle → Handle) (keep : (h : Handle) → (f h).name ≡ h.name) where
  Unnamed-alter :
      (k : Bytes) (hs : List Handle) → Unnamed k hs → Unnamed k (alter name (λ g. f g ∷ []) hs)
  unfolding alter
  Unnamed-alter k [] u = tt
  Unnamed-alter k (h ∷ hs) u = ground (arith, u, keep h, Unnamed-alter k hs)

  DistinctNames-alter :
      (hs : List Handle) → DistinctNames hs → DistinctNames (alter name (λ g. f g ∷ []) hs)
  unfolding alter
  DistinctNames-alter [] d = tt
  DistinctNames-alter (h ∷ hs) d = elim (Bool-cases (same h.name name)) [
    | inl n ↦ rw n (subst (λ k. Unnamed k hs) (sym (keep h)) d.0, d.1)
    | inr n ↦ rw n (Unnamed-alter h.name hs d.0, DistinctNames-alter hs d.1)
  ]

Unnamed-alter_nil :
    (name k : Bytes) (hs : List Handle) → Unnamed k hs → Unnamed k (alter name (λ g. []) hs)
unfolding alter
Unnamed-alter_nil name k [] u = tt
Unnamed-alter_nil name k (h ∷ hs) u = ground (arith, u, Unnamed-alter_nil name k hs)

DistinctNames-alter_nil :
    (name : Bytes) (hs : List Handle) → DistinctNames hs → DistinctNames (alter name (λ g. []) hs)
unfolding alter
DistinctNames-alter_nil name [] d = tt
DistinctNames-alter_nil name (h ∷ hs) d =
    ground (arith, d, Unnamed-alter_nil name h.name hs, DistinctNames-alter_nil name hs)

AllValid-alter :
    (name : Bytes) (f : Handle → List Handle) (hs : List Handle) (h : Handle)
    → find_handle name hs ≡ some h
    → AllValid hs
    → ((gs : List Handle) → AllValid gs → AllValid (f h ++ gs))
    → AllValid (alter name f hs)
unfolding find_handle alter
AllValid-alter name f [] h e v k = tt
AllValid-alter name f (g ∷ hs) h e v k = elim (Bool-cases (same g.name name)) [
  | inl n ↦ let q : g ≡ h = ground (arith, n) in rw (n, q) (k hs v.1)
  | inr n ↦ rw n (v.0, AllValid-alter name f hs h (ground (arith, n)) v.1 k)
]

Loaded-cases :
    (l : Loaded)
    → ((is : List Item) × (l ≡ loaded is))
      ⊎ (l ≡ unreadable)
      ⊎ (l ≡ crashed)
      ⊎ (l ≡ overrun)
      ⊎ (l ≡ out_of_fuel)
Loaded-cases (loaded is) = inl (is, refl)
Loaded-cases unreadable = inr (inl refl)
Loaded-cases crashed = inr (inr (inl refl))
Loaded-cases overrun = inr (inr (inr (inl refl)))
Loaded-cases out_of_fuel = inr (inr (inr (inr refl)))

-- An open of a namespace that is not open changes nothing, or adds a handle with one user.
open_new-inv :
    (a : OpenAnswers) (name : Bytes) (mode : Mode) (s s' : Store) (r : Bool)
    → open_new a name mode s ≡ ok (s', r)
    → (s' ≡ s)
      ⊎ ((is : List Item) × (s' ≡ record s { handles = new_handle name mode is ∷ s.handles }))
unfolding open_new
open_new-inv a name mode s s' r e =
    elim (Bool-cases
      (a.handle_memory && a.name_memory && path_fits s.dir name a.stray && a.open_ok)) [
        | inr f ↦ inl (ground (arith, f))
        | inl f ↦ elim (Option-cases (s.files name)) [
          | inl n ↦ inr ([], ground (arith, f, n))
          | inr (content, c) ↦ elim (Loaded-cases (load a.item_memory a.reads content)) [
            | inl (is, l) ↦ inr (is, ground (arith, f, c, l))
            | inr l ↦ inl (ground (arith, f, c, l))
          ]
        ]
      ]

-- One more user, and one less.
abbrev more : Handle → Handle
more g = record g { using_count = (g.using_count + 1) % 2 ^ 32 }

abbrev fewer : Handle → Handle
fewer g = record g { using_count = g.using_count - 1 }

open_new-StoreValid :
    (a : OpenAnswers) (name : Bytes) (mode : Mode) (s s' : Store) (r : Bool)
    → StoreValid s
    → find_handle name s.handles ≡ none
    → open_new a name mode s ≡ ok (s', r)
    → StoreValid s'
open_new-StoreValid a name mode s s' r v n e = elim (open_new-inv a name mode s s' r e) [
  | inl q ↦ subst StoreValid (sym q) v
  | inr (is, q) ↦ subst StoreValid (sym q) (record {
    names = (subst (λ k. Unnamed k s.handles) refl (find_handle-none name s.handles n), v.names);
    handles = (record { used = omega arith; exclusive = λ m. refl }, v.handles);
  })
]

-- `pal_nvs_open` keeps the invariant, if the handle of the namespace, where there is one, has
-- fewer than 2^32 - 1 users.
open_handle-StoreValid :
    (a : OpenAnswers) (name : Bytes) (mode : Mode) (s s' : Store) (r : Bool)
    → StoreValid s
    → ((h : Handle) → find_handle name s.handles ≡ some h → h.using_count + 1 < 2 ^ 32)
    → open_handle a name mode s ≡ ok (s', r)
    → StoreValid s'
unfolding open_handle
open_handle-StoreValid a name mode s s' r v c e = elim (Bool-cases s.inited) [
  | inr i ↦ ground (arith, i)
  | inl i ↦ elim (Option-cases (find_handle name s.handles)) [
    | inl n ↦ open_new-StoreValid a name mode s s' r v n (ground (arith, i, n))
    | inr (h, n) ↦ elim (Bool-cases (is_readonly h.mode && is_readonly mode)) [
      | inr m ↦ let q : s' ≡ s = ground (arith, i, n, m) in subst StoreValid (sym q) v
      | inl m ↦
          let q : s' ≡ record s { handles = alter name (λ g. more g ∷ []) s.handles } =
            ground (arith, i, n, m) in
          let valid : HandleValid h × (h.name ≡ name) =
            find_handle-valid name s.handles h v.handles n in
          subst StoreValid (sym q) (record {
            names = DistinctNames-alter name more (λ h. refl) s.handles v.names;
            handles =
                AllValid-alter name (λ g. more g ∷ []) s.handles h n v.handles
                  (λ gs w. (
                    record { used = omega (arith, c h n); exclusive = λ x. ground (arith, m) },
                    w,
                  ));
          })
    ]
  ]
]

-- `pal_nvs_close` of an open namespace does not abort, and keeps the invariant.
close_handle-StoreValid :
    (a : CommitAnswers) (name : Bytes) (s : Store) (h : Handle)
    → StoreValid s
    → find_handle name s.handles ≡ some h
    → (s' : Store) × (close_handle a name s ≡ ok s') × StoreValid s'
unfolding close_handle
close_handle-StoreValid a name s h v e =
    let valid : HandleValid h × (h.name ≡ name) = find_handle-valid name s.handles h v.handles e in
    elim (Bool-cases (ltb 1 h.using_count)) [
      | inl u ↦ (
        record s { handles = alter name (λ g. fewer g ∷ []) s.handles },
        ground (arith, e, u, valid),
        record {
          names = DistinctNames-alter name fewer (λ h. refl) s.handles v.names;
          handles =
              AllValid-alter name (λ g. fewer g ∷ []) s.handles h e v.handles
                (λ gs w. (
                  record {
                    used = ground (arith, u);
                    exclusive = λ x. ground (arith, u, valid.0.exclusive x);
                  },
                  w,
                ));
        },
      )
      | inr u ↦ (
        record s {
          handles = alter name (λ g. []) s.handles;
          files = if is_readonly h.mode then s.files else (commit a h s.files).0.1;
        },
        ground (arith, e, u),
        record {
          names = DistinctNames-alter_nil name s.handles v.names;
          handles = AllValid-alter name (λ g. []) s.handles h e v.handles (λ gs w. w);
        },
      )
    ]

-- A namespace that is open is not opened again for writing, nor again at all while it is open for
-- writing: `pal_nvs_open` returns no handle and changes nothing.
open_handle_busy :
    (a : OpenAnswers) (name : Bytes) (mode : Mode) (s : Store) (h : Handle)
    → s.inited ≡ true
    → find_handle name s.handles ≡ some h
    → (h.mode ≡ readwrite) ⊎ (mode ≡ readwrite)
    → open_handle a name mode s ≡ ok (s, false)
unfolding open_handle
open_handle_busy a name mode s h i e w = ground arith
