-- ===== src/Nvs/Store/Commit.antt =====
-- What `pal_nvs_commit` of platform/posix/src/nvs.c does to the files.
use homekit_bridge.Base.{
  is_empty, is_empty→nil, ◌≤◌, ◌≡◌, ◌≢◌, ◌⊎◌, inl, inr, refl, ap, ◌∙◌, Bool, true, false, not, ◌&&◌,
  Option, none, some, [], ◌∷◌, leb, Bool-cases, if_rule, length, length-append, arith,
}
use homekit_bridge.Base.Bytes.{Bytes, same, same_iff, same_self}
use homekit_bridge.Nvs.{Handle, readwrite, is_readonly}
use homekit_bridge.Nvs.Io.{IsHonest}
use homekit_bridge.Nvs.Codec.{
  magic, all_parts, write_parts, write_parts-joined, write_parts-honest, encode,
}
use homekit_bridge.Nvs.Store.{
  Files, put_file, CommitAnswers, tmp_name, rename_tmp, write_tmp, commit,
}

-- A namespace's file and its temporary file are two files.
pub tmp_name-ne : (name : Bytes) → same (tmp_name name) name ≡ false
tmp_name-ne name = elim (Bool-cases (same (tmp_name name) name)) [
  | inl e ↦ absurd (
      omega (
        arith,
        ap length ((same_iff (tmp_name name) name).0 e),
        length-append {0} name (b'-' ∷ b't' ∷ b'm' ∷ b'p' ∷ []),
      ))
  | inr e ↦ e
]

-- The files that a commit can leave.
data Effect (h : Handle) (files : Files) (r : (Handle × Files) × Bool) : Type 0 where
  untouched : r.0.1 ≡ files → Effect h files r
  removed : h.items ≡ [] → r.0.1 ≡ put_file files h.name none → Effect h files r
  partial : (b : Bytes) → r.0.1 ≡ put_file files (tmp_name h.name) (some b) → Effect h files r
  replaced :
      (o : Option Bytes)
      → r.0.1
        ≡ put_file
            (put_file (put_file files (tmp_name h.name) o) (tmp_name h.name) none)
            h.name
            (some (encode h.items))
      → Effect h files r

at : {f g : Files} (j : Bytes) → f ≡ g → f j ≡ g j
at j e = ap (λ f. f j) e

commit-Effect : (a : CommitAnswers) (h : Handle) (files : Files) → Effect h files (commit a h files)
unfolding commit write_tmp rename_tmp encode
commit-Effect a h files =
    if_rule P (is_readonly h.mode) (λ e. untouched refl)
      λ e.
        if_rule P (not h.changed) (λ e. untouched refl)
          λ e.
            if_rule P (is_empty h.items)
              (λ n.
                if_rule P a.remove_ok (λ e. removed (is_empty→nil h.items n) refl)
                  (λ e. untouched refl))
              λ e.
                if_rule P (not (a.create_ok && a.opendir_ok && a.dirfd_ok)) (λ e. untouched refl)
                  λ e.
                    if_rule P (not (leb (length (tmp_name h.name)) 255)) (λ e. untouched refl)
                      λ e.
                        if_rule P (not a.openat_ok) (λ e. untouched refl)
                          λ e.
                            if_rule P (not whole) (λ e. partial bytes refl)
                              λ w.
                                if_rule P (not a.sync_before_ok) (λ e. partial bytes refl)
                                  λ e.
                                    if_rule P (not a.rename_ok) (λ e. partial bytes refl)
                                      λ e.
                                        if_rule P (not a.sync_after_ok) (λ e. renamed refl w)
                                          (λ e. renamed refl w)
  where
    P : (Handle × Files) × Bool → Type 0
    P = Effect h files

    whole : Bool
    whole = (write_parts a.writes (magic ∷ all_parts h.items)).1

    bytes : Bytes
    bytes = (write_parts a.writes (magic ∷ all_parts h.items)).0

    renamed :
        {r : (Handle × Files) × Bool}
        → r.0.1
          ≡ put_file
              (put_file (put_file files (tmp_name h.name) (some bytes)) (tmp_name h.name) none)
              h.name
              (some bytes)
        → not (write_parts a.writes (magic ∷ all_parts h.items)).1 ≡ false
        → Effect h files r
    renamed e w =
        let b : bytes ≡ encode h.items =
          ground (arith, write_parts-joined a.writes (magic ∷ all_parts h.items)) in
        replaced (some bytes) (
          e
          ∙ ap
              (λ c.
                put_file
                  (put_file (put_file files (tmp_name h.name) (some bytes)) (tmp_name h.name) none)
                  h.name (some c))
              b)

-- Whatever fails on the way, `pal_nvs_commit` leaves the namespace's file as it was, or removed if
-- there is no item, or holding the whole encoding of the items: never a part of it.
pub commit_atomic :
    (a : CommitAnswers) (h : Handle) (files : Files)
    → let after = (commit a h files).0.1 in
      (after h.name ≡ files h.name)
      ⊎ ((h.items ≡ []) × (after h.name ≡ none))
      ⊎ (after h.name ≡ some (encode h.items))
commit_atomic a h files = go (commit-Effect a h files)
  where
    go :
        {r : (Handle × Files) × Bool}
        → Effect h files r
        → (r.0.1 h.name ≡ files h.name)
          ⊎ ((h.items ≡ []) × (r.0.1 h.name ≡ none))
          ⊎ (r.0.1 h.name ≡ some (encode h.items))
    go (untouched e) = inl (ap (λ f. f h.name) e)
    go (removed n e) = inr (inl (n, at h.name e ∙ ground (arith, same_self h.name)))
    go (partial b e) = inl (at h.name e ∙ ground (arith, tmp_name-ne h.name))
    go (replaced o e) = inr (inr (at h.name e ∙ ground (arith, same_self h.name)))

-- `pal_nvs_commit` changes no file but the namespace's and its temporary file.
commit_others :
    (a : CommitAnswers) (h : Handle) (files : Files) (j : Bytes)
    → j ≢ h.name
    → j ≢ tmp_name h.name
    → (commit a h files).0.1 j ≡ files j
commit_others a h files j n t = go (commit-Effect a h files)
  where
    other : (k : Bytes) → j ≢ k → same k j ≡ false
    other k ne = ground (arith, same_iff k j)

    go : {r : (Handle × Files) × Bool} → Effect h files r → r.0.1 j ≡ files j
    go (untouched e) = ap (λ f. f j) e
    go (removed m e) = at j e ∙ ground (arith, other h.name n)
    go (partial b e) = at j e ∙ ground (arith, other (tmp_name h.name) t)
    go (replaced o e) = at j e ∙ ground (arith, other h.name n, other (tmp_name h.name) t)

-- A `pal_nvs_commit` that returns true on a handle with changes has stored them: the file holds
-- the encoding of the items, or is removed if there is none. With items, the handle has no
-- changes left.
pub commit_stores :
    (a : CommitAnswers) (h : Handle) (files : Files)
    → h.changed ≡ true
    → (commit a h files).1 ≡ true
    → let (h', after) = (commit a h files).0 in
      ((h.items ≡ []) × (after h.name ≡ none))
      ⊎ ((h.items ≢ []) × (after h.name ≡ some (encode h.items)) × (h'.changed ≡ false))
unfolding commit write_tmp rename_tmp encode
commit_stores a h files c e = ground (
  arith,
  tmp_name-ne h.name,
  same_self h.name,
  write_parts-joined a.writes (magic ∷ all_parts h.items),
)

-- Every call of a commit is answered with success; writes may be short or interrupted.
pub record AllSucceed (a : CommitAnswers) : Type 0 where
  pub remove_ok : a.remove_ok ≡ true
  pub create_ok : a.create_ok ≡ true
  pub opendir_ok : a.opendir_ok ≡ true
  pub dirfd_ok : a.dirfd_ok ≡ true
  pub openat_ok : a.openat_ok ≡ true
  pub writes : IsHonest a.writes
  pub sync_before_ok : a.sync_before_ok ≡ true
  pub rename_ok : a.rename_ok ≡ true
  pub sync_after_ok : a.sync_after_ok ≡ true

-- If no call of the system fails, `pal_nvs_commit` on a handle opened for writing returns true. The
-- name with "-tmp" must fit a buffer of 256 bytes.
pub commit_succeeds :
    (a : CommitAnswers) (h : Handle) (files : Files)
    → AllSucceed a
    → h.mode ≡ readwrite
    → length (tmp_name h.name) ≤ 255
    → (commit a h files).1 ≡ true
unfolding commit write_tmp rename_tmp
commit_succeeds a h files s m l =
    ground (arith, write_parts-honest a.writes (magic ∷ all_parts h.items) s.writes)

-- A `pal_nvs_commit` that stores items removes the file whose name is the namespace's with "-tmp",
-- which another namespace may have.
commit_takes_tmp :
    (a : CommitAnswers) (h : Handle) (files : Files)
    → h.changed ≡ true
    → h.items ≢ []
    → (commit a h files).1 ≡ true
    → (commit a h files).0.1 (tmp_name h.name) ≡ none
unfolding commit write_tmp rename_tmp
commit_takes_tmp a h files c n e = ground (
  arith,
  tmp_name-ne h.name,
  same_iff h.name (tmp_name h.name),
  same_iff (tmp_name h.name) h.name,
  same_self (tmp_name h.name),
)
