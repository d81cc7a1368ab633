-- ===== src/RunLoop/Life.antt =====
-- `HAPPlatformRunLoopCreate` and `HAPPlatformRunLoopRelease` of HAPPlatformRunLoop.c.
use homekit_bridge.Base.{
  ℕ, ◌≡◌, refl, Bool, true, false, Option, none, some, List, [], ◌∷◌, ◌++◌, ◌==◌, arith,
}
use homekit_bridge.Base.Outcome.{Outcome, ok, abort, ◌>>=◌, ◌>>◌, require}
use homekit_bridge.RunLoop.Handles.{Events, Handle, Handles, next, unlink, register, deregister}
use homekit_bridge.RunLoop.Handles.Valid.{Unused}
use homekit_bridge.RunLoop.Loop.{Phase, idle}

-- The fields of `runLoop` that are set by creation and release: the loopback's descriptors, none for
-- -1, its file handle, the file handles, and the state.
pub record Life : Type 0 where
  pub descriptor0 : Option ℕ
  pub descriptor1 : Option ℕ
  pub handle : Option ℕ
  pub handles : Handles
  pub phase : Phase

-- What the calls of the system answer: two sockets, whether the other calls succeed, and the
-- allocator's address for the file handle.
pub record Opening : Type 0 where
  pub socket0 : Option ℕ
  pub socket1 : Option ℕ
  pub nonblocking0 : Bool
  pub nonblocking1 : Bool
  pub bound : Bool
  pub connected : Bool
  pub alloc : Option ℕ

abbrev pub is_none {ℓ} : {A : Type ℓ} → Option A → Bool
is_none none = true
is_none (some x) = false

abbrev pub opened : {A : Type 0} → Option A → Outcome A
opened none = abort
opened (some d) = ok d

abbrev pub for_reading : Events
for_reading = record { reading = true; writing = false; error = false }

-- `HAPPlatformRunLoopCreate`; `loopback_cb` is `HandleLoopbackFileHandleCallback`.
unfoldable pub create : ℕ → Opening → Life → Outcome Life
create loopback_cb a s = do
  require (is_none s.descriptor0)
  require (is_none s.descriptor1)
  d0 ← opened a.socket0
  d1 ← opened a.socket1
  require a.nonblocking0
  require a.nonblocking1
  require a.bound
  require a.connected
  let r = register a.alloc (some d0) for_reading loopback_cb 0 s.handles
  p ← opened r.1
  ok (record {
    descriptor0 = some d0;
    descriptor1 = some d1;
    handle = some p;
    handles = r.0;
    phase = idle;
  })

-- The loopback's file handle, if there is one, is deregistered.
unfoldable pub drop_handle : Option ℕ → Handles → Outcome Handles
drop_handle none hs = ok hs
drop_handle (some p) hs = deregister p hs

-- `HAPPlatformRunLoopRelease`
unfoldable pub release : Life → Outcome Life
release s = do
  hs ← drop_handle s.handle s.handles
  ok (record { descriptor0 = none; descriptor1 = none; handle = none; handles = hs; phase = idle })

next-last :
    (p : ℕ) (n : Handle) (hs : List Handle)
    → n.address ≡ p
    → Unused p hs
    → next p (hs ++ n ∷ []) ≡ some 0
unfolding next
next-last p n [] e u = ground (arith, e)
next-last p n (h ∷ hs) e u = ground (arith, u, next-last p n hs e u.1)

unlink-last :
    (p : ℕ) (n : Handle) (hs : List Handle)
    → n.address ≡ p
    → Unused p hs
    → unlink p (hs ++ n ∷ []) ≡ some hs
unfolding unlink
unlink-last p n [] e u = ground (arith, e)
unlink-last p n (h ∷ hs) e u = ground (arith, u, unlink-last p n hs e u.1)

deregister-register :
    (p : ℕ) (d : Option ℕ) (i : Events) (callback context : ℕ) (s : Handles)
    → Unused p s.list
    → (p == s.cursor) ≡ false
    → deregister p (register (some p) d i callback context s).0 ≡ ok s
unfolding register deregister
deregister-register p d i callback context s u c =
    let n : Handle = record {
      address = p;
      descriptor = d;
      interests = i;
      callback = callback;
      context = context;
      awaiting = false;
    } in
    rw (deregister, next-last p n s.list refl u, unlink-last p n s.list refl u, c) refl

-- The creation of a run loop that was not created yet succeeds where all calls of the system do: it
-- is idle then, with a file handle for reading from the loopback behind the others. Its release undoes
-- all of this. The new file handle is at an address that is not in use and not that of the cursor.
release-create :
    (loopback_cb d0 d1 p : ℕ) (hs : Handles)
    → Unused p hs.list
    → (p == hs.cursor) ≡ false
    → let s : Life = record {
      descriptor0 = none;
      descriptor1 = none;
      handle = none;
      handles = hs;
      phase = idle;
    } in
      let a : Opening = record {
        socket0 = some d0;
        socket1 = some d1;
        nonblocking0 = true;
        nonblocking1 = true;
        bound = true;
        connected = true;
        alloc = some p;
      } in
      (t : Life) × (create loopback_cb a s ≡ ok t)
      × (t.phase ≡ idle)
      × (t.handles ≡ (register (some p) (some d0) for_reading loopback_cb 0 hs).0)
      × (release t ≡ ok s)
unfolding create release drop_handle register
release-create loopback_cb d0 d1 p hs u c =
    let h = register (some p) (some d0) for_reading loopback_cb 0 hs in
    let t : Life = record {
      descriptor0 = some d0;
      descriptor1 = some d1;
      handle = some p;
      handles = h.0;
      phase = idle;
    } in
    (
      t,
      refl,
      refl,
      refl,
      rw (deregister-register p (some d0) for_reading loopback_cb 0 hs u c) refl,
    )
