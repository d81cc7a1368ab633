-- ===== src/RunLoop/Handles.antt =====
-- The file handles of HAPPlatformRunLoop.c: `HAPPlatformFileHandleRegister`,
-- `HAPPlatformFileHandleUpdateInterests`, `HAPPlatformFileHandleDeregister` and
-- `ProcessSelectedFileHandles`.
--
-- The circular list is the list of its handles, each with its address, without the sentinel, whose
-- address is 0 here. The cursor is an address. A handle that is not in the list has been freed, and
-- its use is an error. A callback is a number, 0 for NULL; what it does is a function on the handles
-- and the rest of the program's state.
pub mod Valid
pub mod Edits
pub mod Changes
pub mod Rounds
pub mod Kept
pub mod Calls
pub mod Find
use homekit_bridge.Base.{
  ℕ, zero, suc, ◌≡◌, Bool, true, false, not, ◌&&◌, ◌||◌, Option, none, some, List, [], ◌∷◌, ◌++◌,
  ◌==◌, if◌then◌else◌,
}
use homekit_bridge.Base.Outcome.{Outcome, ok, abort, ◌>>=◌}

-- `HAPPlatformFileHandleEvent`
pub record Events : Type 0 where
  pub reading : Bool
  pub writing : Bool
  pub error : Bool

-- `HAPPlatformFileHandle`; the descriptor is none for -1.
pub record Handle : Type 0 where
  pub address : ℕ
  pub descriptor : Option ℕ
  pub interests : Events
  pub callback : ℕ
  pub context : ℕ
  pub awaiting : Bool

-- The file handles of `runLoop`, with the cursor.
pub record Handles : Type 0 where
  pub list : List Handle
  pub cursor : ℕ

abbrev pub first : List Handle → ℕ
first [] = 0
first (h ∷ hs) = h.address

-- `nextFileHandle` of the handle of that address.
unfoldable pub next : ℕ → List Handle → Option ℕ
next p [] = none
next p (h ∷ hs) = if h.address == p then some (first hs) else next p hs

unfoldable pub find : ℕ → List Handle → Option Handle
find p [] = none
find p (h ∷ hs) = if h.address == p then some h else find p hs

-- The list without the handle of that address, if there is one.
unfoldable pub unlink : ℕ → List Handle → Option (List Handle)
unlink p [] = none
unlink p (h ∷ hs) =
    if h.address == p then some hs else elim (unlink p hs) [ none ↦ none | some us ↦ some (h ∷ us) ]

-- A change of the handle of that address.
unfoldable pub adjust : (Handle → Handle) → ℕ → List Handle → List Handle
adjust f p [] = []
adjust f p (h ∷ hs) = if h.address == p then f h ∷ hs else h ∷ adjust f p hs

-- `HAPPlatformFileHandleRegister`; the allocator gives the address, or nothing.
unfoldable pub register : Option ℕ → Option ℕ → Events → ℕ → ℕ → Handles → Handles × Option ℕ
register none descriptor interests callback context s = (s, none)
register (some p) descriptor interests callback context s = (
  record s {
    list =
        s.list
        ++ record {
          address = p;
          descriptor = descriptor;
          interests = interests;
          callback = callback;
          context = context;
          awaiting = false;
        }
          ∷ [];
  },
  some p,
)

-- `HAPPlatformFileHandleUpdateInterests`
unfoldable pub update_interests : ℕ → Events → ℕ → ℕ → Handles → Outcome Handles
update_interests p interests callback context s = elim (find p s.list) [
  | none ↦ abort
  | some h ↦ ok (record s {
    list =
        adjust (λ h. record h { interests = interests; callback = callback; context = context }) p
          s.list;
  })
]

-- `HAPPlatformFileHandleDeregister`
unfoldable pub deregister : ℕ → Handles → Outcome Handles
deregister p s = elim (next p s.list) [
  | none ↦ abort
  | some n ↦ elim (unlink p s.list) [
    | none ↦ abort
    | some us ↦ ok (record { list = us; cursor = if p == s.cursor then n else s.cursor })
  ]
]

-- The descriptors that `select` has found ready.
pub record Ready : Type 0 where
  pub reading : ℕ → Bool
  pub writing : ℕ → Bool
  pub error : ℕ → Bool

-- A callback: what it does to the handles and to the rest of the program's state.
abbrev pub Firing : Type 0 → Type 0
Firing W = Handle → Events → Handles → W → Outcome (Handles × W)

-- The events of a handle on the descriptor `d`.
abbrev pub events : Ready → ℕ → Handle → Events
events r d h = record {
  reading = h.interests.reading && r.reading d;
  writing = h.interests.writing && r.writing d;
  error = h.interests.error && r.error d;
}

abbrev pub any_event : Events → Bool
any_event e = e.reading || e.writing || e.error

-- The state after a handle was processed, or what has ended the process: a callback, or the use of a
-- freed handle or a failed assertion of the loop.
pub data Visited (W : Type 0) : Type 0 where
  went : Handles → W → Visited W
  exited wrong : Visited W

abbrev pub went_on : {W : Type 0} → Outcome (Handles × W) → Visited W
went_on abort = exited
went_on (ok (s, w)) = went s w

-- The handle `h` at the cursor, which is awaiting events on the descriptor `d`; `s` has the cursor
-- behind it.
unfoldable pub dispatch : {W : Type 0} → Ready → Firing W → Handle → ℕ → Handles → W → Visited W
dispatch r fire h d s w =
    let settled = record h { awaiting = false } in
    let t = record s { list = adjust (λ x. record x { awaiting = false }) h.address s.list } in
    if h.callback == 0
    then went t w
    else if any_event (events r d h)
    then went_on (fire settled (events r d h) t w)
    else went t w

-- One round of the loop of `ProcessSelectedFileHandles`, at the handle `h`.
unfoldable pub visit : {W : Type 0} → Ready → Firing W → Handle → Handles → W → Visited W
visit r fire h s w = elim (next h.address s.list) [
  | none ↦ wrong
  | some n ↦
      let t = record s { cursor = n } in
      if h.awaiting
      then elim h.descriptor [ none ↦ wrong | some d ↦ dispatch r fire h d t w ]
      else went t w
]

-- How the loop ends, or that the rounds allowed are used up.
pub data Processed (W : Type 0) : Type 0 where
  finished : Handles → W → Processed W
  ended failed unsettled : Processed W

-- The loop of `ProcessSelectedFileHandles`, in which a callback can change the handles.
unfoldable pub rounds : {W : Type 0} → ℕ → Ready → Firing W → Handles → W → Processed W
rounds zero r fire s w = unsettled
rounds (suc f) r fire s w = elim (s.cursor == 0) [
  | true ↦ finished s w
  | false ↦ elim (find s.cursor s.list) [
    | none ↦ failed
    | some h ↦ elim (visit r fire h s w) [
      | went t v ↦ rounds f r fire t v
      | exited ↦ ended
      | wrong ↦ failed
    ]
  ]
]

-- `ProcessSelectedFileHandles`
unfoldable pub process : {W : Type 0} → ℕ → Ready → Firing W → Handles → W → Processed W
process f r fire s w = rounds f r fire (record s { cursor = first s.list }) w
