-- ===== src/Hap/Actions.antt =====
-- What Lua programs ask of bridge/src/lhaplib.c, one call after the other; after a Lua error they go
-- on.
use homekit_bridge.Base.{
  ℕ, ◌≡◌, ◌≢◌, Bool, true, false, ◌&&◌, Option, none, some, List, [], ◌∷◌, ◌==◌,
}
use homekit_bridge.Lc.{Key}
use homekit_bridge.Hap.{
  Service, Accessory, Desc, Result, done, raises, wrong, Parsed, init, deinit,
  add_bridged_accessory, get_new_bridged_aid, get_new_iid,
}
use homekit_bridge.Hap.Server.{start, stop}
use homekit_bridge.Hap.Raise.{raise_event}
use homekit_bridge.Hap.Valid.{contents, Valid}

-- The calls, with their arguments and the answers of the allocator; events are raised for the
-- identifiers of an accessory, a service and a characteristic.
pub data Action (V : Type 0) : Type 0 where
  initializing : Bool → Parsed → List (Key × V) → Action V
  deinitializing : Action V
  adding : Bool → Bool → Parsed → Action V
  starting : Bool → Action V
  stopping : Action V
  numbering numbering_bridged : Action V
  raising : ℕ → ℕ → ℕ → Action V

abbrev pub started : {A : Type 0} → Result (Desc × A) → Result Desc
started (done (d, s)) = done d
started (raises d) = raises d
started wrong = wrong

-- What a call leaves that changes nothing.
abbrev pub unchanged : {A : Type 0} → Desc → Result A → Result Desc
unchanged d (done x) = done d
unchanged d (raises e) = raises e
unchanged d wrong = wrong

-- The services and characteristics of an accessory are there.
abbrev pub AllListed : List Service → Type 0
AllListed [] = Unit
AllListed (s ∷ ss) = (s.characteristics ≢ none) × AllListed ss

abbrev pub Complete : Accessory → Type 0
Complete a = (ss : List Service) × (a.services ≡ some ss) × AllListed ss

abbrev pub AllComplete : List Accessory → Type 0
AllComplete [] = Unit
AllComplete (a ∷ more) = Complete a × AllComplete more

-- Each key of the table has a text.
abbrev pub AllNamed : {V : Type 0} → List (Key × V) → Type 0
AllNamed [] = Unit
AllNamed ((k, v) ∷ pairs) = (k.text ≢ none) × AllNamed pairs

module _ {V : Type 0} (lua_type : V → ℕ) (is_valid : Accessory → Bool) where
  unfoldable pub perform : Action V → Desc → Result Desc
  perform (initializing allocates p callbacks) d = init lua_type allocates p callbacks d
  perform deinitializing d = deinit d
  perform (adding allocates_array allocates p) d =
      add_bridged_accessory is_valid allocates_array allocates p d
  perform (starting allocates) d = started (start allocates d)
  perform stopping d = stop d
  perform numbering d = done (get_new_iid d).0
  perform numbering_bridged d = done (get_new_bridged_aid d).0
  perform (raising aid sid cid) d = unchanged d (raise_event aid sid cid d)

  -- The descriptor after all calls, none where one of them has used wrong memory.
  unfoldable pub performs : List (Action V) → Desc → Option Desc
  performs [] d = some d
  performs (a ∷ more) d = elim (perform a d) [
    | done e ↦ performs more e
    | raises e ↦ performs more e
    | wrong ↦ none
  ]

  -- The array can be allocated, and no second accessory is added to it where it has room for two
  -- cells; what is started has its services and characteristics; the keys of tables have texts.
  abbrev pub Allowed : Action V → Desc → Type 0
  Allowed (initializing allocates p callbacks) d = (p.null_key ≡ false) × AllNamed callbacks
  Allowed deinitializing d = Unit
  Allowed (adding allocates_array allocates p) d =
      (allocates_array ≡ true)
      × (p.null_key ≡ false)
      × ((d.bridged_accs_cnt == 1 && d.bridged_accs_max == 2) ≡ false)
  Allowed (starting allocates) d =
      ((p : Accessory) → d.primary_acc ≡ some p → Complete p)
      × ((bs : List Accessory) → contents d.bridged_accs ≡ some bs → AllComplete bs)
  Allowed stopping d = Unit
  Allowed numbering d = Unit
  Allowed numbering_bridged d = Unit
  Allowed (raising aid sid cid) d = Unit

  abbrev pub AllAllowed : List (Action V) → Desc → Type 0
  AllAllowed [] d = Unit
  AllAllowed (a ∷ more) d =
      Allowed a d
      × ((e : Desc) → perform a d ≡ done e → AllAllowed more e)
      × ((e : Desc) → perform a d ≡ raises e → AllAllowed more e)

-- The call uses no wrong memory, and leaves the descriptor as it has to be.
abbrev pub Safe : Result Desc → Type 0
Safe (done d) = Valid d
Safe (raises d) = Valid d
Safe wrong = ⊥
