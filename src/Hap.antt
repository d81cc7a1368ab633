-- ===== src/Hap.antt =====
-- The HomeKit bindings for Lua, bridge/src/lhaplib.c: the descriptor `gv_lhap_desc`, with the calls
-- that change it and `raiseEvent`.
--
-- The array of bridged accessories is the list of the cells of its block of memory. What a call
-- leaves of the table of an accessory is an argument, and so are the answers of the allocator. Identifiers
-- are from 0 on. Arguments have the types that the calls check first.
pub mod Server
pub mod Raise
pub mod Memory
pub mod Valid
pub mod Room
pub mod Bridged
pub mod Actions
pub mod Adding
pub mod Starting
pub mod Serving
pub mod Life
pub mod Events
pub mod Values
mod Tests
use homekit_bridge.Base.{
  ℕ, zero, suc, ◌+◌, ◌-◌, ◌*◌, Bool, true, false, not, ◌&&◌, Option, none, some, List, [], ◌∷◌, leb,
  ltb, ◌==◌, if◌then◌else◌,
}
use homekit_bridge.Base.Bytes.{Bytes}
use homekit_bridge.Base.Outcome.{Outcome, ok, abort}
use homekit_bridge.Lc.{Kv, Key, traverse_table}

-- What is used of `HAPBaseCharacteristic`, `HAPService` and `HAPAccessory`; a list is none for NULL.
pub record Characteristic : Type 0 where
  pub iid : ℕ
  pub readable : Bool
  pub writable : Bool
  pub supports_event_notification : Bool

pub record Service : Type 0 where
  pub iid : ℕ
  pub characteristics : Option (List Characteristic)

pub record Accessory : Type 0 where
  pub aid : ℕ
  pub services : Option (List Service)

-- A cell of the array of bridged accessories.
pub data Cell : Type 0 where
  unset null : Cell
  entry : Accessory → Cell

-- One flag for each of the callbacks of the server.
pub record Flags : Type 0 where
  pub updated_state : Bool
  pub session_accept : Bool
  pub session_invalidate : Bool

-- `HAPAccessoryServerCallbacks`, and what the registry holds for them.
pub record Hooks : Type 0 where
  pub pointers : Flags
  pub registry : Flags

-- `lhap_desc`
pub record Desc : Type 0 where
  pub inited : Bool
  pub is_started : Bool
  pub attribute_cnt : ℕ
  pub bridged_aid : ℕ
  pub iid : ℕ
  pub primary_acc : Option Accessory
  pub bridged_accs : Option (List Cell)
  pub bridged_accs_max : ℕ
  pub bridged_accs_cnt : ℕ
  pub server_cbs : Hooks

-- The end of a call: it returns, or raises a Lua error, which leaves a descriptor too, or uses memory
-- that it must not use.
pub data Result (A : Type 0) : Type 0 where
  done : A → Result A
  raises : Desc → Result A
  wrong : Result A

infixl 5 ◌>>=◌ ◌>>◌
abbrev pub ◌>>=◌ : {A B : Type 0} → Result A → (A → Result B) → Result B
done a >>= f = f a
raises d >>= f = raises d
wrong >>= f = wrong

abbrev pub ◌>>◌ : {B : Type 0} → Result (Unit {0}) → Result B → Result B
m >> k = m >>= λ _. k

-- A Lua error if there is not what must be.
abbrev pub check : Bool → Desc → Result (Unit {0})
check true d = done tt
check false d = raises d

-- A pointer that is followed.
abbrev pub follow : {A : Type 0} → Option A → Result A
follow none = wrong
follow (some x) = done x

abbrev pub no_flags : Flags
no_flags = record { updated_state = false; session_accept = false; session_invalidate = false }

-- `LHAP_ATTR_CNT_DFT`
abbrev pub attr_cnt_dft : ℕ
attr_cnt_dft = 17

-- `gv_lhap_desc` at first.
abbrev pub first_desc : Desc
first_desc = record {
  inited = false;
  is_started = false;
  attribute_cnt = attr_cnt_dft;
  bridged_aid = 2;
  iid = attr_cnt_dft + 1;
  primary_acc = none;
  bridged_accs = none;
  bridged_accs_max = 0;
  bridged_accs_cnt = 0;
  server_cbs = record { pointers = no_flags; registry = no_flags };
}

-- What is left of the table of an accessory: how many identifiers of services and characteristics
-- were counted, whether the traversal met a key that is no text, with which `strcmp` gets a null
-- pointer, and otherwise the accessory, none where the table has an error.
pub record Parsed : Type 0 where
  pub counted : ℕ
  pub null_key : Bool
  pub accessory : Option Accessory

abbrev count : Parsed → Desc → Desc
count p d = record d { attribute_cnt = d.attribute_cnt + p.counted }

-- The keys of the table have texts.
abbrev pub texts : Parsed → Result (Unit {0})
texts p = if p.null_key then wrong else done tt

abbrev parsed : {A : Type 0} → Option A → Desc → Result A
parsed none d = raises d
parsed (some x) d = done x

module _ {V : Type 0} where
  -- `lhap_server_cb_update_state_cb`, `lhap_server_cb_session_accept_cb` and
  -- `lhap_server_cb_session_invalid_cb`
  abbrev update_state_cb : V → Hooks → Hooks × Bool
  update_state_cb v h = (
    record {
      pointers = record h.pointers { updated_state = true };
      registry = record h.registry { updated_state = true };
    },
    true,
  )

  abbrev session_accept_cb : V → Hooks → Hooks × Bool
  session_accept_cb v h = (
    record {
      pointers = record h.pointers { session_accept = true };
      registry = record h.registry { session_accept = true };
    },
    true,
  )

  abbrev session_invalid_cb : V → Hooks → Hooks × Bool
  session_invalid_cb v h = (
    record {
      pointers = record h.pointers { session_invalidate = true };
      registry = record h.registry { session_invalidate = true };
    },
    true,
  )

  -- `lhap_server_callbacks_kvs`; 64 is `LC_TFUNCTION`.
  abbrev pub server_callbacks_kvs : List (Kv V Hooks)
  server_callbacks_kvs =
      record {
        key = 117 ∷ 112 ∷ 100 ∷ 97 ∷ 116 ∷ 101 ∷ 100 ∷ 83 ∷ 116 ∷ 97 ∷ 116 ∷ 101 ∷ [];
        type = 64;
        cb = some update_state_cb;
      }
      ∷ record {
        key = 115 ∷ 101 ∷ 115 ∷ 115 ∷ 105 ∷ 111 ∷ 110 ∷ 65 ∷ 99 ∷ 99 ∷ 101 ∷ 112 ∷ 116 ∷ [];
        type = 64;
        cb = some session_accept_cb;
      }
      ∷ record {
        key =
            115 ∷ 101 ∷ 115 ∷ 115 ∷ 105 ∷ 111 ∷ 110 ∷ 73 ∷ 110 ∷ 118 ∷ 97 ∷ 108 ∷ 105 ∷ 100 ∷ 97
            ∷ 116 ∷ 101 ∷ [];
        type = 64;
        cb = some session_invalid_cb;
      }
      ∷ []

  -- `lhap_init`, of the primary accessory and the table of the server's callbacks.
  unfoldable pub init : (V → ℕ) → Bool → Parsed → List (Key × V) → Desc → Result Desc
  init lua_type allocates p callbacks d = do
    check (not d.inited) d
    check allocates (record d { primary_acc = none })
    let d1 = record (count p d) { primary_acc = none }
    texts p
    a ← parsed p.accessory d1
    check (a.aid == 1) d1
    elim (traverse_table lua_type server_callbacks_kvs callbacks d.server_cbs) [
      | abort ↦ wrong
      | ok (hooks, fine) ↦
          if fine
          then done (record (count p d) { inited = true; primary_acc = some a; server_cbs = hooks })
          else raises (record d1 { server_cbs = record hooks { registry = no_flags } })
    ]

-- The accessories of a block up to the null pointer.
unfoldable pub accessories : List Cell → Option (List Accessory)
accessories [] = none
accessories (unset ∷ cs) = none
accessories (null ∷ cs) = some []
accessories (entry a ∷ cs) = elim (accessories cs) [ none ↦ none | some more ↦ some (a ∷ more) ]

-- The bridged accessories, of an array that there is.
abbrev pub bridged : Desc → Result (Option (List Accessory))
bridged d = elim d.bridged_accs [
  | none ↦ done none
  | some cs ↦ elim (accessories cs) [ none ↦ wrong | some more ↦ done (some more) ]
]

-- `lhap_deinit`
unfoldable pub deinit : Desc → Result Desc
deinit d = do
  check d.inited d
  check (not d.is_started) d
  freed ← bridged d
  done (record {
    inited = false;
    is_started = d.is_started;
    attribute_cnt = attr_cnt_dft;
    bridged_aid = 1;
    iid = attr_cnt_dft + 1;
    primary_acc = none;
    bridged_accs = none;
    bridged_accs_max = 0;
    bridged_accs_cnt = 0;
    server_cbs = record { pointers = no_flags; registry = no_flags };
  })

-- `accs[i] = x`
unfoldable pub write : ℕ → Cell → List Cell → Option (List Cell)
write i x [] = none
write zero x (c ∷ cs) = some (x ∷ cs)
write (suc i) x (c ∷ cs) = elim (write i x cs) [ none ↦ none | some us ↦ some (c ∷ us) ]

-- `pal_mem_realloc` to room for `n` cells.
unfoldable pub resize : ℕ → List Cell → List Cell
resize zero cs = []
resize (suc n) [] = unset ∷ resize n []
resize (suc n) (c ∷ cs) = c ∷ resize n cs

abbrev pub cells : Option (List Cell) → List Cell
cells none = []
cells (some cs) = cs

-- The room for accessories is used up; the difference wraps around below 0.
abbrev pub is_full : Desc → Bool
is_full d =
    leb d.bridged_accs_cnt d.bridged_accs_max && leb (d.bridged_accs_max - d.bridged_accs_cnt) 1

-- The array gets more room before an accessory is added, if the room is used up.
unfoldable pub grow : Bool → Desc → Result Desc
grow allocates d =
    if is_full d
    then (do
      let max = if d.bridged_accs_cnt == 0 then 2 else d.bridged_accs_cnt * 2
      check allocates (record d { bridged_accs_max = max })
      accs ← follow (write d.bridged_accs_cnt null (resize max (cells d.bridged_accs)))
      done (record d { bridged_accs_max = max; bridged_accs = some accs }))
    else done d

-- An accessory is put at the end of the array, and the null pointer behind it.
unfoldable pub append : Accessory → Desc → Result Desc
append a d = do
  accs ← follow d.bridged_accs
  with_a ← follow (write d.bridged_accs_cnt (entry a) accs)
  ended ← follow (write (d.bridged_accs_cnt + 1) null with_a)
  done (record d { bridged_accs_cnt = d.bridged_accs_cnt + 1; bridged_accs = some ended })

-- `lhap_add_bridged_accessory`; `is_valid` is `HAPBridgedAccessoryIsValid`.
unfoldable pub add_bridged_accessory :
    (Accessory → Bool) → Bool → Bool → Parsed → Desc → Result Desc
add_bridged_accessory is_valid allocates_array allocates p d = do
  check d.inited d
  check (not d.is_started) d
  g ← grow allocates_array d
  check allocates g
  texts p
  a ← parsed p.accessory (count p g)
  check (is_valid a) (count p g)
  append a (count p g)

-- `lhap_get_new_bridged_aid` and `lhap_get_new_iid`
unfoldable pub get_new_bridged_aid : Desc → Desc × ℕ
get_new_bridged_aid d = (record d { bridged_aid = d.bridged_aid + 1 }, d.bridged_aid)

unfoldable pub get_new_iid : Desc → Desc × ℕ
get_new_iid d = (record d { iid = d.iid + 1 }, d.iid)
