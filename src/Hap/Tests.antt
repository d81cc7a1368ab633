-- ===== src/Hap/Tests.antt =====
-- A bridge with bridged accessories at concrete values, and the theorems there.
use mathlib.Core.Path.{subst}
use mathlib.Core.Option.{some-injective}
use homekit_bridge.Base.{
  ℕ, ◌≡◌, refl, ap, sym, ◌∙◌, Bool, true, false, none, some, List, [], ◌∷◌, arith,
}
use homekit_bridge.Base.Bytes.{same, strcmp}
use homekit_bridge.Lc.{Key, lookup_kv_by_name, take_pair, traverse_table}
use homekit_bridge.Hap.{
  Characteristic, Service, Accessory, null, entry, Desc, Result, done, raises, wrong, first_desc,
  no_flags, parsed, init, deinit, accessories, write, resize, grow, append, add_bridged_accessory,
  get_new_bridged_aid, get_new_iid, ◌>>=◌,
}
use homekit_bridge.Hap.Server.{
  shrink, count_characteristics, count_services, count_attr, count_accessories, start, stop,
}
use homekit_bridge.Hap.Raise.{first_with, find_bridged, find_accessory, raise_event}
use homekit_bridge.Hap.Valid.{Holds, Valid}
use homekit_bridge.Hap.Bridged.{second_overruns}
use homekit_bridge.Hap.Actions.{
  Action, initializing, adding, starting, raising, perform, performs, Allowed, AllAllowed, Complete,
  AllComplete,
}
use homekit_bridge.Hap.Life.{first_desc-Valid, performs-Valid, new_aid_after_deinit}
use homekit_bridge.Hap.Events.{named, raise_event_lem}

abbrev switch_on : Characteristic
switch_on = record {
  iid = 21;
  readable = true;
  writable = true;
  supports_event_notification = true;
}

abbrev switch : Service
switch = record { iid = 20; characteristics = some (switch_on ∷ []) }

abbrev bridge : Accessory
bridge = record { aid = 1; services = some (switch ∷ []) }

abbrev lamp : ℕ → Accessory
lamp i = record { aid = i; services = some (switch ∷ []) }

abbrev all_valid : Accessory → Bool
all_valid a = true

-- All values are functions.
abbrev function : ℕ → ℕ
function v = 6

abbrev callbacks : List (Key × ℕ)
callbacks =
    (
      record {
        text = some (117 ∷ 112 ∷ 100 ∷ 97 ∷ 116 ∷ 101 ∷ 100 ∷ 83 ∷ 116 ∷ 97 ∷ 116 ∷ 101 ∷ []);
        integer = none;
      },
      0,
    )
    ∷ []

abbrev value : Desc → Result Desc → Desc
value e (done d) = d
value e (raises d) = e
value e wrong = e

-- The descriptor that a Lua error leaves.
abbrev left : Desc → Result Desc → Desc
left e (done d) = e
left e (raises d) = d
left e wrong = e

abbrev init_it : Action ℕ
init_it =
    initializing true (record { counted = 2; null_key = false; accessory = some bridge }) callbacks

abbrev add_it : Action ℕ
add_it = adding true true (record { counted = 2; null_key = false; accessory = some (lamp 2) })

abbrev run_it : Action ℕ → Desc → Result Desc
run_it = perform function all_valid

abbrev d1 : Desc
d1 = record first_desc {
  inited = true;
  attribute_cnt = 19;
  primary_acc = some bridge;
  server_cbs = record {
    pointers = record no_flags { updated_state = true };
    registry = record no_flags { updated_state = true };
  };
}

abbrev d2 : Desc
d2 = record d1 {
  attribute_cnt = 21;
  bridged_accs = some (entry (lamp 2) ∷ null ∷ []);
  bridged_accs_max = 2;
  bridged_accs_cnt = 1;
}

abbrev d3 : Desc
d3 = record d2 { is_started = true }

inits : run_it init_it first_desc ≡ done d1
unfolding perform init traverse_table lookup_kv_by_name take_pair same strcmp
inits = refl

adds : run_it add_it d1 ≡ done d2
unfolding perform add_bridged_accessory grow append write resize
adds = refl

starts : run_it (starting true) d2 ≡ done d3
unfolding perform start shrink count_attr count_services count_characteristics count_accessories
    accessories
starts = refl

abbrev raise_it : Action ℕ
raise_it = raising 2 20 21

raises_it : run_it raise_it d3 ≡ done d3
unfolding perform raise_event find_accessory find_bridged first_with
raises_it = refl

-- A key that is no text, in the table of an accessory.
crashes_it :
    run_it (adding true true (record { counted = 0; null_key = true; accessory = none })) d1 ≡ wrong
unfolding perform add_bridged_accessory grow write resize
crashes_it = refl

known :
    (a : Action ℕ) (more : List (Action ℕ)) (d e : Desc)
    → run_it a d ≡ done e
    → Allowed function all_valid a d
    → AllAllowed function all_valid more e
    → AllAllowed function all_valid (a ∷ more) d
known a more d e q b h = (
  b,
  λ f r. subst (AllAllowed function all_valid more) (ap (value e) (sym q ∙ r)) h,
  λ f r. absurd (ground (arith, sym q ∙ r)),
)

abbrev actions : List (Action ℕ)
actions = init_it ∷ add_it ∷ starting true ∷ raise_it ∷ []

bridge-Complete : Complete bridge
bridge-Complete = (switch ∷ [], refl, (λ e. absurd (ground (arith, e)), tt))

start_Allowed : Allowed function all_valid (starting true) d2
unfolding accessories
start_Allowed = (
  λ p e. subst Complete (some-injective bridge p e) bridge-Complete,
  λ bs e.
      subst AllComplete (some-injective (lamp 2 ∷ []) bs e)
        ((switch ∷ [], refl, (λ q. absurd (ground (arith, q)), tt)), tt),
)

all_allowed : AllAllowed function all_valid actions first_desc
all_allowed =
    known init_it (add_it ∷ starting true ∷ raise_it ∷ []) first_desc d1 inits
      (refl, ((λ e. absurd (ground (arith, e))), tt))
      (known add_it (starting true ∷ raise_it ∷ []) d1 d2 adds (refl, refl, refl)
        (known (starting true) (raise_it ∷ []) d2 d3 starts start_Allowed
          (known raise_it [] d3 d3 raises_it tt tt)))

performs-Valid_example :
    (e : Desc) × (performs function all_valid actions first_desc ≡ some e) × Valid e
performs-Valid_example =
    performs-Valid function all_valid actions first_desc first_desc-Valid all_allowed

performs_all : performs function all_valid actions first_desc ≡ some d3
unfolding performs
performs_all = rw (performs, inits, adds, starts, raises_it) refl

d1-Valid : Valid d1
d1-Valid = record {
  primary = λ i. (bridge, refl, refl);
  before = λ i. refl;
  started = λ s. refl;
  bridged = ([], record { held = refl; count = refl; room = refl });
}

second_overruns_example :
    (add_bridged_accessory all_valid true true
        (record { counted = 2; null_key = false; accessory = some (lamp 2) })
        d1
      >>= add_bridged_accessory all_valid true true
          (record { counted = 2; null_key = false; accessory = some (lamp 3) }))
    ≡ wrong
second_overruns_example =
    second_overruns all_valid 2 2 (lamp 2) (lamp 3) d1 refl refl refl refl d1-Valid refl

new_aid_after_deinit_example :
    (p : Accessory) × (d1.primary_acc ≡ some p)
    × (e : Desc) × (deinit d1 ≡ done e)
    × ((get_new_bridged_aid e).1 ≡ p.aid)
new_aid_after_deinit_example = new_aid_after_deinit d1 d1-Valid refl refl

d3-Holds : Holds (lamp 2 ∷ []) d3
unfolding accessories
d3-Holds = record { held = refl; count = refl; room = refl }

raise_event_lem_example : raise_event 2 20 21 d3 ≡ parsed (named (bridge ∷ lamp 2 ∷ []) 2 20 21) d3
raise_event_lem_example = raise_event_lem 2 20 21 d3 bridge (lamp 2 ∷ []) refl refl d3-Holds

raised : raise_event 2 20 21 d3 ≡ done (lamp 2, switch, switch_on)
unfolding raise_event find_accessory find_bridged first_with
raised = refl

-- An identifier that nothing has.
not_raised : raise_event 3 20 21 d3 ≡ raises d3
unfolding raise_event find_accessory find_bridged first_with
not_raised = refl

-- The first array cannot be allocated, and the next accessory is written through a null pointer.
after_failure :
    add_bridged_accessory all_valid true true
      (record { counted = 2; null_key = false; accessory = some (lamp 2) })
      (left d1 (
        add_bridged_accessory all_valid false true
          (record { counted = 2; null_key = false; accessory = some (lamp 2) })
          d1))
    ≡ wrong
unfolding add_bridged_accessory grow append
after_failure = refl

stopped : stop d3 ≡ done d2
unfolding stop
stopped = refl

next_iid : (get_new_iid first_desc).1 ≡ 18
unfolding get_new_iid
next_iid = refl
