-- ===== src/Hap/Raise.antt =====
-- `lhap_raise_event` of bridge/src/lhaplib.c, and how it finds what the event is raised for.
use homekit_bridge.Base.{ℕ, Option, none, some, List, [], ◌∷◌, ◌==◌, if◌then◌else◌}
use homekit_bridge.Hap.{
  Characteristic, Service, Accessory, Cell, unset, null, entry, Desc, Result, done, raises, wrong,
  ◌>>=◌, ◌>>◌, check, follow, parsed,
}

-- The first of a list with the identifier.
unfoldable pub first_with : {A : Type 0} → (A → ℕ) → ℕ → List A → Option A
first_with id i [] = none
first_with id i (x ∷ xs) = if id x == i then some x else first_with id i xs

-- The bridged accessory with the identifier, in the array up to the null pointer.
unfoldable pub find_bridged : ℕ → List Cell → Desc → Result Accessory
find_bridged i [] d = wrong
find_bridged i (unset ∷ cs) d = wrong
find_bridged i (null ∷ cs) d = raises d
find_bridged i (entry a ∷ cs) d = if a.aid == i then done a else find_bridged i cs d

-- An accessory of the bridge, or the bridge itself.
unfoldable pub find_accessory : ℕ → Desc → Result Accessory
find_accessory i d = do
  p ← follow d.primary_acc
  if p.aid == i
      then done p
      else elim d.bridged_accs [ none ↦ raises d | some cs ↦ find_bridged i cs d ]

-- `lhap_raise_event`: what an event is raised for.
unfoldable pub raise_event : ℕ → ℕ → ℕ → Desc → Result (Accessory × Service × Characteristic)
raise_event aid sid cid d = do
  check d.is_started d
  a ← find_accessory aid d
  ss ← parsed a.services d
  s ← parsed (first_with (λ (x : Service). x.iid) sid ss) d
  cs ← parsed s.characteristics d
  c ← parsed (first_with (λ (x : Characteristic). x.iid) cid cs) d
  done (a, s, c)
