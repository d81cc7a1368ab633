-- ===== src/Hap/Server.antt =====
-- `lhap_start` and `lhap_stop` of bridge/src/lhaplib.c, with the counting of characteristics.
use homekit_bridge.Base.{
  ℕ, ◌+◌, Bool, true, false, not, Option, none, some, List, [], ◌∷◌, ◌==◌, if◌then◌else◌,
}
use homekit_bridge.Hap.{
  Characteristic, Service, Accessory, Desc, Result, done, ◌>>=◌, ◌>>◌, check, follow, bridged,
  is_full, resize,
}

-- The counts of `lhap_count_attr`.
pub record Counts : Type 0 where
  pub readable : ℕ
  pub writable : ℕ
  pub notify : ℕ

abbrev add_if : Bool → ℕ → ℕ
add_if b n = if b then n + 1 else n

-- `lhap_count_attr`, for the characteristics of a service, for the services and for accessories.
unfoldable pub count_characteristics : List Characteristic → Counts → Counts
count_characteristics [] n = n
count_characteristics (c ∷ cs) n = count_characteristics cs (record {
  readable = add_if c.readable n.readable;
  writable = add_if c.writable n.writable;
  notify = add_if c.supports_event_notification n.notify;
})

unfoldable pub count_services : List Service → Counts → Result Counts
count_services [] n = done n
count_services (s ∷ ss) n = do
  cs ← follow s.characteristics
  count_services ss (count_characteristics cs n)

unfoldable pub count_attr : Accessory → Counts → Result Counts
count_attr a n = follow a.services >>= λ ss. count_services ss n

unfoldable pub count_accessories : List Accessory → Counts → Result Counts
count_accessories [] n = done n
count_accessories (a ∷ more) n = count_attr a n >>= count_accessories more

abbrev at_least_one : ℕ → ℕ
at_least_one n = if n == 0 then 1 else n

-- The accessory server that is started.
pub record Server : Type 0 where
  pub primary : Accessory
  pub bridged : Option (List Accessory)
  pub counts : Counts
  pub attribute_cnt : ℕ

-- The array gives up the room that it does not use.
unfoldable pub shrink : Bool → Desc → Result Desc
shrink allocates d = elim d.bridged_accs [
  | none ↦ done d
  | some cs ↦ if is_full d then done d else (do
    check allocates d
    done (record d {
      bridged_accs = some (resize (d.bridged_accs_cnt + 1) cs);
      bridged_accs_max = d.bridged_accs_cnt + 1;
    }))
]

abbrev pub list_of : Option (List Accessory) → List Accessory
list_of none = []
list_of (some more) = more

-- `lhap_start`
unfoldable pub start : Bool → Desc → Result (Desc × Server)
start allocates d = do
  check d.inited d
  check (not d.is_started) d
  g ← shrink allocates d
  a ← follow g.primary_acc
  n ← count_attr a (record { readable = 0; writable = 0; notify = 0 })
  more ← bridged g
  m ← count_accessories (list_of more) n
  done (
    record g { is_started = true },
    record {
      primary = a;
      bridged = more;
      counts = record {
        readable = at_least_one m.readable;
        writable = at_least_one m.writable;
        notify = at_least_one m.notify;
      };
      attribute_cnt = g.attribute_cnt;
    },
  )

-- `lhap_stop`
unfoldable pub stop : Desc → Result Desc
stop d = do check d.is_started d; done (record d { is_started = false })
