-- ===== src/Hap/Valid.antt =====
-- What holds of the descriptor of bridge/src/lhaplib.c between calls.
use homekit_bridge.Base.{◌≡◌, true, false, Option, none, some, List, [], length}
use homekit_bridge.Hap.{Accessory, Cell, Desc, accessories, cells}

-- The accessories that an array holds; there are none where there is no array.
abbrev pub contents : Option (List Cell) → Option (List Accessory)
contents none = some []
contents (some cs) = accessories cs

-- The array holds these accessories, their count is kept, and so is the room.
pub record Holds (bs : List Accessory) (d : Desc) : Type 0 where
  pub held : contents d.bridged_accs ≡ some bs
  pub count : d.bridged_accs_cnt ≡ length bs
  pub room : d.bridged_accs_max ≡ length (cells d.bridged_accs)

-- A descriptor that is initialized has a primary accessory with the identifier 1, only then there are
-- bridged accessories, and only then it is started.
pub record Valid (d : Desc) : Type 0 where
  pub primary : d.inited ≡ true → (p : Accessory) × (d.primary_acc ≡ some p) × (p.aid ≡ 1)
  pub before : d.inited ≡ false → d.bridged_accs ≡ none
  pub started : d.is_started ≡ true → d.inited ≡ true
  pub bridged : (bs : List Accessory) × Holds bs d
