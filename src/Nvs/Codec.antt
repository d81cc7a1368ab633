-- ===== src/Nvs/Codec.antt =====
-- The bytes of a store file: the parts that `pal_nvs_commit` writes, and size_t in memory order
-- (eight bytes, least significant first).
use homekit_bridge.Base.{
  ◌≡◌, refl, Bool, true, false, none, some, List, [], ◌∷◌, ◌++◌, length, arith, ◌==◌, if◌then◌else◌,
}
use homekit_bridge.Base.Bytes.{Bytes}
use homekit_bridge.Base.Endian.{le_bytes}
use homekit_bridge.Nvs.{Item}
use homekit_bridge.Nvs.Io.{Answer, write_all, IsHonest, write_all_lem, write_all-whole}

-- `PAL_NVS_MAGIC`, without its NUL
abbrev pub magic : Bytes
magic = b'n' ∷ b'v' ∷ b's' ∷ []

-- What the loop of `pal_nvs_commit` writes for an item, call by call.
unfoldable pub item_parts : Item → List Bytes
item_parts i = le_bytes 8 (length i.key) ∷ i.key ∷ le_bytes 8 (length i.value) ∷ i.value ∷ []

unfoldable pub all_parts : List Item → List Bytes
all_parts [] = []
all_parts (i ∷ is) = item_parts i ++ all_parts is

-- The parts one behind the other.
abbrev pub joined : List Bytes → Bytes
joined [] = []
joined (b ∷ bs) = b ++ joined bs

-- The whole file.
unfoldable pub encode : List Item → Bytes
encode is = joined (magic ∷ all_parts is)

-- `write_all_to_tmp_file`: the answers left, what is written, and whether it is the whole buffer.
unfoldable pub write_all_to_tmp_file : List Answer → Bytes → List Answer × Bytes × Bool
write_all_to_tmp_file p buf =
    let (p', ys, rc) = write_all p buf in
    (p', ys, elim rc [ none ↦ false | some n ↦ n == length buf ])

-- The calls of `write_all_to_tmp_file` for the parts, up to the first that fails.
unfoldable pub write_parts : List Answer → List Bytes → Bytes × Bool
write_parts p [] = ([], true)
write_parts p (b ∷ bs) =
    let (p', ys, whole) = write_all_to_tmp_file p b in
    let (zs, rest) = write_parts p' bs in if whole then (ys ++ zs, rest) else (ys, false)

-- If every call succeeds, the file holds the parts one behind the other.
pub write_parts-joined :
    (p : List Answer) (bs : List Bytes)
    → (write_parts p bs).1 ≡ true
    → (write_parts p bs).0 ≡ joined bs
unfolding write_parts write_all_to_tmp_file
write_parts-joined p [] e = refl
write_parts-joined p (b ∷ bs) e =
    ground (arith, write_all-whole p b, write_parts-joined (write_all p b).0 bs)

-- Short writes and interruptions alone do not make a commit fail.
pub write_parts-honest :
    (p : List Answer) (bs : List Bytes) → IsHonest p → (write_parts p bs).1 ≡ true
unfolding write_parts write_all_to_tmp_file
write_parts-honest p [] h = refl
write_parts-honest p (b ∷ bs) h =
    ground (arith, write_all_lem p b h, write_parts-honest (write_all p b).0 bs)
