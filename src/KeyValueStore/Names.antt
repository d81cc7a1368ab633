-- ===== src/KeyValueStore/Names.antt =====
-- The names under which HAPPlatformKeyValueStore.c keeps domains and keys.
use homekit_bridge.Base.{
  ℕ, zero, suc, ◌%◌, ◌≤◌, ◌<◌, ◌≡◌, ◌↔◌, refl, ap, sym, ◌∙◌, [], ◌∷◌, ◌++◌, take, length,
  length-append, arith,
}
use homekit_bridge.Base.Bytes.{Bytes}
use homekit_bridge.KeyValueStore.{Kvs, hex2, name_space, atoi}

-- Two bytes with the same two digits are the same.
pub hex2_inj : (m n : ℕ) → m < 256 → n < 256 → hex2 m ≡ hex2 n → m ≡ n
unfolding hex2
hex2_inj m n h k e = ground arith

append_inj : (p : Bytes) (xs ys : Bytes) → p ++ xs ≡ p ++ ys → xs ≡ ys
append_inj [] xs ys e = e
append_inj (c ∷ p) xs ys e = append_inj p xs ys (cc)

take-whole : (k : ℕ) (xs : Bytes) → length xs ≤ k → take k xs ≡ xs
take-whole zero [] h = refl
take-whole zero (x ∷ xs) h = absurd (omega arith)
take-whole (suc k) [] h = refl
take-whole (suc k) (x ∷ xs) h = ap (λ t. x ∷ t) (take-whole k xs (omega arith))

-- Two domains have two namespaces, if the prefix has at most 11 bytes.
pub name_space_inj :
    (kvs : Kvs) (c d : ℕ)
    → length kvs.namespace_prefix ≤ 11
    → c < 256
    → d < 256
    → name_space kvs c ≡ name_space kvs d
    → c ≡ d
unfolding name_space
name_space_inj kvs c d l h k e = hex2_inj c d h k (
    ground (
      arith,
      append_inj kvs.namespace_prefix (b'.' ∷ hex2 c) (b'.' ∷ hex2 d) (sym (whole c) ∙ e ∙ whole d),
    ))
  where
    two : (n : ℕ) → length (hex2 n) ≡ 2
    two n = unfold hex2 in refl

    whole :
        (n : ℕ)
        → take 14 (kvs.namespace_prefix ++ b'.' ∷ hex2 n) ≡ kvs.namespace_prefix ++ b'.' ∷ hex2 n
    whole n =
        take-whole 14 (kvs.namespace_prefix ++ b'.' ∷ hex2 n)
          (omega (arith, l, two n, length-append {0} kvs.namespace_prefix (b'.' ∷ hex2 n)))

-- The number that an enumeration makes of the name of a key is the key for the keys below 10 only.
pub atoi-hex2 : (k : ℕ) → k < 256 → (atoi 0 (hex2 k) % 256 ≡ k) ↔ (k < 10)
unfolding atoi hex2
atoi-hex2 k h = ground arith
