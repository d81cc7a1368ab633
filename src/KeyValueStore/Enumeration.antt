-- ===== src/KeyValueStore/Enumeration.antt =====
-- The keys that HAPPlatformKeyValueStoreEnumerate of HAPPlatformKeyValueStore.c passes on.
use homekit_bridge.Base.{
  ℕ, ◌%◌, ◌<◌, ◌≡◌, ◌↔◌, refl, ap, sym, ap₂, ◌∙◌, Bool, true, List, [], ◌∷◌, ◌++◌, map, append-nil,
  append_assoc,
}
use homekit_bridge.KeyValueStore.{Kvs, Library, Visitor, hex2, name_space, atoi, visit, enumerate}
use homekit_bridge.KeyValueStore.Names.{atoi-hex2}

-- A callback that notes the keys and goes on.
abbrev pub note : Visitor (List ℕ)
note key w = (w ++ key ∷ [], true, true)

-- The keys as they are passed on.
abbrev shown : List ℕ → List ℕ
shown [] = []
shown (k ∷ ks) = (atoi 0 (hex2 k) % 256) ∷ shown ks

abbrev pub AllBytes : List ℕ → Type 0
AllBytes [] = Unit
AllBytes (k ∷ ks) = (k < 256) × AllBytes ks

abbrev pub AllDecimal : List ℕ → Type 0
AllDecimal [] = Unit
AllDecimal (k ∷ ks) = (k < 10) × AllDecimal ks

visit-note : (ks w : List ℕ) → visit note (map hex2 ks) w ≡ (w ++ shown ks, true)
unfolding visit
visit-note [] w = ap (λ x. (x, true)) (sym (append-nil w))
visit-note (k ∷ ks) w =
    let c = atoi 0 (hex2 k) % 256 in
    visit-note ks (w ++ c ∷ []) ∙ ap (λ x. (x, true)) (append_assoc w (c ∷ []) (shown ks))

shown_iff : (ks : List ℕ) → AllBytes ks → (shown ks ≡ ks) ↔ AllDecimal ks
shown_iff [] b = (λ e. tt, λ d. refl)
shown_iff (k ∷ ks) b =
    let (f, g) = atoi-hex2 k b.0 in
    let (p, q) = shown_iff ks b.1 in
    (λ e. (f (cc), p (cc)), λ d. ap₂ (λ x xs. x ∷ xs) (g d.0) (q d.1))

-- An enumeration of a domain whose keys the storage library lists passes on these keys exactly if
-- all of them are below 10, since a name of two hexadecimal digits is read as a decimal number. The
-- keys are bytes; the callback notes them and goes on.
pub enumerate_iff :
    {S H : Type 0} (lib : Library S H) (kvs : Kvs) (domain : ℕ) (s : S) (ks : List ℕ)
    → AllBytes ks
    → lib.entry_keys kvs.part_name (name_space kvs domain) s ≡ map hex2 ks
    → (enumerate lib kvs domain note s [] ≡ (ks, true)) ↔ AllDecimal ks
unfolding enumerate
enumerate_iff lib kvs domain s ks b e =
    let (f, g) = shown_iff ks b in
    let r : visit note (lib.entry_keys kvs.part_name (name_space kvs domain) s) []
        ≡ (shown ks, true) =
      ap (λ names. visit note names []) e ∙ visit-note ks [] in
    (λ q. f (ap (λ (x : List ℕ × Bool). x.0) (sym r ∙ q)), λ d. r ∙ ap (λ x. (x, true)) (g d))
