-- ===== src/Storage/KeyStore/Members.antt =====
-- The authorized keys of components/storage/src/key_store.c as a set.
use smart_lock_firmware.Common.{
  zero, suc, some, inl, inr, Bool-cases, take, take-suc, get_elem?, get_elem?-take, ap, ◌∙◌, ℕ, ◌+◌,
  ◌≡◌, refl, Bool, true, false, ◌||◌, List, [], ◌∷◌, ◌++◌, Bytes, bytes_eq, bytes_eq→eq,
  bytes_eq_comm, bytes_eq_refl, arith,
}
use smart_lock_firmware.Storage.Hal.{Nvs}
use smart_lock_firmware.Storage.KeyStore.{
  KeyStoreErr, KeyStore, authorized, find_key, is_some, key_store_contains, key_store_add,
  key_store_revoke,
}
use smart_lock_firmware.Storage.KeyStore.Slots.{remove_first}
use smart_lock_firmware.Storage.KeyStore.View.{
  IsValid, key_store_add-authorized, key_store_revoke-authorized,
}

abbrev pub mem_key : List Bytes → Bytes → Bool
mem_key [] pk = false
mem_key (x ∷ xs) pk = bytes_eq x pk || mem_key xs pk

-- No key stands in the list twice.
abbrev pub Distinct : List Bytes → Type 0
Distinct [] = Unit
Distinct (x ∷ xs) = (mem_key xs x ≡ false) × Distinct xs

find_key-mem : (xs : List Bytes) (pk : Bytes) (i : ℕ) → is_some (find_key xs pk i) ≡ mem_key xs pk
unfolding find_key
find_key-mem [] pk i = refl
find_key-mem (x ∷ xs) pk i = ground (arith, find_key-mem xs pk (i + 1))

mem-remove_first_other :
    (xs : List Bytes) (pk q : Bytes) → mem_key xs q ≡ false → mem_key (remove_first pk xs) q ≡ false
unfolding remove_first
mem-remove_first_other [] pk q h = refl
mem-remove_first_other (x ∷ xs) pk q h = ground (arith, mem-remove_first_other xs pk q)

mem-remove_first :
    (xs : List Bytes) (pk : Bytes) → Distinct xs → mem_key (remove_first pk xs) pk ≡ false
unfolding remove_first
mem-remove_first [] pk d = refl
mem-remove_first (x ∷ xs) pk d = ground (arith, mem-remove_first xs pk d.1, bytes_eq→eq x pk)

mem-remove_first_ne :
    (xs : List Bytes) (pk q : Bytes)
    → bytes_eq pk q ≡ false
    → mem_key (remove_first pk xs) q ≡ mem_key xs q
unfolding remove_first
mem-remove_first_ne [] pk q h = refl
mem-remove_first_ne (x ∷ xs) pk q h = ground (arith, mem-remove_first_ne xs pk q, bytes_eq→eq x pk)

Distinct-remove_first : (xs : List Bytes) (pk : Bytes) → Distinct xs → Distinct (remove_first pk xs)
unfolding remove_first
Distinct-remove_first [] pk d = tt
Distinct-remove_first (x ∷ xs) pk d =
    ground (arith, Distinct-remove_first xs pk d.1, mem-remove_first_other xs pk x)

mem-append_end :
    (xs : List Bytes) (pk q : Bytes) → mem_key (xs ++ pk ∷ []) q ≡ (mem_key xs q || bytes_eq pk q)
mem-append_end [] pk q = ground arith
mem-append_end (x ∷ xs) pk q = ground (arith, mem-append_end xs pk q)

Distinct-append_end :
    (xs : List Bytes) (pk : Bytes) → mem_key xs pk ≡ false → Distinct xs → Distinct (xs ++ pk ∷ [])
Distinct-append_end [] pk h d = (refl, tt)
Distinct-append_end (x ∷ xs) pk h d =
    ground (arith, Distinct-append_end xs pk, mem-append_end xs pk x, bytes_eq_comm x pk)

get_elem?-mem :
    (xs : List Bytes) (i : ℕ) (v q : Bytes)
    → get_elem? xs i ≡ some v
    → bytes_eq v q ≡ true
    → mem_key xs q ≡ true
get_elem?-mem [] i v q e h = cc
get_elem?-mem (x ∷ xs) zero v q e h = ground (arith, e, h)
get_elem?-mem (x ∷ xs) (suc i) v q e h = ground (arith, get_elem?-mem xs i v q e h)

-- A key that is repeated in the next slot adds nothing.
pub mem-take_again :
    (xs : List Bytes) (n : ℕ) (v q : Bytes)
    → get_elem? xs n ≡ some v
    → get_elem? xs (suc n) ≡ some v
    → mem_key (take (suc (suc n)) xs) q ≡ mem_key (take (suc n) xs) q
mem-take_again xs n v q here again =
    let there = get_elem?-take xs (suc n) n (omega arith) ∙ here in
    ap (λ ks. mem_key ks q) (take-suc xs (suc n) v again)
    ∙ mem-append_end (take (suc n) xs) v q
    ∙ elim (Bool-cases (bytes_eq v q)) [
      | inl h ↦ ground (arith, h, get_elem?-mem (take (suc n) xs) n v q there h)
      | inr h ↦ ground (arith, h)
    ]

pub key_store_contains-mem :
    {F : Type 0} (s : KeyStore F) (pk : Bytes) → key_store_contains s pk ≡ mem_key (authorized s) pk
unfolding key_store_contains
key_store_contains-mem s pk = find_key-mem (authorized s) pk 0

module _ {F : Type 0} (nvs : Nvs F) where
  -- In a store of distinct keys, adding a key keeps the keys distinct, and a key that was added is
  -- authorized.
  pub key_store_add-Distinct :
      (s : KeyStore F) (pk : Bytes)
      → IsValid s
      → Distinct (authorized s)
      → let (e, s') = key_store_add nvs s pk in
        Distinct (authorized s') × (e ≡ KeyStoreErr.ok → key_store_contains s' pk ≡ true)
  key_store_add-Distinct s pk v d =
      let s' = (key_store_add nvs s pk).1 in
      ground (
        arith,
        key_store_add-authorized nvs s pk v,
        key_store_contains-mem s pk,
        key_store_contains-mem s' pk,
        Distinct-append_end (authorized s) pk,
        mem-append_end (authorized s) pk pk,
        bytes_eq_refl pk,
      )

  -- In a store of distinct keys, revoking keeps the keys distinct, a key that was revoked is no
  -- longer authorized, and every other key is authorized exactly if it was before.
  pub key_store_revoke-Distinct :
      (s : KeyStore F) (pk : Bytes)
      → IsValid s
      → Distinct (authorized s)
      → let (e, s') = key_store_revoke nvs s pk in
        Distinct (authorized s')
        × (e ≡ KeyStoreErr.ok → key_store_contains s' pk ≡ false)
        × ((q : Bytes) → bytes_eq pk q ≡ false → key_store_contains s' q ≡ key_store_contains s q)
  key_store_revoke-Distinct s pk v d =
      let s' = (key_store_revoke nvs s pk).1 in
      let removed = key_store_revoke-authorized nvs s pk v in
      (
        ground (arith, removed, Distinct-remove_first (authorized s) pk d),
        ground (arith, removed, key_store_contains-mem s' pk, mem-remove_first (authorized s) pk d),
        λ q n. ground (
          arith,
          removed,
          key_store_contains-mem s q,
          key_store_contains-mem s' q,
          mem-remove_first_ne (authorized s) pk q n,
        ),
      )
