-- ===== src/Storage/KeyStore/View.antt =====
-- What each operation of components/storage/src/key_store.c does to the list of authorized keys.
use smart_lock_firmware.Common.{
  ℕ, ◌-◌, ◌%◌, ◌≤◌, ◌<◌, ◌≡◌, ◌≢◌, subst, ◌⊎◌, inl, inr, true, false, [], ◌∷◌, ◌++◌, Bytes, length,
  arith, Option-cases, length-set, length-take,
}
use smart_lock_firmware.Storage.Hal.{Namespace, Nvs, storage_hal_erase_key}
use smart_lock_firmware.Storage.KeyStore.{
  KeyStoreErr, KeyStore, key_max, authorized, find_key, key_store_contains, key_store_add, compact,
  remove_slot, key_store_revoke, idx_key_name,
}
use smart_lock_firmware.Storage.KeyStore.Slots.{
  remove_at, remove_first, find_key-found, take-last, take-shift_down, take-set_end,
  length-shift_down,
}

-- The 64 slots, of which the count is in use.
pub record IsValid {F : Type 0} (s : KeyStore F) : Type 0 where
  pub slots : length s.keys ≡ key_max
  pub within : s.count ≤ key_max

module _ {F : Type 0} (nvs : Nvs F) where
  -- Adding appends the key, and only then: a full store, a known key and a storage failure leave the
  -- authorized keys as they were, and a key that is added was not there before.
  pub key_store_add-authorized :
      (s : KeyStore F) (pk : Bytes)
      → IsValid s
      → let (e, s') = key_store_add nvs s pk in
        IsValid s'
        × (((e ≡ KeyStoreErr.ok)
              × (s.count < key_max)
              × (key_store_contains s pk ≡ false)
              × (authorized s' ≡ authorized s ++ pk ∷ []))
            ⊎ ((e ≢ KeyStoreErr.ok) × (authorized s' ≡ authorized s)))
  unfolding key_store_add
  key_store_add-authorized s pk v =
      ground (arith, take-set_end s.keys s.count pk, length-set s.keys s.count pk)

  compact-authorized :
      (s : KeyStore F) (idx : ℕ)
      → IsValid s
      → idx < s.count
      → let (e, s') = compact nvs s idx in
        IsValid s'
        × (((e ≡ KeyStoreErr.ok) × (authorized s' ≡ remove_at idx (authorized s)))
            ⊎ ((e ≡ KeyStoreErr.storage) × (authorized s' ≡ authorized s)))
  unfolding compact
  compact-authorized s idx v h = ground (
    arith,
    take-shift_down s.keys idx (s.count - idx - 1) (s.count - 1) s.count,
    take-last s.keys idx s.count,
    length-shift_down s.keys idx (s.count - idx - 1),
  )

  remove_slot-authorized :
      (s : KeyStore F) (idx : ℕ)
      → IsValid s
      → idx < s.count
      → let (e, s') = remove_slot nvs s idx in
        IsValid s'
        × (((e ≡ KeyStoreErr.ok) × (authorized s' ≡ remove_at idx (authorized s)))
            ⊎ ((e ≡ KeyStoreErr.storage) × (authorized s' ≡ authorized s)))
  unfolding remove_slot
  remove_slot-authorized s idx v h =
      let hal = (storage_hal_erase_key nvs s.hal Namespace.keys (idx_key_name (idx % 256))).1 in
      ground (
        arith,
        compact-authorized (record s { hal = hal }) idx
            (record { slots = v.slots; within = v.within }) h,
      )

  -- Revoking removes the key, and only then: an unknown key changes nothing at all, and after a
  -- storage failure the authorized keys are what they were.
  pub key_store_revoke-authorized :
      (s : KeyStore F) (pk : Bytes)
      → IsValid s
      → let (e, s') = key_store_revoke nvs s pk in
        IsValid s'
        × (((e ≡ KeyStoreErr.ok)
              × (key_store_contains s pk ≡ true)
              × (authorized s' ≡ remove_first pk (authorized s)))
            ⊎ ((e ≢ KeyStoreErr.ok)
                × (e ≡ KeyStoreErr.not_found → (key_store_contains s pk ≡ false) × (s' ≡ s))
                × (authorized s' ≡ authorized s)))
  unfolding key_store_revoke key_store_contains
  key_store_revoke-authorized s pk v = elim (Option-cases (find_key (authorized s) pk 0)) [
    | inl e ↦ ground (arith, e)
    | inr (k, e) ↦
        let (j, at, below, same) = find_key-found (authorized s) pk 0 k e in
        let used : k < s.count = omega (arith, length-take s.count s.keys) in
        let same' : remove_at k (authorized s) ≡ remove_first pk (authorized s) =
          subst (λ i. remove_at i (authorized s) ≡ remove_first pk (authorized s)) (omega arith)
            same in
        ground (arith, e, same', remove_slot-authorized s k v used)
  ]
