-- ===== src/Storage/KeyStore/Revoked.antt =====
-- The flash after a revocation by components/storage/src/key_store.c.
use smart_lock_firmware.Storage.KeyStore.Compacted.{
  Recovers, Lacks, shifted-Recovers, last-Recovers,
}
use smart_lock_firmware.Common.{
  Bool-cases, subst, ◌⊎◌, bytes_eq, ℕ, ◌+◌, ◌-◌, ◌%◌, ◌<◌, ◌≡◌, inl, inr, ◌&&◌, none, Bytes, ◌==◌,
  if◌then◌else◌, arith, Option-cases, length-take,
}
use smart_lock_firmware.Storage.Hal.{
  Namespace, StorageErr, Nvs, NvsLaws, IsAtomic, same_ns, storage_hal_erase_key,
}
use smart_lock_firmware.Storage.Hal.Calls.{
  storage_hal_erase_key-contents, storage_hal_erase_key-whole,
}
use smart_lock_firmware.Storage.KeyStore.{
  KeyStoreErr, KeyStore, idx_key_name, authorized, find_key, rewrite_keys, compact, remove_slot,
  key_store_revoke,
}
use smart_lock_firmware.Storage.KeyStore.Slots.{idx_key_name-eq, find_key-found}
use smart_lock_firmware.Storage.KeyStore.View.{IsValid}
use smart_lock_firmware.Storage.KeyStore.Flash.{Mirrors}

module _ {F : Type 0} (nvs : Nvs F) (laws : NvsLaws nvs) where
  open laws use {contents}

  compact-Recovers :
      (s : KeyStore F) (idx : ℕ)
      → IsAtomic nvs laws
      → IsValid s
      → idx < s.count
      → Lacks nvs laws idx s
      → (compact nvs s idx).0 ≡ KeyStoreErr.ok
      → Recovers nvs laws (compact nvs s idx).1
  unfolding compact
  compact-Recovers s idx atomic v b m h =
      let tail = s.count - idx - 1 in
      let split : s.count ≡ idx + tail + 1 = omega (arith, b) in
      let (e, hal1) = rewrite_keys nvs tail idx s.keys s.hal in
      let name : (s.count - 1) % 256 ≡ idx + tail = omega (arith, v, b) in
      let hal2 =
        (storage_hal_erase_key nvs hal1 Namespace.keys (idx_key_name ((s.count - 1) % 256))).1 in
      elim (Bool-cases (tail == 0)) [
        | inl none_left ↦
            rw (none_left, compact)
              (last-Recovers nvs laws s idx v (ground (arith, none_left, b)) m)
        | inr more ↦
            let rewrites : e ≡ StorageErr.ok = (ground (arith, h, more)) in
            let whole =
              subst
                (λ n.
                  ((ns' : Namespace) (k' : Bytes)
                    → contents hal2.flash ns' k' ≡ contents hal1.flash ns' k')
                  ⊎ ((ns' : Namespace) (k' : Bytes)
                      → contents hal2.flash ns' k' ≡ (
                          if same_ns Namespace.keys ns' && bytes_eq (idx_key_name n) k'
                          then none
                          else contents hal1.flash ns' k')))
                name
                (storage_hal_erase_key-whole nvs laws hal1 (idx_key_name ((s.count - 1) % 256))
                  atomic) in
            rw (more, rewrites, compact)
              (shifted-Recovers nvs laws s idx tail v split m rewrites hal2 (ground (arith, more))
                whole)
      ]

  lacking :
      (s : KeyStore F) (idx : ℕ)
      → IsValid s
      → idx < s.count
      → Mirrors nvs laws s.hal.flash s
      → let (e, hal) = storage_hal_erase_key nvs s.hal Namespace.keys (idx_key_name (idx % 256)) in
        e ≡ StorageErr.ok → Lacks nvs laws idx (record s { hal = hal })
  lacking s idx v b m h i below =
      let name : idx % 256 ≡ idx = omega (arith, v, b) in
      ground (
        arith,
        name,
        storage_hal_erase_key-contents nvs laws s.hal Namespace.keys (idx_key_name (idx % 256)) h
            Namespace.keys (idx_key_name i),
        idx_key_name-eq idx i (omega (arith, v, b)) (omega arith),
        m i below,
      )

  remove_slot-Recovers :
      (s : KeyStore F) (idx : ℕ)
      → IsAtomic nvs laws
      → IsValid s
      → idx < s.count
      → Mirrors nvs laws s.hal.flash s
      → (remove_slot nvs s idx).0 ≡ KeyStoreErr.ok
      → Recovers nvs laws (remove_slot nvs s idx).1
  unfolding remove_slot
  remove_slot-Recovers s idx atomic v b m h =
      let (e, hal) = storage_hal_erase_key nvs s.hal Namespace.keys (idx_key_name (idx % 256)) in
      let s1 : KeyStore F = record s { hal = hal } in
      let erased : e ≡ StorageErr.ok = (ground (arith, h)) in
      let done : (compact nvs s1 idx).0 ≡ KeyStoreErr.ok = (ground (arith, erased, h)) in
      rw (erased, remove_slot)
        (compact-Recovers s1 idx atomic (record { slots = v.slots; within = v.within }) b
          (lacking s idx v b m erased) done)

  -- If the flash mirrors a store, then after a revocation that succeeds it mirrors a store with the
  -- same authorized keys: the last of them stands there twice if the removal of its old name failed,
  -- which the code does not check.
  pub key_store_revoke-Recovers :
      (s : KeyStore F) (pk : Bytes)
      → IsAtomic nvs laws
      → IsValid s
      → Mirrors nvs laws s.hal.flash s
      → let (e, s') = key_store_revoke nvs s pk in e ≡ KeyStoreErr.ok → Recovers nvs laws s'
  unfolding key_store_revoke
  key_store_revoke-Recovers s pk atomic v m h = elim (Option-cases (find_key (authorized s) pk 0)) [
    | inl e ↦ absurd (ground (arith, e))
    | inr (k, e) ↦
        let (j, at, below, same) = find_key-found (authorized s) pk 0 k e in
        let used : k < s.count = omega (arith, length-take s.count s.keys) in
        let ok : (remove_slot nvs s k).0 ≡ KeyStoreErr.ok = ground (arith, e) in
        rw (e, key_store_revoke) (remove_slot-Recovers s k atomic v used m ok)
  ]
