-- ===== src/Storage/KeyStore/Reboot.antt =====
-- The keys after a revocation and a reboot, components/storage/src/key_store.c.
use smart_lock_firmware.Common.{◌≡◌, sym, ap, ◌∙◌, subst, false, Bytes, length, bytes_eq}
use smart_lock_firmware.Storage.Hal.{Nvs, NvsLaws, IsAtomic}
use smart_lock_firmware.Storage.KeyStore.{
  KeyStoreErr, KeyStore, key_max, authorized, key_store_contains, key_store_init, key_store_revoke,
}
use smart_lock_firmware.Storage.KeyStore.View.{IsValid}
use smart_lock_firmware.Storage.KeyStore.Members.{
  mem_key, Distinct, key_store_contains-mem, key_store_revoke-Distinct,
}
use smart_lock_firmware.Storage.KeyStore.Revoked.{key_store_revoke-Recovers}
use smart_lock_firmware.Storage.KeyStore.Flash.{Mirrors, key_store_init-restores}

module _ {F : Type 0} (nvs : Nvs F) (laws : NvsLaws nvs) where
  -- A revoked key stays revoked over a reboot. From a store of distinct keys that the flash mirrors,
  -- after a revocation that succeeds, and a boot over its flash that succeeds, whatever the RAM's 64
  -- slots then hold: the revoked key is not authorized, and every other key is exactly if it was
  -- before, also when the unchecked removal of the old last name failed. Of a removal that fails it is
  -- assumed that it loses no other pair.
  pub revoked_after_reboot :
      (s boot : KeyStore F) (pk : Bytes)
      → IsAtomic nvs laws
      → IsValid s
      → Distinct (authorized s)
      → Mirrors nvs laws s.hal.flash s
      → let (e, s') = key_store_revoke nvs s pk in
        let (f, boot') = key_store_init nvs boot in
        e ≡ KeyStoreErr.ok
        → boot.hal.flash ≡ s'.hal.flash
        → length boot.keys ≡ key_max
        → f ≡ KeyStoreErr.ok
        → (key_store_contains boot' pk ≡ false)
          × ((q : Bytes)
              → bytes_eq pk q ≡ false
              → key_store_contains boot' q ≡ key_store_contains s q)
  revoked_after_reboot s boot pk atomic v d m e same l f =
      let s' = (key_store_revoke nvs s pk).1 in
      let boot' = (key_store_init nvs boot).1 in
      let (view, valid, mirrored, members) = key_store_revoke-Recovers nvs laws s pk atomic v m e in
      let restored =
        key_store_init-restores nvs laws view boot valid
          (subst (λ g. Mirrors nvs laws g view) (sym same) mirrored) l f in
      let alike = λ (q : Bytes).
        key_store_contains-mem boot' q
        ∙ ap (λ ks. mem_key ks q) restored
        ∙ members q
        ∙ sym (key_store_contains-mem s' q) in
      let (_, gone, others) = key_store_revoke-Distinct nvs s pk v d in
      (alike pk ∙ gone e, λ q n. alike q ∙ others q n)
