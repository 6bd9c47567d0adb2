-- ===== src/Storage/Identity/Kept.antt =====
-- The init of components/storage/src/key_store.c over a flash that holds an identity.
use smart_lock_firmware.Common.{
  ◌≡◌, ◌⊎◌, true, false, some, Bytes, length, ◌==◌, Bool-cases, inl, inr, arith,
}
use smart_lock_firmware.Storage.Hal.{Namespace, Nvs, NvsLaws}
use smart_lock_firmware.Storage.Hal.Calls.{storage_hal_read_blob-contents}
use smart_lock_firmware.Storage.KeyStore.{KeyStoreErr}
use smart_lock_firmware.Storage.Identity.{
  Store, blob_sk, blob_pk, identity_blob_len, identity_key, key_store_identity_init,
}

module _ {F : Type 0} (nvs : Nvs F) (laws : NvsLaws nvs) where
  open laws use {contents}

  -- With a blob of the identity in the flash and no identity loaded, the init never generates a pair
  -- and never writes: it either loads the 64 and 32 bytes of that very blob, which has 96 bytes, or
  -- it reports a storage error and changes nothing, a blob of another size included.
  pub key_store_identity_init-keeps :
      (key_pair : Bytes → Bytes × Bytes) (seed : Bytes) (s : Store F) (blob : Bytes)
      → s.identity_loaded ≡ false
      → contents s.keys.hal.flash Namespace.identity identity_key ≡ some blob
      → let (e, s') = key_store_identity_init nvs key_pair seed s in
        (s'.keys ≡ s.keys)
        × (((e ≡ KeyStoreErr.ok)
              × (length blob ≡ identity_blob_len)
              × (s'.identity_loaded ≡ true)
              × (s'.identity_sk ≡ blob_sk blob)
              × (s'.identity_pk ≡ blob_pk blob))
            ⊎ ((e ≡ KeyStoreErr.storage) × (s' ≡ s)))
  unfolding key_store_identity_init
  key_store_identity_init-keeps key_pair seed s blob l c =
      let read =
        storage_hal_read_blob-contents nvs laws s.keys.hal Namespace.identity identity_key
          identity_blob_len in
      elim (Bool-cases (length blob == identity_blob_len)) [
        | inl e ↦ ground (arith, read, e)
        | inr e ↦ ground (arith, read, e)
      ]
