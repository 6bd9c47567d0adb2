-- ===== src/Tests/Stores.antt =====
-- Runs of the key store, the intent log and the identity over a flash.
use smart_lock_firmware.Common.{
  ◌<◌, ◌≡◌, ◌≢◌, ◌⊎◌, refl, true, false, some, [], ◌∷◌, ◌++◌, Bytes, length, replicate, bytes_eq,
  arith,
}
use smart_lock_firmware.Storage.KeyStore.{
  idx_key_name, KeyStoreErr, KeyStore, key_max, authorized, key_store_contains, key_store_add,
  key_store_init, key_store_revoke,
}
use smart_lock_firmware.Storage.Hal.{
  storage_hal_init, storage_hal_read_blob, Namespace, storage_hal_write_blob,
}
use smart_lock_firmware.Storage.KeyStore.Slots.{remove_first}
use smart_lock_firmware.Storage.KeyStore.View.{
  IsValid, key_store_add-authorized, key_store_revoke-authorized,
}
use smart_lock_firmware.Storage.KeyStore.Members.{Distinct, key_store_add-Distinct}
use smart_lock_firmware.Storage.KeyStore.Flash.{
  Mirrors, key_store_add-Mirrors, key_store_init-restores,
}
use smart_lock_firmware.Storage.Identity.{
  Store, identity_key, identity_blob_len, blob_sk, blob_pk, key_store_identity_init,
}
use smart_lock_firmware.Storage.Identity.Kept.{key_store_identity_init-keeps}
use smart_lock_firmware.Storage.IntentLog.{IntentErr, IntentLog, intent_log_init, intent_log_write}
use smart_lock_firmware.Storage.IntentLog.Reboot.{intent_log-survives}
use smart_lock_firmware.Tests.Platform.{Flash, empty_flash, put, flash_nvs, flash_laws, phone_key}

abbrev pub empty_store : KeyStore Flash
empty_store = record {
  hal = record { inited = true; flash = empty_flash };
  keys = replicate key_max (replicate 32 0);
  count = 0;
}

pub empty_store-IsValid : IsValid empty_store
empty_store-IsValid = record { slots = refl; within = omega arith }

empty_store-Mirrors : Mirrors flash_nvs flash_laws empty_flash empty_store
empty_store-Mirrors i b = ground arith

-- The store after the phone's key was added.
abbrev pub one_key : KeyStore Flash
one_key = (key_store_add flash_nvs empty_store phone_key).1

pub one_key-IsValid : IsValid one_key
one_key-IsValid = (key_store_add-authorized flash_nvs empty_store phone_key empty_store-IsValid).0

abbrev pub other_key : Bytes
other_key = replicate 32 10

key_store_add-authorized_example :
    let (e, s') = key_store_add flash_nvs one_key other_key in
    IsValid s'
    × (((e ≡ KeyStoreErr.ok)
          × (one_key.count < key_max)
          × (key_store_contains one_key other_key ≡ false)
          × (authorized s' ≡ authorized one_key ++ other_key ∷ []))
        ⊎ ((e ≢ KeyStoreErr.ok) × (authorized s' ≡ authorized one_key)))
key_store_add-authorized_example =
    key_store_add-authorized flash_nvs one_key other_key one_key-IsValid

key_store_revoke-authorized_example :
    let (e, s') = key_store_revoke flash_nvs one_key phone_key in
    IsValid s'
    × (((e ≡ KeyStoreErr.ok)
          × (key_store_contains one_key phone_key ≡ true)
          × (authorized s' ≡ remove_first phone_key (authorized one_key)))
        ⊎ ((e ≢ KeyStoreErr.ok)
            × (e ≡ KeyStoreErr.not_found
                → (key_store_contains one_key phone_key ≡ false) × (s' ≡ one_key))
            × (authorized s' ≡ authorized one_key)))
key_store_revoke-authorized_example =
    key_store_revoke-authorized flash_nvs one_key phone_key one_key-IsValid

pub one_key-Distinct : Distinct (authorized one_key)
one_key-Distinct = (key_store_add-Distinct flash_nvs empty_store phone_key empty_store-IsValid tt).0

key_store_add-Mirrors_example : Mirrors flash_nvs flash_laws one_key.hal.flash one_key
unfolding key_store_add storage_hal_write_blob
key_store_add-Mirrors_example =
    key_store_add-Mirrors flash_nvs flash_laws empty_store phone_key empty_store-IsValid
      empty_store-Mirrors refl

pub one_key-Mirrors : Mirrors flash_nvs flash_laws one_key.hal.flash one_key
unfolding key_store_add storage_hal_write_blob
one_key-Mirrors =
    key_store_add-Mirrors flash_nvs flash_laws empty_store phone_key empty_store-IsValid
      empty_store-Mirrors refl

-- The RAM after a reset, over the flash of that store.
abbrev rebooted : KeyStore Flash
rebooted = record empty_store { hal = record { inited = false; flash = one_key.hal.flash } }

key_store_init-restores_example :
    authorized (key_store_init flash_nvs rebooted).1 ≡ authorized one_key
unfolding key_store_init storage_hal_init storage_hal_read_blob key_store_add storage_hal_write_blob
    bytes_eq idx_key_name
key_store_init-restores_example =
    key_store_init-restores flash_nvs flash_laws one_key rebooted one_key-IsValid one_key-Mirrors
      refl refl

abbrev log : IntentLog Flash
log = record { hal = record { inited = true; flash = empty_flash }; target = 0 }

abbrev after_write : IntentLog Flash
after_write = (intent_log_write flash_nvs log 2).1

abbrev booting : IntentLog Flash
booting = record { hal = record { inited = false; flash = after_write.hal.flash }; target = 0 }

intent_log-survives_example :
    let (e, s') = intent_log_write flash_nvs log 2 in
    (e ≡ IntentErr.ok
      → booting.hal.flash ≡ s'.hal.flash
      → (intent_log_init flash_nvs booting).0 ≡ IntentErr.ok
      → (intent_log_init flash_nvs booting).1.target ≡ 2)
    × (e ≢ IntentErr.ok → s'.target ≡ 0)
intent_log-survives_example = intent_log-survives flash_nvs flash_laws log booting 2 (omega arith)

abbrev identity_blob : Bytes
identity_blob = replicate 96 11

abbrev identity_store : Store Flash
identity_store = record {
  keys = record empty_store {
    hal = record {
      inited = true;
      flash = put empty_flash Namespace.identity identity_key (some identity_blob);
    };
  };
  identity_sk = replicate 64 0;
  identity_pk = replicate 32 0;
  identity_loaded = false;
}

abbrev key_pair : Bytes → Bytes × Bytes
key_pair seed = (seed ++ seed, seed)

key_store_identity_init-keeps_example :
    let (e, s') = key_store_identity_init flash_nvs key_pair (replicate 32 12) identity_store in
    (s'.keys ≡ identity_store.keys)
    × (((e ≡ KeyStoreErr.ok)
          × (length identity_blob ≡ identity_blob_len)
          × (s'.identity_loaded ≡ true)
          × (s'.identity_sk ≡ blob_sk identity_blob)
          × (s'.identity_pk ≡ blob_pk identity_blob))
        ⊎ ((e ≡ KeyStoreErr.storage) × (s' ≡ identity_store)))
unfolding bytes_eq
key_store_identity_init-keeps_example =
    key_store_identity_init-keeps flash_nvs flash_laws key_pair (replicate 32 12) identity_store
      identity_blob refl refl
