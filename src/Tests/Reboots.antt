-- ===== src/Tests/Reboots.antt =====
-- A key that is revoked, over a reboot.
use smart_lock_firmware.Common.{ℕ, zero, suc, ◌⊎◌, inl, none, replicate, true}
use smart_lock_firmware.Storage.Hal.{EspErr, Nvs, NvsLaws, IsAtomic, Namespace}
use smart_lock_firmware.Storage.KeyStore.{key_max}
use smart_lock_firmware.Tests.Platform.{put}
use smart_lock_firmware.Common.{◌≡◌, refl, false, Bytes, bytes_eq}
use smart_lock_firmware.Storage.KeyStore.{
  rewrite_keys, KeyStore, idx_key_name, authorized, key_store_contains, key_store_add,
  key_store_init, key_store_revoke,
}
use smart_lock_firmware.Storage.Hal.{
  storage_hal_init, storage_hal_read_blob, storage_hal_write_blob, storage_hal_erase_key,
}
use smart_lock_firmware.Storage.KeyStore.View.{IsValid, key_store_add-authorized}
use smart_lock_firmware.Storage.KeyStore.Members.{Distinct, key_store_add-Distinct}
use smart_lock_firmware.Storage.KeyStore.Flash.{Mirrors, key_store_add-Mirrors}
use smart_lock_firmware.Storage.KeyStore.Reboot.{revoked_after_reboot}
use smart_lock_firmware.Tests.Platform.{Flash, flash_nvs, flash_laws, flash_nvs-IsAtomic, phone_key}
use smart_lock_firmware.Tests.Stores.{
  one_key, other_key, one_key-IsValid, one_key-Distinct, one_key-Mirrors,
}

-- Two keys, of which the first is revoked, so that the second is moved.
abbrev two_keys : KeyStore Flash
two_keys = (key_store_add flash_nvs one_key other_key).1

two_keys-IsValid : IsValid two_keys
two_keys-IsValid = (key_store_add-authorized flash_nvs one_key other_key one_key-IsValid).0

two_keys-Distinct : Distinct (authorized two_keys)
two_keys-Distinct =
    (key_store_add-Distinct flash_nvs one_key other_key one_key-IsValid one_key-Distinct).0

two_keys-Mirrors : Mirrors flash_nvs flash_laws two_keys.hal.flash two_keys
unfolding key_store_add storage_hal_write_blob bytes_eq
two_keys-Mirrors =
    key_store_add-Mirrors flash_nvs flash_laws one_key other_key one_key-IsValid one_key-Mirrors
      refl

-- A flash that removes as many names as the number beside it, and then fails to.
abbrev Worn : Type 0
Worn = Flash × ℕ

abbrev worn_erase : ℕ → Flash → Namespace → Bytes → EspErr × Worn
worn_erase zero f ns k = (EspErr.failed, (f, 0))
worn_erase (suc n) f ns k = let (e, f') = flash_nvs.erase_key ns k f in (e, (f', n))

abbrev worn_nvs : Nvs Worn
worn_nvs = record {
  flash_init = λ w. (EspErr.ok, w);
  open_ns = λ ns w. (EspErr.ok, w);
  close_ns = λ ns w. w;
  get_blob = λ ns k cap w. flash_nvs.get_blob ns k cap w.0;
  set_blob = λ ns k b w. (EspErr.ok, ((flash_nvs.set_blob ns k b w.0).1, w.1));
  erase_key = λ ns k w. worn_erase w.1 w.0 ns k;
  commit = λ ns w. (EspErr.ok, w);
}

worn_erase_ok :
    (n : ℕ) (f : Flash) (ns : Namespace) (k : Bytes)
    → (worn_erase n f ns k).0 ≡ EspErr.ok
    → (ns' : Namespace) (k' : Bytes) → (worn_erase n f ns k).1.0 ns' k' ≡ put f ns k none ns' k'
worn_erase_ok zero f ns k h ns' k' = cc
worn_erase_ok (suc n) f ns k h ns' k' = flash_laws.erase_ok ns k f h ns' k'

worn_erase_missing :
    (n : ℕ) (f : Flash) (ns : Namespace) (k : Bytes)
    → (worn_erase n f ns k).0 ≡ EspErr.not_found
    → (f ns k ≡ none)
      × ((ns' : Namespace) (k' : Bytes) → (worn_erase n f ns k).1.0 ns' k' ≡ f ns' k')
worn_erase_missing zero f ns k h = cc
worn_erase_missing (suc n) f ns k h = flash_laws.erase_missing ns k f h

worn_erase_whole :
    (n : ℕ) (f : Flash) (ns : Namespace) (k : Bytes)
    → ((ns' : Namespace) (k' : Bytes) → (worn_erase n f ns k).1.0 ns' k' ≡ f ns' k')
      ⊎ ((ns' : Namespace) (k' : Bytes) → (worn_erase n f ns k).1.0 ns' k' ≡ put f ns k none ns' k')
worn_erase_whole zero f ns k = inl (λ ns' k'. refl)
worn_erase_whole (suc n) f ns k = flash_nvs-IsAtomic.erase_whole ns k f

abbrev worn_laws : NvsLaws worn_nvs
worn_laws = record {
  contents = λ w ns k. w.0 ns k;
  get_ok = λ ns k cap w. flash_laws.get_ok ns k cap w.0;
  get_missing = λ ns k cap w. flash_laws.get_missing ns k cap w.0;
  set_ok = λ ns k b w h ns' k'. refl;
  erase_ok = λ ns k w. worn_erase_ok w.1 w.0 ns k;
  erase_missing = λ ns k w. worn_erase_missing w.1 w.0 ns k;
  commit_ok = λ ns w h ns' k'. refl;
  init_keeps = λ w ns k. refl;
  open_keeps = λ n w ns k. refl;
}

worn_nvs-IsAtomic : IsAtomic worn_nvs worn_laws
worn_nvs-IsAtomic = record {
  erase_whole = λ ns k w. worn_erase_whole w.1 w.0 ns k;
  commit_whole = λ ns w ns' k'. refl;
}

-- The removed key's name is the last that can be erased, so the moved key keeps its old name as well.
abbrev worn_keys : KeyStore Worn
worn_keys = record {
  hal = record { inited = true; flash = (two_keys.hal.flash, 1) };
  keys = two_keys.keys;
  count = two_keys.count;
}

abbrev revoked : KeyStore Worn
revoked = (key_store_revoke worn_nvs worn_keys phone_key).1

abbrev reset : KeyStore Worn
reset = record {
  hal = record { inited = false; flash = revoked.hal.flash };
  keys = replicate key_max (replicate 32 0);
  count = 0;
}

-- The key that stays is read back from both of its names.
read_twice : (key_store_init worn_nvs reset).1.count ≡ 2
unfolding key_store_init storage_hal_init storage_hal_read_blob key_store_revoke key_store_add
    storage_hal_write_blob bytes_eq storage_hal_erase_key idx_key_name rewrite_keys
read_twice = refl

revoked_after_reboot_example :
    let boot' = (key_store_init worn_nvs reset).1 in
    (key_store_contains boot' phone_key ≡ false)
    × ((q : Bytes)
        → bytes_eq phone_key q ≡ false
        → key_store_contains boot' q ≡ key_store_contains worn_keys q)
unfolding key_store_revoke key_store_init key_store_add storage_hal_write_blob bytes_eq
    storage_hal_erase_key idx_key_name rewrite_keys storage_hal_init storage_hal_read_blob
revoked_after_reboot_example =
    revoked_after_reboot worn_nvs worn_laws worn_keys reset phone_key worn_nvs-IsAtomic
      (record { slots = two_keys-IsValid.slots; within = two_keys-IsValid.within })
      two_keys-Distinct two_keys-Mirrors refl refl refl refl
