-- ===== src/Storage/Identity.antt =====
-- The lock's own key pair, `key_store_identity_init` of components/storage/src/key_store.c.
pub mod Kept
use smart_lock_firmware.Common.{
  ℕ, zero, suc, ◌+◌, Bool, true, false, Option, List, [], ◌∷◌, ◌++◌, Bytes, ◌==◌, if◌then◌else◌,
  length, take, drop, replicate,
}
use smart_lock_firmware.Storage.Hal.{
  Namespace, StorageErr, Nvs, Hal, storage_hal_read_blob, storage_hal_write_blob,
  storage_hal_erase_key,
}
use smart_lock_firmware.Storage.KeyStore.{KeyStoreErr, KeyStore, key_max, idx_key_name}

-- `s_identity_sk`, `s_identity_pk`, `s_identity_loaded` beside the key store.
pub record Store (F : Type 0) : Type 0 where
  pub keys : KeyStore F
  pub identity_sk : Bytes
  pub identity_pk : Bytes
  pub identity_loaded : Bool

abbrev pub identity_blob_len : ℕ
identity_blob_len = 96

-- The blob name "lock".
abbrev pub identity_key : Bytes
identity_key = b'l' ∷ b'o' ∷ b'c' ∷ b'k' ∷ []

-- The sentinel name "booted".
abbrev pub booted_key : Bytes
booted_key = b'b' ∷ b'o' ∷ b'o' ∷ b't' ∷ b'e' ∷ b'd' ∷ []

-- The two parts of the blob: a 64-byte secret key and a 32-byte public key.
unfoldable pub blob_sk : Bytes → Bytes
blob_sk blob = take 64 blob

unfoldable pub blob_pk : Bytes → Bytes
blob_pk blob = drop 64 blob

module _ {F : Type 0} (nvs : Nvs F) where
  -- Erases the names of `n` slots from slot `i` on.
  erase_slots : ℕ → ℕ → Hal F → Hal F
  erase_slots zero i hal = hal
  erase_slots (suc n) i hal =
      erase_slots n (i + 1) (storage_hal_erase_key nvs hal Namespace.keys (idx_key_name i)).1

  -- The first boot marks the device as booted and clears the keys of an earlier life.
  clear_keys : Store F → Store F
  unfolding erase_slots
  clear_keys s =
      let (_, hal) = storage_hal_write_blob nvs s.keys.hal Namespace.identity booted_key (1 ∷ []) in
      record s {
        keys = record (s.keys) {
          hal = erase_slots key_max 0 hal;
          keys = replicate key_max (replicate 32 0);
          count = 0;
        };
      }

  -- A fresh pair is persisted, or forgotten again.
  unfoldable pub persist_identity : Bool → Store F → Bytes → Bytes → KeyStoreErr × Store F
  unfolding clear_keys
  persist_identity is_first_boot s sk pk =
      let (e, hal) =
        storage_hal_write_blob nvs s.keys.hal Namespace.identity identity_key (sk ++ pk) in
      let written : Store F = record s {
        keys = record (s.keys) { hal = hal };
        identity_sk = sk;
        identity_pk = pk;
        identity_loaded = true;
      } in
      elim e [
        | StorageErr.ok ↦ (KeyStoreErr.ok, if is_first_boot then clear_keys written else written)
        | _ ↦ (
          KeyStoreErr.storage,
          record s {
            keys = record (s.keys) { hal = hal };
            identity_sk = replicate 64 0;
            identity_pk = replicate 32 0;
          },
        )
      ]

  -- `key_pair` is `crypto_ed25519_key_pair` of a seed, and `seed` the random seed.
  unfoldable pub key_store_identity_init :
      (Bytes → Bytes × Bytes) → Bytes → Store F → KeyStoreErr × Store F
  key_store_identity_init key_pair seed s =
      let (e, blob) =
        storage_hal_read_blob nvs s.keys.hal Namespace.identity identity_key identity_blob_len in
      let (b, _) = storage_hal_read_blob nvs s.keys.hal Namespace.identity booted_key 1 in
      let is_first_boot : Bool = (elim b [ StorageErr.not_found ↦ true | _ ↦ false ]) in
      let (sk, pk) = key_pair seed in
      let loaded : Store F = record s {
        identity_sk = blob_sk blob;
        identity_pk = blob_pk blob;
        identity_loaded = true;
      } in
      let fresh : KeyStoreErr × Store F = (elim e [
        | StorageErr.ok ↦
            if length blob == identity_blob_len
            then (KeyStoreErr.ok, loaded)
            else (KeyStoreErr.storage, s)
        | StorageErr.not_found ↦ persist_identity is_first_boot s sk pk
        | _ ↦ (KeyStoreErr.storage, s)
      ]) in
      if s.identity_loaded then (KeyStoreErr.ok, s) else fresh
