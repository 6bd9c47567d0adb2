-- ===== src/Storage/KeyStore.antt =====
-- The authorized-key store of components/storage/src/key_store.c: a RAM cache of 64 slots written
-- through to the flash.
pub mod Slots
pub mod View
pub mod Members
pub mod Flash
pub mod Compacted
pub mod Revoked
pub mod Reboot
use smart_lock_firmware.Common.{
  ℕ, zero, suc, ◌+◌, ◌-◌, ◌/◌, ◌%◌, Bool, true, false, not, ◌||◌, Option, none, some, List, [], ◌∷◌,
  ◌++◌, Bytes, ltb, leb, ◌==◌, bytes_eq, if◌then◌else◌, length, get_elem?, get_or, set, take, drop,
}
use smart_lock_firmware.Storage.Hal.{
  Namespace, StorageErr, Nvs, Hal, storage_hal_init, storage_hal_read_blob, storage_hal_write_blob,
  storage_hal_erase_key,
}

pub data KeyStoreErr : Type 0 where
  ok full exists not_found storage : KeyStoreErr

-- `s_keys`, `s_count` and the state of the storage below.
pub record KeyStore (F : Type 0) : Type 0 where
  pub hal : Hal F
  pub keys : List Bytes
  pub count : ℕ

abbrev pub key_max : ℕ
key_max = 64

-- The key name of a slot: 'k' and two decimal digits.
unfoldable pub idx_key_name : ℕ → Bytes
idx_key_name idx = b'k' ∷ (b'0' + idx / 10) ∷ (b'0' + idx % 10) ∷ []

-- The slots in use, in order.
abbrev pub authorized : {F : Type 0} → KeyStore F → List Bytes
authorized s = take s.count s.keys

-- The first slot below the count that holds the key.
unfoldable pub find_key : List Bytes → Bytes → ℕ → Option ℕ
find_key [] pk i = none
find_key (k ∷ ks) pk i = if bytes_eq k pk then some i else find_key ks pk (i + 1)

abbrev pub is_some : Option ℕ → Bool
is_some none = false
is_some (some i) = true

unfoldable pub key_store_contains : {F : Type 0} → KeyStore F → Bytes → Bool
unfolding find_key
key_store_contains s pk = is_some (find_key (authorized s) pk 0)

unfoldable pub key_store_get : {F : Type 0} → KeyStore F → ℕ → Option Bytes
key_store_get s index = if leb s.count index then none else get_elem? s.keys index

-- `memmove(&s_keys[idx], &s_keys[idx + 1], tail * 32)`.
unfoldable pub shift_down : List Bytes → ℕ → ℕ → List Bytes
shift_down keys idx tail =
    take idx keys ++ (take tail (drop (idx + 1) keys) ++ drop (idx + tail) keys)

module _ {F : Type 0} (nvs : Nvs F) where
  -- The warming loop: `n` slots are left, the next is `i`.
  warm : ℕ → ℕ → KeyStore F → KeyStoreErr × KeyStore F
  warm zero i s = (KeyStoreErr.ok, s)
  warm (suc n) i s =
      let (e, blob) = storage_hal_read_blob nvs s.hal Namespace.keys (idx_key_name i) 32 in
      let s' = record s { keys = set s.keys i blob } in
      let rest = warm n (i + 1) (record s' { count = i + 1 }) in
      elim e [
        | StorageErr.not_found ↦ (KeyStoreErr.ok, s)
        | StorageErr.ok ↦ if length blob == 32 then rest else (KeyStoreErr.storage, s')
        | _ ↦ (KeyStoreErr.storage, s)
      ]

  unfoldable pub key_store_init : KeyStore F → KeyStoreErr × KeyStore F
  unfolding warm
  key_store_init s =
      let (e, hal) = storage_hal_init nvs s.hal in
      elim e [
        | StorageErr.ok ↦ warm key_max 0 (record s { hal = hal; count = 0 })
        | _ ↦ (KeyStoreErr.storage, record s { hal = hal })
      ]

  write_key : KeyStore F → Bytes → KeyStoreErr × KeyStore F
  write_key s pk =
      let (e, hal) =
        storage_hal_write_blob nvs s.hal Namespace.keys (idx_key_name (s.count % 256)) pk in
      elim e [
        | StorageErr.full ↦ (KeyStoreErr.full, record s { hal = hal })
        | StorageErr.ok ↦ (
          KeyStoreErr.ok,
          record s { hal = hal; keys = set s.keys s.count pk; count = s.count + 1 },
        )
        | _ ↦ (KeyStoreErr.storage, record s { hal = hal })
      ]

  unfoldable pub key_store_add : KeyStore F → Bytes → KeyStoreErr × KeyStore F
  unfolding write_key key_store_contains
  key_store_add s pk =
      if leb key_max s.count
      then (KeyStoreErr.full, s)
      else if key_store_contains s pk
      then (KeyStoreErr.exists, s)
      else write_key s pk

  -- The loop that re-writes the shifted keys: `n` keys are left, the next goes to slot `i`.
  unfoldable pub rewrite_keys : ℕ → ℕ → List Bytes → Hal F → StorageErr × Hal F
  rewrite_keys zero i keys hal = (StorageErr.ok, hal)
  rewrite_keys (suc n) i keys hal =
      let (e, hal') =
        storage_hal_write_blob nvs hal Namespace.keys (idx_key_name (i % 256))
          (get_or keys (i + 1) []) in
      let rest = rewrite_keys n (i + 1) keys hal' in
      elim e [ StorageErr.ok ↦ rest | err ↦ (err, hal') ]

  -- The compaction, once the key at `idx` is erased from the flash.
  unfoldable pub compact : KeyStore F → ℕ → KeyStoreErr × KeyStore F
  unfolding shift_down
  compact s idx =
      let tail = s.count - idx - 1 in
      let (e, hal1) = rewrite_keys tail idx s.keys s.hal in
      let (_, hal2) =
        storage_hal_erase_key nvs hal1 Namespace.keys (idx_key_name ((s.count - 1) % 256)) in
      let shifted : KeyStoreErr × KeyStore F = (elim e [
        | StorageErr.ok ↦ (
          KeyStoreErr.ok,
          record s { hal = hal2; keys = shift_down s.keys idx tail; count = s.count - 1 },
        )
        | _ ↦ (KeyStoreErr.storage, record s { hal = hal1 })
      ]) in
      if tail == 0 then (KeyStoreErr.ok, record s { count = s.count - 1 }) else shifted

  remove_slot : KeyStore F → ℕ → KeyStoreErr × KeyStore F
  unfolding compact
  remove_slot s idx =
      let (e, hal) = storage_hal_erase_key nvs s.hal Namespace.keys (idx_key_name (idx % 256)) in
      elim e [
        | StorageErr.ok ↦ compact (record s { hal = hal }) idx
        | _ ↦ (KeyStoreErr.storage, record s { hal = hal })
      ]

  unfoldable pub key_store_revoke : KeyStore F → Bytes → KeyStoreErr × KeyStore F
  unfolding find_key remove_slot
  key_store_revoke s pk = elim (find_key (authorized s) pk 0) [
    | none ↦ (KeyStoreErr.not_found, s)
    | some idx ↦ remove_slot s idx
  ]
