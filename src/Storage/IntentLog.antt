-- ===== src/Storage/IntentLog.antt =====
-- The actuation-intent log of components/storage/src/intent_log.c. An `intent_target_t` is a 32-bit
-- number in RAM and its four bytes, lowest first, in the flash.
pub mod Reboot
use smart_lock_firmware.Common.{
  ℕ, ◌+◌, ◌*◌, ◌/◌, ◌%◌, Bool, List, [], ◌∷◌, ◌++◌, Bytes, ◌==◌, if◌then◌else◌, length, get_or,
  drop,
}
use smart_lock_firmware.Storage.Hal.{
  Namespace, StorageErr, Nvs, Hal, storage_hal_init, storage_hal_read_blob, storage_hal_write_blob,
  storage_hal_erase_key,
}

pub data IntentErr : Type 0 where
  ok storage : IntentErr

abbrev pub intent_target_none : ℕ
intent_target_none = 0

abbrev pub intent_target_locked : ℕ
intent_target_locked = 1

abbrev pub intent_target_unlocked : ℕ
intent_target_unlocked = 2

pub record IntentLog (F : Type 0) : Type 0 where
  pub hal : Hal F
  pub target : ℕ

-- The name "target" of the blob.
abbrev pub target_key : Bytes
target_key = b't' ∷ b'a' ∷ b'r' ∷ b'g' ∷ b'e' ∷ b't' ∷ []

unfoldable pub target_bytes : ℕ → Bytes
target_bytes t = (t % 256) ∷ ((t / 256) % 256) ∷ ((t / 65536) % 256) ∷ ((t / 16777216) % 256) ∷ []

unfoldable pub target_of : Bytes → ℕ
target_of b = get_or b 0 0 + 256 * get_or b 1 0 + 65536 * get_or b 2 0 + 16777216 * get_or b 3 0

module _ {F : Type 0} (nvs : Nvs F) where
  warm_target : IntentLog F → StorageErr → Bytes → IntentErr × IntentLog F
  unfolding target_bytes target_of
  warm_target s StorageErr.not_found blob = (IntentErr.ok, record s { target = intent_target_none })
  warm_target s StorageErr.ok blob =
      let read : IntentLog F = record s {
        target = target_of (blob ++ drop (length blob) (target_bytes s.target));
      } in
      if length blob == 4 then (IntentErr.ok, read) else (IntentErr.storage, read)
  warm_target s _ blob = (IntentErr.storage, s)

  unfoldable pub intent_log_init : IntentLog F → IntentErr × IntentLog F
  unfolding warm_target
  intent_log_init s =
      let (e, hal) = storage_hal_init nvs s.hal in
      elim e [
        | StorageErr.ok ↦
            let (r, blob) = storage_hal_read_blob nvs hal Namespace.intent target_key 4 in
            warm_target (record s { hal = hal }) r blob
        | _ ↦ (IntentErr.storage, record s { hal = hal })
      ]

  unfoldable pub intent_log_write : IntentLog F → ℕ → IntentErr × IntentLog F
  unfolding target_bytes
  intent_log_write s target =
      let (e, hal) =
        if target == intent_target_none
        then storage_hal_erase_key nvs s.hal Namespace.intent target_key
        else storage_hal_write_blob nvs s.hal Namespace.intent target_key (target_bytes target) in
      elim e [
        | StorageErr.ok ↦ (IntentErr.ok, record s { hal = hal; target = target })
        | _ ↦ (IntentErr.storage, record s { hal = hal })
      ]
