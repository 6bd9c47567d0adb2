-- ===== src/Storage/IntentLog/Reboot.antt =====
-- The intent of components/storage/src/intent_log.c over a reboot.
use smart_lock_firmware.Common.{
  ℕ, ◌^◌, ◌<◌, ◌≡◌, ◌≢◌, ap, ◌∙◌, Option, none, some, Bytes, ◌==◌, bytes_eq_refl, if◌then◌else◌,
  arith,
}
use smart_lock_firmware.Storage.Hal.{
  Namespace, StorageErr, Nvs, NvsLaws, storage_hal_init, storage_hal_read_blob,
  storage_hal_write_blob, storage_hal_erase_key,
}
use smart_lock_firmware.Storage.Hal.Calls.{
  storage_hal_init-contents, storage_hal_read_blob-contents, storage_hal_write_blob-contents,
  storage_hal_erase_key-contents,
}
use smart_lock_firmware.Storage.IntentLog.{
  IntentErr, IntentLog, intent_target_none, target_key, target_bytes, target_of, intent_log_init,
  intent_log_write,
}

-- A 32-bit target is read back from its bytes.
target_of-target_bytes : (t : ℕ) → t < 2 ^ 32 → target_of (target_bytes t) ≡ t
unfolding target_of target_bytes
target_of-target_bytes t h = omega arith

module _ {F : Type 0} (nvs : Nvs F) (laws : NvsLaws nvs) where
  open laws use {contents}

  -- What the flash holds of a target.
  abbrev stored_target : ℕ → Option Bytes
  stored_target t = if t == intent_target_none then none else some (target_bytes t)

  intent_log_write-stored :
      (s : IntentLog F) (t : ℕ)
      → (intent_log_write nvs s t).0 ≡ IntentErr.ok
      → contents (intent_log_write nvs s t).1.hal.flash Namespace.intent target_key
        ≡ stored_target t
  unfolding intent_log_write
  intent_log_write-stored s t h =
      let written =
        λ (e : (storage_hal_write_blob nvs s.hal Namespace.intent target_key (target_bytes t)).0
            ≡ StorageErr.ok).
          storage_hal_write_blob-contents nvs laws s.hal Namespace.intent target_key
            (target_bytes t) e Namespace.intent target_key in
      let erased =
        λ (e : (storage_hal_erase_key nvs s.hal Namespace.intent target_key).0 ≡ StorageErr.ok).
          storage_hal_erase_key-contents nvs laws s.hal Namespace.intent target_key e
            Namespace.intent target_key in
      ground (arith, written, erased, bytes_eq_refl target_key)

  intent_log_init-stored :
      (s : IntentLog F) (t : ℕ)
      → t < 2 ^ 32
      → contents s.hal.flash Namespace.intent target_key ≡ stored_target t
      → (intent_log_init nvs s).0 ≡ IntentErr.ok
      → (intent_log_init nvs s).1.target ≡ t
  unfolding intent_log_init
  intent_log_init-stored s t b c h =
      let hal = (storage_hal_init nvs s.hal).1 in
      let (r, blob) = storage_hal_read_blob nvs hal Namespace.intent target_key 4 in
      ground (
        arith,
        storage_hal_init-contents nvs laws s.hal Namespace.intent target_key,
        storage_hal_read_blob-contents nvs laws hal Namespace.intent target_key 4,
        target_of-target_bytes t b,
      )

  -- The intent that was written is the intent after a reboot: whatever the RAM then holds, an `init`
  -- over the flash that a successful write left, if it succeeds, has that target. A write that
  -- fails leaves the RAM's target as it was.
  pub intent_log-survives :
      (s boot : IntentLog F) (t : ℕ)
      → t < 2 ^ 32
      → let (e, s') = intent_log_write nvs s t in
        (e ≡ IntentErr.ok
          → boot.hal.flash ≡ s'.hal.flash
          → (intent_log_init nvs boot).0 ≡ IntentErr.ok
          → (intent_log_init nvs boot).1.target ≡ t)
        × (e ≢ IntentErr.ok → s'.target ≡ s.target)
  unfolding intent_log_write
  intent_log-survives s boot t b = (
    λ e f i.
        intent_log_init-stored boot t b
          (ap (λ g. contents g Namespace.intent target_key) f ∙ intent_log_write-stored s t e) i,
    λ e. ground (arith, e),
  )
