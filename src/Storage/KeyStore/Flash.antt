-- ===== src/Storage/KeyStore/Flash.antt =====
-- The RAM cache of components/storage/src/key_store.c beside the flash.
use smart_lock_firmware.Common.{
  ℕ, zero, suc, ◌+◌, ◌%◌, ◌≤◌, ◌<◌, ◌≡◌, refl, sym, ap, ◌∙◌, subst, none, some, List, [], ◌∷◌, ◌++◌,
  Bytes, length, take, set, get_elem?, ltb, if◌then◌else◌, arith, length-set, take-suc,
  get_elem?-ne_none, get_elem?-set,
}
use smart_lock_firmware.Storage.Hal.{
  Namespace, StorageErr, Nvs, NvsLaws, storage_hal_init, storage_hal_read_blob,
  storage_hal_write_blob,
}
use smart_lock_firmware.Storage.Hal.Calls.{
  storage_hal_init-contents, storage_hal_read_blob-contents, storage_hal_write_blob-contents,
}
use smart_lock_firmware.Storage.KeyStore.{
  KeyStoreErr, KeyStore, key_max, idx_key_name, authorized, key_store_add, key_store_init, warm,
}
use smart_lock_firmware.Storage.KeyStore.Slots.{idx_key_name-eq, take-set_end}
use smart_lock_firmware.Storage.KeyStore.View.{IsValid}

module _ {F : Type 0} (nvs : Nvs F) (laws : NvsLaws nvs) where
  open laws use {contents}

  -- The flash holds the used slots under their names, and nothing under the names of the others.
  abbrev pub Mirrors : F → KeyStore F → Type 0
  Mirrors f s =
      (i : ℕ)
      → i < key_max
      → contents f Namespace.keys (idx_key_name i)
        ≡ (if ltb i s.count then get_elem? s.keys i else none)

  -- A key that was added is in the flash as well.
  pub key_store_add-Mirrors :
      (s : KeyStore F) (pk : Bytes)
      → IsValid s
      → Mirrors s.hal.flash s
      → let (e, s') = key_store_add nvs s pk in e ≡ KeyStoreErr.ok → Mirrors s'.hal.flash s'
  unfolding key_store_add
  key_store_add-Mirrors s pk v m h i below =
      let name : s.count < 64 → s.count % 256 ≡ s.count = λ e. omega arith in
      let stored =
        λ (e : (storage_hal_write_blob nvs s.hal Namespace.keys (idx_key_name (s.count % 256)) pk).0
            ≡ StorageErr.ok).
          storage_hal_write_blob-contents nvs laws s.hal Namespace.keys
            (idx_key_name (s.count % 256)) pk e Namespace.keys (idx_key_name i) in
      ground (
        arith,
        name,
        stored,
        m i below,
        idx_key_name-eq s.count i,
        get_elem?-set s.keys s.count i pk,
      )

  -- A blob found at slot `i` is the key of that slot, and one more key is back.
  restored_one :
      (s : KeyStore F) (keys : List Bytes) (i : ℕ) (blob : Bytes)
      → i < key_max
      → length keys ≡ key_max
      → take i keys ≡ take i s.keys
      → (if ltb i s.count then get_elem? s.keys i else none) ≡ some blob
      → (i < s.count) × (take (suc i) (set keys i blob) ≡ take (suc i) s.keys)
  restored_one s keys i blob b l t e =
      let here : get_elem? s.keys i ≡ some blob = ground arith in
      (
        ground arith,
        take-set_end keys i blob (omega arith)
            ∙ ap (λ ks. ks ++ blob ∷ []) t
            ∙ sym (take-suc s.keys i blob here),
      )

  -- No blob at slot `i` means that all keys are back.
  restored_all :
      (s : KeyStore F) (i : ℕ)
      → IsValid s
      → i < key_max
      → (if ltb i s.count then get_elem? s.keys i else none) ≡ none
      → s.count ≤ i
  restored_all s i v b e = ground (arith, get_elem?-ne_none s.keys i)

  -- The warming loop at slot `i`, where the keys before it are back.
  warm-restores :
      (n i : ℕ) (s acc : KeyStore F)
      → i + n ≡ key_max
      → acc.count ≡ i
      → length acc.keys ≡ key_max
      → IsValid s
      → i ≤ s.count
      → take i acc.keys ≡ take i s.keys
      → Mirrors acc.hal.flash s
      → (warm nvs n i acc).0 ≡ KeyStoreErr.ok
      → authorized (warm nvs n i acc).1 ≡ authorized s
  unfolding warm
  warm-restores zero i s acc e c l v b t m h =
      let full : i ≡ s.count = omega (arith, v) in
      ap (λ n. take n acc.keys) c ∙ t ∙ ap (λ n. take n s.keys) full
  warm-restores (suc n) i s acc e c l v b t m h =
      let name = idx_key_name i in
      let (r, blob) = storage_hal_read_blob nvs acc.hal Namespace.keys name 32 in
      let below : i < key_max = omega arith in
      let next : KeyStore F = record acc { keys = set acc.keys i blob; count = i + 1 } in
      let one = restored_one s acc.keys i blob below l t in
      let one_more : suc i ≡ i + 1 = omega arith in
      let back = λ (p : take (suc i) (set acc.keys i blob) ≡ take (suc i) s.keys).
        subst (λ k. take k (set acc.keys i blob) ≡ take k s.keys) one_more p in
      let sized : length next.keys ≡ key_max = length-set acc.keys i blob ∙ l in
      let all_back =
        λ (p : i ≡ s.count). ap (λ n. take n acc.keys) c ∙ t ∙ ap (λ n. take n s.keys) p in
      ground (
        arith,
        storage_hal_read_blob-contents nvs laws acc.hal Namespace.keys name 32,
        m i below,
        one,
        back,
        restored_all s i v below,
        all_back,
        warm-restores n (i + 1) s next (omega arith) refl sized v,
        m,
      )

  -- A reboot brings the authorized keys back. If the flash mirrors a store, an `init` that succeeds,
  -- from whatever is in the RAM's 64 slots, authorizes the keys of that store in their order.
  pub key_store_init-restores :
      (s boot : KeyStore F)
      → IsValid s
      → Mirrors boot.hal.flash s
      → length boot.keys ≡ key_max
      → (key_store_init nvs boot).0 ≡ KeyStoreErr.ok
      → authorized (key_store_init nvs boot).1 ≡ authorized s
  unfolding key_store_init
  key_store_init-restores s boot v m l h =
      let (e, hal) = storage_hal_init nvs boot.hal in
      let start : KeyStore F = record boot { hal = hal; count = 0 } in
      let same = λ (r : e ≡ StorageErr.ok) (i : ℕ) (b : i < key_max).
        storage_hal_init-contents nvs laws boot.hal Namespace.keys (idx_key_name i) r ∙ m i b in
      let warmed = λ (r : e ≡ StorageErr.ok) (ok : (warm nvs key_max 0 start).0 ≡ KeyStoreErr.ok).
        warm-restores key_max 0 s start refl refl l v (omega arith) refl (same r) ok in
      ground (arith, warmed)
