-- ===== src/Storage/Hal/Calls.antt =====
-- What a successful call of components/storage/src/storage_hal.c does to the flash.
use smart_lock_firmware.Common.{
  ◌⊎◌, inl, inr, Bool-cases, ℕ, true, ◌&&◌, ◌≡◌, none, some, Bytes, bytes_eq, bytes_eq→eq,
  if◌then◌else◌, arith,
}
use smart_lock_firmware.Storage.Hal.{
  EspErr, Namespace, StorageErr, Nvs, Hal, NvsLaws, IsAtomic, same_ns, storage_hal_init,
  storage_hal_read_blob, storage_hal_write_blob, storage_hal_erase_key,
}

same_ns→eq : (a b : Namespace) → same_ns a b ≡ true → a ≡ b
same_ns→eq a b h = ground arith

module _ {F : Type 0} (nvs : Nvs F) (laws : NvsLaws nvs) where
  open laws use {contents}

  -- A blob that is read is the one stored, and a missing one is not there.
  pub storage_hal_read_blob-contents :
      (s : Hal F) (ns : Namespace) (k : Bytes) (cap : ℕ)
      → let (e, b) = storage_hal_read_blob nvs s ns k cap in
        (e ≡ StorageErr.ok → contents s.flash ns k ≡ some b)
        × (e ≡ StorageErr.not_found → contents s.flash ns k ≡ none)
  unfolding storage_hal_read_blob
  storage_hal_read_blob-contents s ns k cap =
      ground (arith, laws.get_ok ns k cap s.flash, laws.get_missing ns k cap s.flash)

  -- A write that succeeds stores the blob under its name, and nothing else changes.
  pub storage_hal_write_blob-contents :
      (s : Hal F) (ns : Namespace) (k b : Bytes)
      → (storage_hal_write_blob nvs s ns k b).0 ≡ StorageErr.ok
      → (ns' : Namespace) (k' : Bytes)
      → contents (storage_hal_write_blob nvs s ns k b).1.flash ns' k'
        ≡ (if same_ns ns ns' && bytes_eq k k' then some b else contents s.flash ns' k')
  unfolding storage_hal_write_blob
  storage_hal_write_blob-contents s ns k b h ns' k' =
      let set =
        λ (e : (nvs.set_blob ns k b s.flash).0 ≡ EspErr.ok). laws.set_ok ns k b s.flash e ns' k' in
      let done = λ (e : (nvs.commit ns (nvs.set_blob ns k b s.flash).1).0 ≡ EspErr.ok).
        laws.commit_ok ns (nvs.set_blob ns k b s.flash).1 e ns' k' in
      ground (arith, set, done)

  -- A removal that succeeds leaves nothing under the name, and nothing else changes.
  pub storage_hal_erase_key-contents :
      (s : Hal F) (ns : Namespace) (k : Bytes)
      → (storage_hal_erase_key nvs s ns k).0 ≡ StorageErr.ok
      → (ns' : Namespace) (k' : Bytes)
      → contents (storage_hal_erase_key nvs s ns k).1.flash ns' k'
        ≡ (if same_ns ns ns' && bytes_eq k k' then none else contents s.flash ns' k')
  unfolding storage_hal_erase_key
  storage_hal_erase_key-contents s ns k h ns' k' =
      let set =
        λ (e : (nvs.erase_key ns k s.flash).0 ≡ EspErr.ok). laws.erase_ok ns k s.flash e ns' k' in
      let missing = λ (e : (nvs.erase_key ns k s.flash).0 ≡ EspErr.not_found).
        (laws.erase_missing ns k s.flash e).1 ns' k' in
      let gone = λ (e : (nvs.erase_key ns k s.flash).0 ≡ EspErr.not_found).
        (laws.erase_missing ns k s.flash e).0 in
      let done = λ (e : (nvs.commit ns (nvs.erase_key ns k s.flash).1).0 ≡ EspErr.ok).
        laws.commit_ok ns (nvs.erase_key ns k s.flash).1 e ns' k' in
      ground (arith, set, missing, gone, done, same_ns→eq ns ns', bytes_eq→eq k k')

  -- A removal, whether it succeeds or not, leaves the flash as it was or removes the name only.
  pub storage_hal_erase_key-whole :
      (s : Hal F) (k : Bytes)
      → IsAtomic nvs laws
      → let s' = (storage_hal_erase_key nvs s Namespace.keys k).1 in
        ((ns' : Namespace) (k' : Bytes) → contents s'.flash ns' k' ≡ contents s.flash ns' k')
        ⊎ ((ns' : Namespace) (k' : Bytes)
            → contents s'.flash ns' k' ≡ (
                if same_ns Namespace.keys ns' && bytes_eq k k'
                then none
                else contents s.flash ns' k'))
  unfolding storage_hal_erase_key
  storage_hal_erase_key-whole s k atomic =
      let f1 = (nvs.erase_key Namespace.keys k s.flash).1 in
      elim (Bool-cases s.inited) [
        | inr down ↦ inl (λ ns' k'. ground (arith, down))
        | inl up ↦ elim (atomic.erase_whole Namespace.keys k s.flash) [
          | inl same ↦ inl (λ ns' k'.
              ground (arith, up, same ns' k', atomic.commit_whole Namespace.keys f1 ns' k'))
          | inr gone ↦ inr (λ ns' k'.
              ground (arith, up, gone ns' k', atomic.commit_whole Namespace.keys f1 ns' k'))
        ]
      ]

  -- Bringing the storage up changes nothing that it holds.
  pub storage_hal_init-contents :
      (s : Hal F) (ns : Namespace) (k : Bytes)
      → let (e, s') = storage_hal_init nvs s in
        e ≡ StorageErr.ok → contents s'.flash ns k ≡ contents s.flash ns k
  unfolding storage_hal_init
  storage_hal_init-contents s ns k =
      let f1 = (nvs.flash_init s.flash).1 in
      let f2 = (nvs.open_ns Namespace.keys f1).1 in
      let f3 = (nvs.open_ns Namespace.intent f2).1 in
      ground (
        arith,
        laws.init_keeps s.flash ns k,
        laws.open_keeps Namespace.keys f1 ns k,
        laws.open_keeps Namespace.intent f2 ns k,
        laws.open_keeps Namespace.identity f3 ns k,
      )
