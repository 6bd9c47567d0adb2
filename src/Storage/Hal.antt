-- ===== src/Storage/Hal.antt =====
-- The NVS backend of components/storage/src/storage_hal.c, over the flash library of ESP-IDF.
pub mod Calls
use smart_lock_firmware.Common.{
  ◌⊎◌, ℕ, Bool, true, false, not, ◌&&◌, ◌||◌, ◌≡◌, Option, none, some, [], Bytes, ◌==◌, bytes_eq,
  if◌then◌else◌, length,
}

pub data EspErr : Type 0 where
  ok no_free_pages not_found not_enough_space failed : EspErr

-- The three namespaces of the source, and any other name.
pub data Namespace : Type 0 where
  keys intent identity other : Namespace

pub data StorageErr : Type 0 where
  ok not_found io full : StorageErr

-- The calls of the NVS library over a flash `F`. A read does not change it.
pub record Nvs (F : Type 0) : Type 0 where
  pub flash_init : F → EspErr × F
  pub open_ns : Namespace → F → EspErr × F
  pub close_ns : Namespace → F → F
  pub get_blob : Namespace → Bytes → ℕ → F → EspErr × Bytes
  pub set_blob : Namespace → Bytes → Bytes → F → EspErr × F
  pub erase_key : Namespace → Bytes → F → EspErr × F
  pub commit : Namespace → F → EspErr × F

pub record Hal (F : Type 0) : Type 0 where
  pub inited : Bool
  pub flash : F

-- `ns_to_handle`: the handle of a namespace that was opened.
unfoldable pub ns_to_handle : Namespace → Option Namespace
ns_to_handle Namespace.other = none
ns_to_handle ns = some ns

module _ {F : Type 0} (nvs : Nvs F) where
  open_identity : F → StorageErr × Hal F
  open_identity f =
      let (e, f1) = nvs.open_ns Namespace.identity f in
      elim e [
        | EspErr.ok ↦ (StorageErr.ok, record { inited = true; flash = f1 })
        | _ ↦ (
          StorageErr.io,
          record {
            inited = false;
            flash = nvs.close_ns Namespace.intent (nvs.close_ns Namespace.keys f1);
          },
        )
      ]

  open_intent : F → StorageErr × Hal F
  unfolding open_identity
  open_intent f =
      let (e, f1) = nvs.open_ns Namespace.intent f in
      elim e [
        | EspErr.ok ↦ open_identity f1
        | _ ↦ (StorageErr.io, record { inited = false; flash = nvs.close_ns Namespace.keys f1 })
      ]

  open_keys : F → StorageErr × Hal F
  unfolding open_intent
  open_keys f =
      let (e, f1) = nvs.open_ns Namespace.keys f in
      elim e [
        | EspErr.ok ↦ open_intent f1
        | _ ↦ (StorageErr.io, record { inited = false; flash = f1 })
      ]

  unfoldable pub storage_hal_init : Hal F → StorageErr × Hal F
  unfolding open_keys
  storage_hal_init s =
      let (e, f1) = nvs.flash_init s.flash in
      let opened : StorageErr × Hal F = (elim e [
        | EspErr.ok ↦ open_keys f1
        | EspErr.no_free_pages ↦ open_keys f1
        | _ ↦ (StorageErr.io, record { inited = false; flash = f1 })
      ]) in
      if s.inited then (StorageErr.ok, s) else opened

  abbrev read_err : EspErr → StorageErr
  read_err EspErr.ok = StorageErr.ok
  read_err EspErr.not_found = StorageErr.not_found
  read_err _ = StorageErr.io

  -- The error and the bytes read; `len` is the size of the caller's buffer.
  unfoldable pub storage_hal_read_blob : Hal F → Namespace → Bytes → ℕ → StorageErr × Bytes
  unfolding ns_to_handle
  storage_hal_read_blob s ns key len = elim (ns_to_handle ns) [
    | none ↦ (StorageErr.io, [])
    | some h ↦
        let (e, out) = nvs.get_blob h key len s.flash in
        if not s.inited || len == 0 then (StorageErr.io, []) else (read_err e, out)
  ]

  commit_write : Namespace → Hal F → StorageErr × Hal F
  commit_write ns s =
      let (e, f1) = nvs.commit ns s.flash in
      elim e [
        | EspErr.ok ↦ (StorageErr.ok, record s { flash = f1 })
        | _ ↦ (StorageErr.io, record s { flash = f1 })
      ]

  unfoldable pub storage_hal_write_blob : Hal F → Namespace → Bytes → Bytes → StorageErr × Hal F
  unfolding ns_to_handle commit_write
  storage_hal_write_blob s ns key blob =
      let written : StorageErr × Hal F = (elim (ns_to_handle ns) [
        | none ↦ (StorageErr.io, s)
        | some h ↦
            let (e, f1) = nvs.set_blob h key blob s.flash in
            elim e [
              | EspErr.ok ↦ commit_write h (record s { flash = f1 })
              | EspErr.not_enough_space ↦ (StorageErr.full, record s { flash = f1 })
              | _ ↦ (StorageErr.io, record s { flash = f1 })
            ]
      ]) in
      if not s.inited || length blob == 0 then (StorageErr.io, s) else written

  unfoldable pub storage_hal_erase_key : Hal F → Namespace → Bytes → StorageErr × Hal F
  unfolding ns_to_handle commit_write
  storage_hal_erase_key s ns key =
      let erased : StorageErr × Hal F = (elim (ns_to_handle ns) [
        | none ↦ (StorageErr.io, s)
        | some h ↦
            let (e, f1) = nvs.erase_key h key s.flash in
            elim e [
              | EspErr.ok ↦ commit_write h (record s { flash = f1 })
              | EspErr.not_found ↦ commit_write h (record s { flash = f1 })
              | _ ↦ (StorageErr.io, record s { flash = f1 })
            ]
      ]) in
      if not s.inited then (StorageErr.io, s) else erased

abbrev pub same_ns : Namespace → Namespace → Bool
same_ns Namespace.keys Namespace.keys = true
same_ns Namespace.intent Namespace.intent = true
same_ns Namespace.identity Namespace.identity = true
same_ns Namespace.other Namespace.other = true
same_ns _ _ = false

-- What the NVS documentation promises of calls that report success, with `contents` what the flash
-- holds under a name. Nothing is assumed here of a call that fails.
pub record NvsLaws {F : Type 0} (nvs : Nvs F) : Type 0 where
  pub contents : F → Namespace → Bytes → Option Bytes
  pub get_ok :
      (ns : Namespace) (k : Bytes) (cap : ℕ) (f : F)
      → (nvs.get_blob ns k cap f).0 ≡ EspErr.ok
      → contents f ns k ≡ some (nvs.get_blob ns k cap f).1
  pub get_missing :
      (ns : Namespace) (k : Bytes) (cap : ℕ) (f : F)
      → (nvs.get_blob ns k cap f).0 ≡ EspErr.not_found
      → contents f ns k ≡ none
  pub set_ok :
      (ns : Namespace) (k b : Bytes) (f : F)
      → (nvs.set_blob ns k b f).0 ≡ EspErr.ok
      → (ns' : Namespace) (k' : Bytes)
      → contents (nvs.set_blob ns k b f).1 ns' k'
        ≡ (if same_ns ns ns' && bytes_eq k k' then some b else contents f ns' k')
  pub erase_ok :
      (ns : Namespace) (k : Bytes) (f : F)
      → (nvs.erase_key ns k f).0 ≡ EspErr.ok
      → (ns' : Namespace) (k' : Bytes)
      → contents (nvs.erase_key ns k f).1 ns' k'
        ≡ (if same_ns ns ns' && bytes_eq k k' then none else contents f ns' k')
  pub erase_missing :
      (ns : Namespace) (k : Bytes) (f : F)
      → (nvs.erase_key ns k f).0 ≡ EspErr.not_found
      → (contents f ns k ≡ none)
        × ((ns' : Namespace) (k' : Bytes)
            → contents (nvs.erase_key ns k f).1 ns' k' ≡ contents f ns' k')
  pub commit_ok :
      (ns : Namespace) (f : F)
      → (nvs.commit ns f).0 ≡ EspErr.ok
      → (ns' : Namespace) (k' : Bytes) → contents (nvs.commit ns f).1 ns' k' ≡ contents f ns' k'
  pub init_keeps :
      (f : F) (ns : Namespace) (k : Bytes) → contents (nvs.flash_init f).1 ns k ≡ contents f ns k
  pub open_keeps :
      (n : Namespace) (f : F) (ns : Namespace) (k : Bytes)
      → contents (nvs.open_ns n f).1 ns k ≡ contents f ns k

-- What the NVS documentation promises of its resistance to failures, where a removal or a commit need
-- not succeed: only the pair that is being removed can be lost, and values that were set are read back
-- before a commit as after it.
pub record IsAtomic {F : Type 0} (nvs : Nvs F) (laws : NvsLaws nvs) : Type 0 where
  pub erase_whole :
      (ns : Namespace) (k : Bytes) (f : F)
      → ((ns' : Namespace) (k' : Bytes)
          → laws.contents (nvs.erase_key ns k f).1 ns' k' ≡ laws.contents f ns' k')
        ⊎ ((ns' : Namespace) (k' : Bytes)
            → laws.contents (nvs.erase_key ns k f).1 ns' k'
              ≡ (if same_ns ns ns' && bytes_eq k k' then none else laws.contents f ns' k'))
  pub commit_whole :
      (ns : Namespace) (f : F) (ns' : Namespace) (k' : Bytes)
      → laws.contents (nvs.commit ns f).1 ns' k' ≡ laws.contents f ns' k'
