-- ===== src/Storage/KeyStore/Compacted.antt =====
-- The flash behind the compaction of `key_store_revoke` in components/storage/src/key_store.c.
use smart_lock_firmware.Common.{
  get_elem?-get_or, sym, ap, subst, ◌⊎◌, take, bytes_eq, ℕ, zero, suc, ◌+◌, ◌-◌, ◌%◌, ◌≤◌, ◌<◌, ◌≡◌,
  inl, inr, refl, ◌∙◌, ◌&&◌, none, some, List, [], Bytes, get_elem?, get_or, ltb, leb, ◌==◌,
  if◌then◌else◌, arith,
}
use smart_lock_firmware.Storage.Hal.{
  Namespace, StorageErr, Nvs, Hal, NvsLaws, same_ns, storage_hal_write_blob,
}
use smart_lock_firmware.Storage.Hal.Calls.{storage_hal_write_blob-contents}
use smart_lock_firmware.Storage.KeyStore.{
  KeyStore, key_max, idx_key_name, authorized, shift_down, rewrite_keys,
}
use smart_lock_firmware.Storage.KeyStore.Slots.{
  idx_key_name-eq, get_elem?-shift_down, get_elem?-shift_down_last, length-shift_down,
}
use smart_lock_firmware.Storage.KeyStore.View.{IsValid}
use smart_lock_firmware.Storage.KeyStore.Members.{mem_key, mem-take_again}
use smart_lock_firmware.Storage.KeyStore.Flash.{Mirrors}

module _ {F : Type 0} (nvs : Nvs F) (laws : NvsLaws nvs) where
  open laws use {contents}

  -- The re-writing loop from slot `i`: `n` names get the keys of the next slots.
  rewrite_keys-contents :
      (n i : ℕ) (keys : List Bytes) (hal : Hal F) (j : ℕ)
      → i + n ≤ key_max
      → j < key_max
      → (rewrite_keys nvs n i keys hal).0 ≡ StorageErr.ok
      → contents (rewrite_keys nvs n i keys hal).1.flash Namespace.keys (idx_key_name j) ≡ (
          if leb i j && ltb j (i + n)
          then some (get_or keys (j + 1) [])
          else contents hal.flash Namespace.keys (idx_key_name j))
  unfolding rewrite_keys
  rewrite_keys-contents zero i keys hal j b c h = ground arith
  rewrite_keys-contents (suc n) i keys hal j b c h =
      let name : i % 256 ≡ i = omega arith in
      let hal' =
        (storage_hal_write_blob nvs hal Namespace.keys (idx_key_name (i % 256))
          (get_or keys (i + 1) [])).1 in
      let written =
        λ (e : (storage_hal_write_blob nvs hal Namespace.keys (idx_key_name (i % 256))
              (get_or keys (i + 1) [])).0
            ≡ StorageErr.ok).
          storage_hal_write_blob-contents nvs laws hal Namespace.keys (idx_key_name (i % 256))
            (get_or keys (i + 1) []) e Namespace.keys (idx_key_name j) in
      ground (
        arith,
        name,
        written,
        idx_key_name-eq i j (omega arith) (omega arith),
        rewrite_keys-contents n (i + 1) keys hal' j (omega arith) c,
      )

  -- The flash mirrors a store that authorizes the same keys, one of them perhaps twice.
  abbrev pub Recovers : KeyStore F → Type 0
  Recovers s =
      (view : KeyStore F) × IsValid view
      × Mirrors nvs laws s.hal.flash view
      × ((q : Bytes) → mem_key (authorized view) q ≡ mem_key (authorized s) q)

  -- The flash of a store in which the name of slot `idx` was removed already.
  abbrev pub Lacks : ℕ → KeyStore F → Type 0
  Lacks idx s =
      (i : ℕ)
      → i < key_max
      → contents s.hal.flash Namespace.keys (idx_key_name i)
        ≡ (if i == idx then none else if ltb i s.count then get_elem? s.keys i else none)

  module _ (s : KeyStore F) (idx tail : ℕ) (v : IsValid s) (split : s.count ≡ idx + tail + 1)
      (m : Lacks idx s) (e : (rewrite_keys nvs tail idx s.keys s.hal).0 ≡ StorageErr.ok) where
    abbrev rewritten : Hal F
    rewritten = (rewrite_keys nvs tail idx s.keys s.hal).1

    abbrev shifted : List Bytes
    shifted = shift_down s.keys idx tail

    -- The slots of the moved keys, behind the loop.
    rewritten_slot :
        (i : ℕ)
        → i < key_max
        → contents rewritten.flash Namespace.keys (idx_key_name i) ≡ (
            if ltb i (idx + tail)
            then get_elem? shifted i
            else contents s.hal.flash Namespace.keys (idx_key_name i))
    rewritten_slot i below = ground (
      arith,
      rewrite_keys-contents tail idx s.keys s.hal i (omega (arith, v, split)) below e,
      λ (l : i < idx + tail). get_elem?-shift_down s.keys idx tail i (omega (arith, v, split)) l,
      m i below,
      split,
    )

    -- When the old last name is gone, the flash is that of the compacted cache.
    compacted_removed :
        (f : F)
        → ((ns' : Namespace) (k' : Bytes)
            → contents f ns' k' ≡ (
                if same_ns Namespace.keys ns' && bytes_eq (idx_key_name (idx + tail)) k'
                then none
                else contents rewritten.flash ns' k'))
        → (i : ℕ) → i < key_max
        → contents f Namespace.keys (idx_key_name i)
          ≡ (if ltb i (idx + tail) then get_elem? shifted i else none)
    compacted_removed f gone i below = ground (
      arith,
      gone Namespace.keys (idx_key_name i),
      idx_key_name-eq (idx + tail) i (omega (arith, v, split)) (omega arith),
      rewritten_slot i below,
      m i below,
      split,
    )

    -- When it stays, the last key is in the flash twice.
    compacted_kept :
        (f : F)
        → 1 ≤ tail
        → ((ns' : Namespace) (k' : Bytes) → contents f ns' k' ≡ contents rewritten.flash ns' k')
        → (i : ℕ) → i < key_max
        → contents f Namespace.keys (idx_key_name i)
          ≡ (if ltb i s.count then get_elem? shifted i else none)
    compacted_kept f some_tail same i below =
        let last = get_elem?-shift_down_last s.keys idx tail (omega (arith, v, split)) in
        let here : i ≡ idx + tail → get_elem? shifted i ≡ get_elem? s.keys i =
          λ at. subst (λ n. get_elem? shifted n ≡ get_elem? s.keys n) (sym at) last in
        ground (
          arith,
          same Namespace.keys (idx_key_name i),
          rewritten_slot i below,
          m i below,
          split,
          here,
        )

    shifted-IsValid :
        (hal : Hal F) (count : ℕ)
        → count ≤ s.count
        → IsValid (record { hal = hal; keys = shifted; count = count })
    shifted-IsValid hal count few = record {
      slots = length-shift_down s.keys idx tail (omega (arith, v, split)) ∙ v.slots;
      within = omega (arith, v, few);
    }

    -- The old last slot repeats the slot before it.
    repeated :
        (q : Bytes)
        → 1 ≤ tail
        → mem_key (take s.count shifted) q ≡ mem_key (take (s.count - 1) shifted) q
    repeated q some_tail =
        let n = idx + tail - 1 in
        let last = idx + tail in
        let k = get_or s.keys last [] in
        let there : get_elem? s.keys last ≡ some k =
          get_elem?-get_or s.keys last [] (omega (arith, v, split)) in
        let next : n + 1 ≡ last = omega (arith, some_tail) in
        let here : get_elem? shifted n ≡ some k = ground (
          arith,
          get_elem?-shift_down s.keys idx tail n (omega (arith, v, split))
              (omega (arith, some_tail)),
          ap (λ i. some (get_or s.keys i [])) next,
          some_tail,
        ) in
        let again : get_elem? shifted (suc n) ≡ some k =
          ap (λ i. get_elem? shifted i) {x = suc n} {y = last} (omega (arith, some_tail))
          ∙ get_elem?-shift_down_last s.keys idx tail (omega (arith, v, split))
          ∙ there in
        ap (λ i. mem_key (take i shifted) q) {x = s.count} {y = suc (suc n)}
          (omega (arith, split, some_tail))
        ∙ mem-take_again shifted n k q here again
        ∙ ap (λ i. mem_key (take i shifted) q) {x = suc n} {y = s.count - 1}
            (omega (arith, split, some_tail))

    pub shifted-Recovers :
        (hal : Hal F)
        → 1 ≤ tail
        → ((ns' : Namespace) (k' : Bytes)
            → contents hal.flash ns' k' ≡ contents rewritten.flash ns' k')
          ⊎ ((ns' : Namespace) (k' : Bytes)
              → contents hal.flash ns' k' ≡ (
                  if same_ns Namespace.keys ns' && bytes_eq (idx_key_name (idx + tail)) k'
                  then none
                  else contents rewritten.flash ns' k'))
        → Recovers (record { hal = hal; keys = shifted; count = s.count - 1 })
    shifted-Recovers hal some_tail (inl same) = (
      record { hal = hal; keys = shifted; count = s.count },
      shifted-IsValid hal s.count (omega arith),
      compacted_kept hal.flash some_tail same,
      λ q. repeated q some_tail,
    )
    shifted-Recovers hal some_tail (inr gone) =
        let used : idx + tail ≡ s.count - 1 = omega (arith, split) in
        (
          record { hal = hal; keys = shifted; count = s.count - 1 },
          shifted-IsValid hal (s.count - 1) (omega arith),
          subst
              (λ n.
                (i : ℕ)
                → i < key_max
                → contents hal.flash Namespace.keys (idx_key_name i)
                  ≡ (if ltb i n then get_elem? shifted i else none))
              used (compacted_removed hal.flash gone),
          λ q. refl,
        )

  pub last-Recovers :
      (s : KeyStore F) (idx : ℕ)
      → IsValid s
      → s.count ≡ idx + 1
      → Lacks idx s
      → Recovers (record s { count = s.count - 1 })
  last-Recovers s idx v last m = (
    record s { count = s.count - 1 },
    record { slots = v.slots; within = omega (arith, v) },
    λ i below. ground (arith, m i below, last),
    λ q. refl,
  )
