-- ===== src/Storage/KeyStore/Slots.antt =====
-- The slot arithmetic of components/storage/src/key_store.c on lists.
use mathlib.Core.List.{append_assoc}
use smart_lock_firmware.Common.{
  sym, ◌∙◌, get_elem?, get_or, get_elem?-take, get_elem?-get_or, ltb, ℕ, zero, suc, ◌+◌, ◌<◌, ◌≡◌,
  refl, ap, inl, inr, some, List, [], ◌∷◌, ◌++◌, Bytes, bytes_eq, ◌==◌, if◌then◌else◌, length, set,
  take, drop, length-append, length-take, length-drop, take-append_at, arith, Bool-cases,
}
use smart_lock_firmware.Storage.KeyStore.{find_key, shift_down, idx_key_name}

-- The list without its first copy of `pk`.
unfoldable pub remove_first : Bytes → List Bytes → List Bytes
remove_first pk [] = []
remove_first pk (x ∷ xs) = if bytes_eq x pk then xs else x ∷ remove_first pk xs

-- The list without the entry at an index.
abbrev pub remove_at : ℕ → List Bytes → List Bytes
remove_at i [] = []
remove_at zero (x ∷ xs) = xs
remove_at (suc i) (x ∷ xs) = x ∷ remove_at i xs

-- What is found is the slot that `remove_first` takes out.
pub find_key-found :
    (xs : List Bytes) (pk : Bytes) (i k : ℕ)
    → find_key xs pk i ≡ some k
    → (j : ℕ) × (k ≡ i + j) × (j < length xs) × (remove_at j xs ≡ remove_first pk xs)
unfolding find_key remove_first
find_key-found [] pk i k h = cc
find_key-found (x ∷ xs) pk i k h = elim (Bool-cases (bytes_eq x pk)) [
  | inl e ↦ (0, ground (arith, e), omega arith, ground (arith, e))
  | inr e ↦
      let (j, at, below, same) = find_key-found xs pk (i + 1) k (ground (arith, e)) in
      (suc j, omega arith, omega arith, ground (arith, e, same))
]

take_all_but :
    (keys rest : List Bytes) (idx tail n : ℕ)
    → n ≡ idx + tail
    → n < length keys
    → take n (take idx keys ++ (take tail (drop (suc idx) keys) ++ rest))
      ≡ remove_at idx (take (suc n) keys)
take_all_but [] rest idx tail n e h = absurd (omega arith)
take_all_but (k ∷ ks) rest zero tail n e h =
    let same : tail ≡ n = omega arith in
    rw same (take-append_at n (take n ks) rest (omega (arith, length-take n ks)))
take_all_but (k ∷ ks) rest (suc idx) tail zero e h = absurd (omega arith)
take_all_but (k ∷ ks) rest (suc idx) tail (suc n) e h =
    ap (◌∷◌ k) (take_all_but ks rest idx tail n (omega arith) (omega arith))

-- Compaction takes the slot out of the used part, of `c` slots.
pub take-shift_down :
    (keys : List Bytes) (idx tail n c : ℕ)
    → n ≡ idx + tail
    → c ≡ suc n
    → n < length keys
    → take n (shift_down keys idx tail) ≡ remove_at idx (take c keys)
unfolding shift_down
take-shift_down keys idx tail n c e f h =
    let next : idx + 1 ≡ suc idx = omega arith in rw (f, next) (take_all_but keys _ idx tail n e h)

-- So does a smaller count, where the slot is the last one.
pub take-last :
    (keys : List Bytes) (n c : ℕ)
    → c ≡ suc n
    → n < length keys
    → take n keys ≡ remove_at n (take c keys)
take-last [] n c e h = absurd (omega arith)
take-last (k ∷ ks) zero c e h = rw e refl
take-last (k ∷ ks) (suc n) c e h = rw e (ap (◌∷◌ k) (take-last ks n (suc n) refl (omega arith)))

-- A key written to the first free slot is the new last key.
pub take-set_end :
    (keys : List Bytes) (n : ℕ) (pk : Bytes)
    → n < length keys
    → take (suc n) (set keys n pk) ≡ take n keys ++ pk ∷ []
take-set_end [] n pk h = absurd (omega arith)
take-set_end (k ∷ ks) zero pk h = refl
take-set_end (k ∷ ks) (suc n) pk h = ap (◌∷◌ k) (take-set_end ks n pk (omega arith))

pub length-shift_down :
    (keys : List Bytes) (idx tail : ℕ)
    → idx + tail < length keys
    → length (shift_down keys idx tail) ≡ length keys
unfolding shift_down
length-shift_down keys idx tail h = omega (
  arith,
  length-append (take idx keys) (take tail (drop (idx + 1) keys) ++ drop (idx + tail) keys),
  length-append (take tail (drop (idx + 1) keys)) (drop (idx + tail) keys),
  length-take idx keys,
  length-take tail (drop (idx + 1) keys),
  length-drop (idx + 1) keys,
  length-drop (idx + tail) keys,
)

-- The names of two slots are the same only for one slot.
pub idx_key_name-eq :
    (i j : ℕ) → i < 100 → j < 100 → bytes_eq (idx_key_name i) (idx_key_name j) ≡ (i == j)
unfolding idx_key_name bytes_eq
idx_key_name-eq i j hi hj = ground arith

get_elem?-remove_at :
    (xs : List Bytes) (k i : ℕ)
    → get_elem? (remove_at k xs) i ≡ (if ltb i k then get_elem? xs i else get_elem? xs (suc i))
get_elem?-remove_at [] k i = ground arith
get_elem?-remove_at (x ∷ xs) zero i = ground arith
get_elem?-remove_at (x ∷ xs) (suc k) zero = ground arith
get_elem?-remove_at (x ∷ xs) (suc k) (suc i) = ground (arith, get_elem?-remove_at xs k i)

-- The compacted cache, slot by slot.
pub get_elem?-shift_down :
    (keys : List Bytes) (idx tail i : ℕ)
    → idx + tail < length keys
    → i < idx + tail
    → get_elem? (shift_down keys idx tail) i
      ≡ (if ltb i idx then get_elem? keys i else some (get_or keys (i + 1) []))
get_elem?-shift_down keys idx tail i l h =
    let n = idx + tail in
    let c = suc n in
    let moved : get_elem? (shift_down keys idx tail) i ≡ get_elem? (remove_at idx (take c keys)) i =
      sym (get_elem?-take (shift_down keys idx tail) n i h)
      ∙ ap (λ ks. get_elem? ks i)
          (take-shift_down keys idx tail n c (omega arith) (omega arith) (omega arith)) in
    let next : suc i ≡ i + 1 = omega arith in
    ground (
      arith,
      moved,
      get_elem?-remove_at (take c keys) idx i,
      get_elem?-take keys c i (omega arith),
      get_elem?-take keys c (suc i) (omega arith),
      get_elem?-get_or keys (i + 1) [] (omega arith),
      next,
    )

get_elem?-append_at :
    (xs ys : List Bytes) (n : ℕ) → length xs ≡ n → get_elem? (xs ++ ys) n ≡ get_elem? ys 0
get_elem?-append_at [] ys zero e = refl
get_elem?-append_at [] ys (suc n) e = absurd (omega arith)
get_elem?-append_at (x ∷ xs) ys zero e = absurd (omega arith)
get_elem?-append_at (x ∷ xs) ys (suc n) e = get_elem?-append_at xs ys n (omega arith)

get_elem?-drop : (n : ℕ) (xs : List Bytes) → get_elem? (drop n xs) 0 ≡ get_elem? xs n
get_elem?-drop zero xs = refl
get_elem?-drop (suc n) [] = refl
get_elem?-drop (suc n) (x ∷ xs) = get_elem?-drop n xs

-- Compaction leaves the old last slot as it was.
pub get_elem?-shift_down_last :
    (keys : List Bytes) (idx tail : ℕ)
    → idx + tail < length keys
    → get_elem? (shift_down keys idx tail) (idx + tail) ≡ get_elem? keys (idx + tail)
unfolding shift_down
get_elem?-shift_down_last keys idx tail h =
    let front = take idx keys in
    let moved = take tail (drop (idx + 1) keys) in
    let kept = drop (idx + tail) keys in
    let sized : length (front ++ moved) ≡ idx + tail =
      (omega (
        arith,
        length-append front moved,
        length-take idx keys,
        length-take tail (drop (idx + 1) keys),
        length-drop (idx + 1) keys,
      )) in
    ap (λ (xs : List Bytes). get_elem? xs (idx + tail)) (sym (append_assoc front moved kept))
    ∙ get_elem?-append_at (front ++ moved) kept (idx + tail) sized
    ∙ get_elem?-drop (idx + tail) keys
