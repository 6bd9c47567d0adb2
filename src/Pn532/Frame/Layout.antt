-- ===== src/Pn532/Frame/Layout.antt =====
-- Reads of a buffer at offsets past a prefix, and the sums over them.
use smart_lock_firmware.Common.{
  ℕ, zero, suc, ◌+◌, ◌%◌, ◌≤◌, ◌<◌, ◌≡◌, refl, ap, [], ◌∷◌, ◌++◌, Bytes, length, get_or, take, drop,
  arith,
}
use smart_lock_firmware.Pn532.Frame.{add_bytes, sum_range, negate}

pub get_or-append_at :
    (n i : ℕ) (pre xs : Bytes) → length pre ≡ n → get_or (pre ++ xs) (n + i) 0 ≡ get_or xs i 0
get_or-append_at zero i [] xs e = ground arith
get_or-append_at zero i (x ∷ pre) xs e = absurd (omega arith)
get_or-append_at (suc n) i [] xs e = absurd (omega arith)
get_or-append_at (suc n) i (x ∷ pre) xs e = ground (arith, get_or-append_at n i pre xs)

pub get_or-append_here :
    (n : ℕ) (pre xs : Bytes) → length pre ≡ n → get_or (pre ++ xs) n 0 ≡ get_or xs 0 0
get_or-append_here n pre xs e = ground (arith, get_or-append_at n 0 pre xs)

pub drop-cons : (xs : Bytes) (n : ℕ) → n < length xs → drop n xs ≡ get_or xs n 0 ∷ drop (suc n) xs
drop-cons [] n h = elim h [ ]
drop-cons (x ∷ xs) zero h = refl
drop-cons (x ∷ xs) (suc n) h = drop-cons xs n (omega arith)

pub take-append-drop : (n : ℕ) (xs : Bytes) → take n xs ++ drop n xs ≡ xs
take-append-drop zero xs = refl
take-append-drop (suc n) [] = refl
take-append-drop (suc n) (x ∷ xs) = ap (◌∷◌ x) (take-append-drop n xs)

-- The loop over a buffer adds the bytes that stand there.
pub sum_range-add_bytes :
    (buf : Bytes) (off n sum : ℕ)
    → off + n ≤ length buf
    → sum_range buf off n sum ≡ add_bytes sum (take n (drop off buf))
unfolding sum_range add_bytes
sum_range-add_bytes buf off zero sum h = refl
sum_range-add_bytes buf off (suc n) sum h =
    rw (drop-cons buf off (omega arith))
      (sum_range-add_bytes buf (suc off) n ((sum + get_or buf off 0) % 256) (omega arith))

pub add_bytes-append :
    (sum : ℕ) (xs ys : Bytes) → add_bytes sum (xs ++ ys) ≡ add_bytes (add_bytes sum xs) ys
unfolding add_bytes
add_bytes-append sum [] ys = refl
add_bytes-append sum (x ∷ xs) ys = add_bytes-append ((sum + x) % 256) xs ys

-- Two sums that differ stay different as the same bytes are added.
pub add_bytes-injective :
    (a b : ℕ) (xs : Bytes) → a < 256 → b < 256 → add_bytes a xs ≡ add_bytes b xs → a ≡ b
unfolding add_bytes
add_bytes-injective a b [] p q e = e
add_bytes-injective a b (x ∷ xs) p q e =
    omega
      (arith, add_bytes-injective ((a + x) % 256) ((b + x) % 256) xs (omega arith) (omega arith) e)

pub add_bytes-lt : (sum : ℕ) (xs : Bytes) → sum < 256 → add_bytes sum xs < 256
unfolding add_bytes
add_bytes-lt sum [] h = h
add_bytes-lt sum (x ∷ xs) h = add_bytes-lt ((sum + x) % 256) xs (omega arith)

pub negate-sum : (x : ℕ) → (x + negate x) % 256 ≡ 0
unfolding negate
negate-sum x = omega arith

pub negate_unique : (x y : ℕ) → x < 256 → y < 256 → (x + negate y) % 256 ≡ 0 → x ≡ y
unfolding negate
negate_unique x y p q h = omega arith
