-- ===== src/Common/Bits.antt =====
-- `|` and `^` of two bytes, by a table of all pairs.
use Prim.Native.Nat.{ℕ, zero, suc, ◌<◌, bit_or, bit_xor}
use mathlib.Core.Path.{◌≡◌, refl}
use mathlib.Core.Bool.{Bool, true, false, not, ◌&&◌}
use native.Mathlib.Omega.{arith}
use smart_lock_firmware.Common.Tests.{◌==◌, ltb, if◌then◌else◌}

-- The test holds of `x` with each number below `width`.
row_holds : (ℕ → ℕ → Bool) → ℕ → ℕ → Bool
row_holds test x zero = true
row_holds test x (suc width) = if test x width then row_holds test x width else false

-- The test holds of each pair in a table of that height and width.
table_holds : (ℕ → ℕ → Bool) → ℕ → ℕ → Bool
unfolding row_holds
table_holds test zero width = true
table_holds test (suc height) width =
    if row_holds test height width then table_holds test height width else false

row_entry :
    (test : ℕ → ℕ → Bool) (x width y : ℕ)
    → row_holds test x width ≡ true
    → y < width
    → test x y ≡ true
unfolding row_holds
row_entry test x zero y h b = elim b [ ]
row_entry test x (suc width) y h b = ground (arith, row_entry test x width y)

table_entry :
    (test : ℕ → ℕ → Bool) (height width x y : ℕ)
    → table_holds test height width ≡ true
    → x < height
    → y < width
    → test x y ≡ true
unfolding table_holds
table_entry test zero width x y h a b = elim a [ ]
table_entry test (suc height) width x y h a b =
    ground (arith, table_entry test height width x y, row_entry test height width y)

same : Bool → Bool → Bool
same true b = b
same false b = not b

or_test : ℕ → ℕ → Bool
unfolding same
or_test x y = same (bit_or x y == 0) (x == 0 && y == 0) && ltb (bit_or x y) 256

or_table : table_holds or_test 256 256 ≡ true
unfolding table_holds or_test
or_table = refl

xor_test : ℕ → ℕ → Bool
unfolding same
xor_test x y = same (bit_xor x y == 0) (x == y) && ltb (bit_xor x y) 256

xor_table : table_holds xor_test 256 256 ≡ true
unfolding table_holds xor_test
xor_table = refl

read_test : (a b : Bool) (n : ℕ) → (same a b && ltb n 256) ≡ true → (a ≡ b) × (n < 256)
unfolding same
read_test a b n h = ground arith

-- `|` of two bytes is a byte, and is 0 exactly when both are.
pub bit_or_byte :
    (x y : ℕ) → x < 256 → y < 256 → ((bit_or x y == 0) ≡ (x == 0 && y == 0)) × (bit_or x y < 256)
unfolding or_test
bit_or_byte x y a b = read_test _ _ _ (table_entry or_test 256 256 x y or_table a b)

-- `^` of two bytes is a byte, and is 0 exactly when they are equal.
pub bit_xor_byte :
    (x y : ℕ) → x < 256 → y < 256 → ((bit_xor x y == 0) ≡ (x == y)) × (bit_xor x y < 256)
unfolding xor_test
bit_xor_byte x y a b = read_test _ _ _ (table_entry xor_test 256 256 x y xor_table a b)
