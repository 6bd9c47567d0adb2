-- ===== src/Common/Loop.antt =====
-- `while (1)` loops. An iteration either goes round again with a new state or leaves with a result;
-- `none` means that the fuel ran out before the loop left.
use Prim.Native.Nat.{ℕ, zero, suc, ◌<◌}
use mathlib.Core.Path.{◌≡◌, refl}
use mathlib.Core.Logic.{◌⊎◌, inl, inr}
use mathlib.Core.Option.{Option, none, some}
use native.Mathlib.Omega.{arith}

pub data Next {ℓ} (S R : Type ℓ) : Type ℓ where
  again : S → Next S R
  stop : R → Next S R

pub Next-cases {ℓ} :
    {S R : Type ℓ} (n : Next S R) → ((s : S) × (n ≡ again s)) ⊎ ((r : R) × (n ≡ stop r))
Next-cases (again s) = inl (s, refl)
Next-cases (stop r) = inr (r, refl)

module _ {ℓ} {S R : Type ℓ} where
  unfoldable pub iterate : ℕ → (S → Next S R) → S → Option R
  iterate zero body s = none
  iterate (suc fuel) body s = elim (body s) [ again t ↦ iterate fuel body t | stop r ↦ some r ]

  -- What one iteration keeps or ends with holds of the loop's result.
  pub iterate_inv {κ} :
      (P : S → Type κ) (Q : R → Type κ) (body : S → Next S R)
      → ((s t : S) → P s → body s ≡ again t → P t)
      → ((s : S) (r : R) → P s → body s ≡ stop r → Q r)
      → (fuel : ℕ) (s : S) (r : R) → P s
      → iterate fuel body s ≡ some r
      → Q r
  unfolding iterate
  iterate_inv P Q body keep leave zero s r p e = cc
  iterate_inv P Q body keep leave (suc fuel) s r p e = elim (Next-cases (body s)) [
    | inl (t, h) ↦ iterate_inv P Q body keep leave fuel t r (keep s t p h) (rw (h, iterate) at e)
    | inr (q, h) ↦ leave s r p (ground (arith, h))
  ]

  -- A measure that every further iteration lowers bounds the fuel that the loop needs.
  pub iterate_total {κ} :
      (P : S → Type κ) (measure : S → ℕ) (body : S → Next S R)
      → ((s t : S) → P s → body s ≡ again t → P t)
      → ((s t : S) → P s → body s ≡ again t → measure t < measure s)
      → (fuel : ℕ) (s : S) → P s
      → measure s < fuel
      → (r : R) × (iterate fuel body s ≡ some r)
  unfolding iterate
  iterate_total P measure body keep falls zero s p m = elim m [ ]
  iterate_total P measure body keep falls (suc fuel) s p m = elim (Next-cases (body s)) [
    | inl (t, h) ↦
        rw (h, iterate)
          (iterate_total P measure body keep falls fuel t (keep s t p h)
            (let less = falls s t p h in omega arith))
    | inr (q, h) ↦ (q, rw (h, iterate))
  ]
