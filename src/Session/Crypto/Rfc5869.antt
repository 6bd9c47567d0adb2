-- ===== src/Session/Crypto/Rfc5869.antt =====
-- HKDF of components/session/src/session_crypto.c against RFC 5869.
use smart_lock_firmware.Common.{
  ℕ, zero, suc, ◌+◌, ◌-◌, ◌*◌, ◌/◌, ◌%◌, ◌≤◌, ◌<◌, ◌≡◌, refl, sym, subst, ap, ◌∙◌, some, [], ◌∷◌,
  ◌++◌, Bytes, inl, inr, length, take, arith, leb, ltb, min, false, Bool-cases, length-append,
  length-take,
}
use mathlib.Core.List.{append_assoc, append-nil}
use smart_lock_firmware.Session.Crypto.{Primitives, hkdf_expand, session_crypto_hkdf_sha256}

-- `n` blocks T(i+1), T(i+2), ... behind T(i) = `t`.
abbrev pub blocks : (Bytes → Bytes → Bytes) → Bytes → Bytes → ℕ → Bytes → ℕ → Bytes
blocks hmac prk info zero t i = []
blocks hmac prk info (suc n) t i =
    let next = hmac prk (t ++ info ++ (i + 1) ∷ []) in next ++ blocks hmac prk info n next (i + 1)

-- RFC 5869 with a hash of 32 bytes: OKM is the first `len` bytes of T(1), ..., T(N) with
-- N = ceil(len / 32), where T(0) is empty and PRK is HMAC(salt, IKM).
abbrev pub rfc5869 : (Bytes → Bytes → Bytes) → Bytes → Bytes → Bytes → ℕ → Bytes
rfc5869 hmac salt ikm info len = take len (blocks hmac (hmac salt ikm) info ((len + 31) / 32) [] 0)

take_none : (n : ℕ) (xs : Bytes) → n ≡ 0 → take n xs ≡ []
take_none n xs e = ap (λ k. take k xs) e

take-append :
    (n m : ℕ) (xs ys : Bytes) → m ≡ n - length xs → take n (xs ++ ys) ≡ take n xs ++ take m ys
take-append zero m xs ys e = sym (take_none m ys (omega (arith, e)))
take-append (suc n) m [] ys e = ap (λ k. take k ys) {x = suc n} (omega (arith, e))
take-append (suc n) m (x ∷ xs) ys e = ap (◌∷◌ x) (take-append n m xs ys (omega (arith, e)))

module _ (prim : Primitives) (hmac : Bytes → Bytes → Bytes)
    (hashes : (key m : Bytes) → prim.md_hmac key m ≡ some (hmac key m))
    (hash_len : (key m : Bytes) → length (hmac key m) ≡ 32) (prk info : Bytes) (out_len : ℕ)
    (small : length info ≤ 256) where
  expand_block :
      (fuel n i : ℕ) (t out : Bytes)
      → length out ≤ out_len
      → out_len ≤ length out + 32 * n
      → n + i ≤ 255
      → out_len < length out + suc fuel
      → leb out_len (length out) ≡ false
      → ((m : ℕ) (u rest : Bytes)
          → length rest ≤ out_len
          → out_len ≤ length rest + 32 * m
          → m + (i + 1) ≤ 255
          → out_len < length rest + fuel
          → hkdf_expand prim fuel prk info out_len u (i + 1) rest
            ≡ some (rest ++ take (out_len - length rest) (blocks hmac prk info m u (i + 1))))
      → hkdf_expand prim (suc fuel) prk info out_len t i out
        ≡ some (out ++ take (out_len - length out) (blocks hmac prk info n t i))
  unfolding hkdf_expand
  expand_block fuel zero i t out most room count enough more later = absurd (ground arith)
  expand_block fuel (suc n) i t out most room count enough more later =
      let next = hmac prk (t ++ info ++ (i + 1) ∷ []) in
      let k = out_len - length out in
      let out' = out ++ take k next in
      let rest = blocks hmac prk info n next (i + 1) in
      let grown : length out' ≡ length out + min k 32 = omega (
        arith,
        length-append out (take k next),
        length-take k next,
        hash_len prk (t ++ info ++ (i + 1) ∷ []),
      ) in
      let left : length out < out_len = (ground (arith, more)) in
      let fits : ltb 256 (length info) ≡ false = (ground (arith, small)) in
      let counts : (i + 1) % 256 ≡ i + 1 = omega (arith, count) in
      let hashed : ℕ → Bytes = λ c. hmac prk (t ++ info ++ c ∷ []) in
      let step : hkdf_expand prim (suc fuel) prk info out_len t i out
          ≡ hkdf_expand prim fuel prk info out_len next (i + 1) out' =
        subst
          (λ c.
            hkdf_expand prim (suc fuel) prk info out_len t i out
            ≡ hkdf_expand prim fuel prk info out_len (hashed c) c (out ++ take k (hashed c)))
          counts
          (rw (more, fits, hashes prk (t ++ info ++ ((i + 1) % 256) ∷ []), hkdf_expand) refl) in
      step
      ∙ later n next out' (omega (arith, grown, left)) (omega (arith, grown, room, left))
          (omega (arith, count)) (omega (arith, grown, left, enough))
      ∙ ap some (
          append_assoc out (take k next) (take (out_len - length out') rest)
          ∙ ap (λ (xs : Bytes). out ++ xs)
              (sym (
                take-append k (out_len - length out') next rest
                  (omega (arith, grown, left, hash_len prk (t ++ info ++ (i + 1) ∷ []))))))

  expand_blocks :
      (fuel n i : ℕ) (t out : Bytes)
      → length out ≤ out_len
      → out_len ≤ length out + 32 * n
      → n + i ≤ 255
      → out_len < length out + fuel
      → hkdf_expand prim fuel prk info out_len t i out
        ≡ some (out ++ take (out_len - length out) (blocks hmac prk info n t i))
  unfolding hkdf_expand
  expand_blocks zero n i t out most room count enough = absurd (omega arith)
  expand_blocks (suc fuel) n i t out most room count enough =
      elim (Bool-cases (leb out_len (length out))) [
        | inl done ↦
            let none_left : out_len - length out ≡ 0 = (ground (arith, done, most)) in
            rw
              (
                done,
                take_none (out_len - length out) (blocks hmac prk info n t i) none_left,
                append-nil out,
                hkdf_expand,
              )
              refl
        | inr more ↦
            expand_block fuel n i t out most room count enough more
              (λ m u rest. expand_blocks fuel m (i + 1) u rest)
      ]

-- With an HMAC that does not fail and gives 32 bytes, an `info` of at most 256 bytes and 1 to 8160 bytes
-- of output, the function gives the output keying material of RFC 5869; its counter byte does not wrap.
pub session_crypto_hkdf_sha256-rfc5869 :
    (prim : Primitives) (hmac : Bytes → Bytes → Bytes) (salt ikm info : Bytes) (out_len : ℕ)
    → ((key m : Bytes) → prim.md_hmac key m ≡ some (hmac key m))
    → ((key m : Bytes) → length (hmac key m) ≡ 32)
    → length info ≤ 256
    → 1 ≤ out_len
    → out_len ≤ 255 * 32
    → session_crypto_hkdf_sha256 prim salt ikm info out_len
      ≡ some (rfc5869 hmac salt ikm info out_len)
unfolding session_crypto_hkdf_sha256
session_crypto_hkdf_sha256-rfc5869 prim hmac salt ikm info out_len hashes hash_len small some_out
      most =
    ground (
      arith,
      hashes salt ikm,
      expand_blocks prim hmac hashes hash_len (hmac salt ikm) info out_len small (suc out_len)
          ((out_len + 31) / 32) 0 [] [] (omega arith) (omega (arith, most)) (omega (arith, most))
          (omega arith),
    )
