-- ===== src/Pn532/Commands/Chaining.antt =====
-- The loop of `pn532_tg_get_data` in components/pn532/src/pn532_cmd.c.
use smart_lock_firmware.Common.{◌/◌, ◌%◌, ◌==◌, if◌then◌else◌, get_or}
use smart_lock_firmware.Common.{
  ℕ, zero, suc, ◌+◌, ◌-◌, ◌<◌, ◌≤◌, ◌≡◌, refl, none, some, [], ◌∷◌, ◌++◌, Bytes, length, drop,
  length-append, length-drop, again, iterate, iterate_total, arith, Bool-cases, ltb, inl, inr, ◌&&◌,
}
use smart_lock_firmware.Pn532.{EspCode, max_payload_len, is_ok}
use smart_lock_firmware.Pn532.Driver.{Handle}
use smart_lock_firmware.Pn532.Commands.{
  exchange, get_data_round, pn532_tg_get_data, tg_max_data_len,
}

module _ {B : Type 0} (h : Handle B) where
  -- A chip that always announces more and sends no byte of it.
  abbrev EmptyChain : ℕ → Type 0
  EmptyChain timeout_ms =
      (b : B)
      → (b1 : B) × (exchange h 0x86 [] (1 + tg_max_data_len + 1) 2 timeout_ms b
          ≡ (EspCode.ok, 0x87 ∷ 0x40 ∷ [], b1))

  empty_round :
      (timeout_ms : ℕ) (b b1 : B)
      → exchange h 0x86 [] (1 + tg_max_data_len + 1) 2 timeout_ms b
        ≡ (EspCode.ok, 0x87 ∷ 0x40 ∷ [], b1)
      → get_data_round h timeout_ms ([], b) ≡ again ([], b1)
  unfolding get_data_round
  empty_round timeout_ms b b1 e = rw (e, get_data_round) refl

  empty_rounds :
      (fuel timeout_ms : ℕ) (b : B)
      → EmptyChain timeout_ms
      → iterate fuel (get_data_round h timeout_ms) ([], b) ≡ none
  unfolding iterate
  empty_rounds zero timeout_ms b chain = refl
  empty_rounds (suc fuel) timeout_ms b chain =
      let (b1, e) = chain b in
      rw (empty_round timeout_ms b b1 e, iterate) (empty_rounds fuel timeout_ms b1 chain)

  -- A chip that keeps announcing more while it sends no byte keeps the caller in the loop: whatever fuel
  -- the loop has, it does not return.
  pub pn532_tg_get_data-never_returns :
      (fuel buf_size timeout_ms : ℕ) (b : B)
      → ((b : B)
          → (b1 : B) × (exchange h 0x86 [] (1 + tg_max_data_len + 1) 2 timeout_ms b
              ≡ (EspCode.ok, 0x87 ∷ 0x40 ∷ [], b1)))
      → pn532_tg_get_data fuel h buf_size timeout_ms b ≡ none
  unfolding pn532_tg_get_data
  pn532_tg_get_data-never_returns fuel buf_size timeout_ms b chain =
      rw (empty_rounds fuel timeout_ms b chain, pn532_tg_get_data) refl

  -- Every fragment behind which the chip announces more has a byte behind its status and NAD.
  abbrev Filled : ℕ → Type 0
  Filled timeout_ms =
      (b b1 : B) (rsp : Bytes)
      → exchange h 0x86 [] (1 + tg_max_data_len + 1) 2 timeout_ms b ≡ (EspCode.ok, rsp, b1)
      → get_or rsp 1 0 / 64 % 2 ≡ 1
      → (if get_or rsp 1 0 / 128 % 2 == 1 then 3 else 2) < length rsp

  round_grows :
      (timeout_ms : ℕ) (accum grown : Bytes) (b b1 : B)
      → Filled timeout_ms
      → get_data_round h timeout_ms (accum, b) ≡ again (grown, b1)
      → (length accum < length grown) × (length grown ≤ max_payload_len)
  unfolding get_data_round
  round_grows timeout_ms accum grown b b1 filled e =
      let (err, rsp, b2) = exchange h 0x86 [] (1 + tg_max_data_len + 1) 2 timeout_ms b in
      let long = filled b b2 rsp in
      let sized : (n : ℕ) → length (accum ++ drop n rsp) ≡ length accum + (length rsp - n) =
        λ n. omega (arith, length-append accum (drop n rsp), length-drop n rsp) in
      ground (arith, e, long, sized 2, sized 3)

  -- When every fragment behind which the chip announces more carries a byte, behind its status and its
  -- NAD if it has one, the chaining loop returns: what is accumulated grows in each round and is refused
  -- above 265 bytes, so that 266 rounds are enough.
  pub pn532_tg_get_data-returns :
      (fuel buf_size timeout_ms : ℕ) (b : B)
      → ((b b1 : B) (rsp : Bytes)
          → exchange h 0x86 [] (1 + tg_max_data_len + 1) 2 timeout_ms b ≡ (EspCode.ok, rsp, b1)
          → get_or rsp 1 0 / 64 % 2 ≡ 1
          → (if get_or rsp 1 0 / 128 % 2 == 1 then 3 else 2) < length rsp)
      → max_payload_len < fuel
      → (o : EspCode × Bytes × B) × (pn532_tg_get_data fuel h buf_size timeout_ms b ≡ some o)
  unfolding pn532_tg_get_data
  pn532_tg_get_data-returns fuel buf_size timeout_ms b filled enough =
      let ((err, accum, b1), e) =
        iterate_total (λ (s : Bytes × B). length s.0 ≤ max_payload_len)
          (λ s. max_payload_len - length s.0) (get_data_round h timeout_ms)
          (λ s t p e. (round_grows timeout_ms s.0 t.0 s.1 t.1 filled e).1)
          (λ s t p e. let grows = round_grows timeout_ms s.0 t.0 s.1 t.1 filled e in omega arith)
          fuel ([], b) (omega arith) (omega arith) in
      rw (e, pn532_tg_get_data)
        (elim (Bool-cases (is_ok err && ltb buf_size (length accum))) [
          | inl h ↦ ((EspCode.invalid_size, [], b1), rw h refl)
          | inr h ↦ ((err, accum, b1), rw h refl)
        ])
