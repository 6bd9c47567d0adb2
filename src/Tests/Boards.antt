-- ===== src/Tests/Boards.antt =====
-- A comm task on a board whose bus is dead.
use smart_lock_firmware.Common.{
  ℕ, ◌≡◌, ◌≢◌, refl, false, some, [], ◌∷◌, Bytes, arith, inl, inr, Bool-cases, leb, if◌then◌else◌,
}
use smart_lock_firmware.Session.State.{session_init}
use smart_lock_firmware.Pn532.{EspCode, is_ok}
use smart_lock_firmware.Pn532.I2c.{Bus, bus_lock, bus_unlock, transmit}
use smart_lock_firmware.Pn532.I2c.Recovery.{rebuild_i2c_bus, rebuild_i2c_device, recover_i2c_bus}
use smart_lock_firmware.Pn532.I2c.Write.{
  count_recovery, escalate, transmit_loop, transmit_recovered, write_locked, pn532_i2c_write,
  write_max_retries, recovery_fail_limit,
}
use smart_lock_firmware.Comm.Task.{TaskEnd}
use smart_lock_firmware.Stack.{World, stack_env}
use smart_lock_firmware.Stack.Board.{Timing, board_link, comm_task_fn}
use smart_lock_firmware.Stack.Board.Dead.{rest, comm_task_fn-gives_up}
use smart_lock_firmware.Tests.Platform.{session_env}
use smart_lock_firmware.Tests.Buses.{dead_platform, bus_after, i2c_lli}

abbrev timing : Timing ℕ
timing = record {
  tick_count = λ p. (p, p);
  ms_to_ticks = λ ms. ms;
  tick_period_ms = 1;
  handshake_timeout_ms = 5000;
  activate_timeout_ms = 1000;
  apdu_timeout_ms = 500;
}

escalate_dead :
    (rebuild : Bus ℕ → EspCode × Bus ℕ) (bytes : Bytes) (err : EspCode) (b : Bus ℕ)
    → err ≢ EspCode.ok
    → (escalate dead_platform rebuild bytes err b).0 ≢ EspCode.ok
unfolding escalate
escalate_dead rebuild bytes err b ne e = ground (arith, ne, e)

recovered_dead :
    (bytes : Bytes) (b : Bus ℕ)
    → (transmit_recovered dead_platform EspCode.invalid_state bytes b).0 ≢ EspCode.ok
unfolding transmit_recovered
recovered_dead bytes b e =
    let (recovered, b1) = recover_i2c_bus dead_platform b in
    let (first, b2) = transmit dead_platform bytes b1 in
    let (second, b3) = escalate dead_platform (rebuild_i2c_device dead_platform) bytes first b2 in
    let first_fails : first ≢ EspCode.ok = λ h. cc h in
    let second_fails : second ≢ EspCode.ok =
      escalate_dead (rebuild_i2c_device dead_platform) bytes first b2 first_fails in
    let third_fails = escalate_dead (rebuild_i2c_bus dead_platform) bytes second b3 second_fails in
    elim (Bool-cases (is_ok recovered)) [
      | inl h ↦ third_fails (rw (h, transmit_recovered) at e)
      | inr h ↦ cc (rw (h, transmit_recovered) at e)
    ]

count_dead :
    (err : EspCode) (b : Bus ℕ)
    → err ≢ EspCode.ok
    → (count_recovery dead_platform err b).0 ≢ EspCode.ok
unfolding count_recovery
count_dead err b ne e = ground (arith, ne, e)

write_dead :
    (err : EspCode) (bytes : Bytes) (b b1 : Bus ℕ)
    → transmit_loop dead_platform write_max_retries EspCode.fail bytes b ≡ (err, b1)
    → err ≡ EspCode.invalid_state
    → (write_locked dead_platform bytes b).0 ≢ EspCode.ok
unfolding write_locked
write_dead err bytes b b1 tried is_state e =
    let (sent, b2) = transmit_recovered dead_platform err bytes b1 in
    let sent_fails : sent ≢ EspCode.ok = rw is_state (recovered_dead bytes b1) in
    let counted = count_dead sent (bus_unlock dead_platform b2) sent_fails in
    let answer : write_locked dead_platform bytes b ≡ (
        if leb recovery_fail_limit b1.ctx.recovery_failures
        then (EspCode.invalid_state, bus_unlock dead_platform b1)
        else count_recovery dead_platform sent (bus_unlock dead_platform b2)) =
      (rw (tried, is_state, write_locked) refl) in
    elim (Bool-cases (leb recovery_fail_limit b1.ctx.recovery_failures)) [
      | inl h ↦ ground (arith, h, answer, e)
      | inr h ↦ ground (arith, h, answer, e, counted)
    ]

-- No frame is ever taken.
never_taken : (bytes : Bytes) (b : Bus ℕ) → (pn532_i2c_write dead_platform bytes b).0 ≢ EspCode.ok
unfolding pn532_i2c_write bus_lock transmit_loop
never_taken bytes b e =
    let (err, b1) = transmit_loop dead_platform write_max_retries EspCode.fail bytes b in
    write_dead err bytes b b1 refl refl e

abbrev board_world : World (Bus ℕ) ℕ
board_world = record { link = bus_after 0; session = session_init; context = 0 }

comm_task_fn-gives_up_example :
    (w' : World (Bus ℕ) ℕ) × (comm_task_fn
        (stack_env (board_link dead_platform timing i2c_lli) session_env)
        (false ∷ false ∷ false ∷ false ∷ false ∷ [])
        4
        rest
        board_world
        0
      ≡ some (TaskEnd.gave_up, rest, w'))
comm_task_fn-gives_up_example =
    comm_task_fn-gives_up dead_platform timing i2c_lli session_env refl (λ t p. refl) never_taken []
      3 board_world refl
