-- ===== src/Stack/Board.antt =====
-- The whole stack on a board: components/lli/src/lli.c over the I2C transport under the transport layer,
-- and the comm task of components/comm_module/src/comm_module.c on top.
pub mod Dead
use smart_lock_firmware.Common.{ℕ, Bool, Option, none, some, List, [], ◌∷◌, Bytes, true, false}
use smart_lock_firmware.Transport.Apdu.{TransportErr}
use smart_lock_firmware.Transport.Machine.{Handle, Env}
use smart_lock_firmware.Transport.Run.{transport_run_session}
use smart_lock_firmware.Pn532.I2c.{Platform, Bus}
use smart_lock_firmware.Lli.{
  Lli, lli_activate, lli_receive_apdu, lli_send_apdu, lli_get_link_status, lli_abort,
}
use smart_lock_firmware.Comm.Task.{TaskEnd, count_fatal}
use smart_lock_firmware.Stack.{Link}

-- The tick counter and the timeouts of `transport_config_t`.
pub record Timing (P : Type 0) : Type 0 where
  pub tick_count : P → ℕ × P
  pub ms_to_ticks : ℕ → ℕ
  pub tick_period_ms : ℕ
  pub handshake_timeout_ms : ℕ
  pub activate_timeout_ms : ℕ
  pub apdu_timeout_ms : ℕ

-- `uint8_t raw[264]`
abbrev pub raw_size : ℕ
raw_size = 264

-- The link under the transport is that of the driver.
unfoldable pub board_link : {P : Type 0} → Platform P → Timing P → Lli (Bus P) → Link (Bus P)
board_link io timing h = record {
  lli_activate = λ t b. lli_activate h t b;
  lli_receive_apdu = λ t b. lli_receive_apdu h raw_size t b;
  lli_send_apdu = λ bytes t b. lli_send_apdu h bytes t b;
  lli_get_link_status = λ b. lli_get_link_status h b;
  lli_abort = λ b. lli_abort h b;
  tick_count = λ b. let (n, p) = timing.tick_count b.platform in (n, record b { platform = p });
  delay_ms = λ t b. record b { platform = io.delay_ms t b.platform };
  ms_to_ticks = timing.ms_to_ticks;
  tick_period_ms = timing.tick_period_ms;
  handshake_timeout_ms = timing.handshake_timeout_ms;
  activate_timeout_ms = timing.activate_timeout_ms;
  apdu_timeout_ms = timing.apdu_timeout_ms;
}

module _ {W : Type 0} (env : Env W) where
  -- The pause before a session is tried again.
  unfoldable pub settle : TransportErr → W → W
  settle TransportErr.bus_fatal w = env.delay_ms 100 w
  settle _ w = w

  -- `comm_task_fn`, over what it reads of `g_stop_requested` before each session; the state after a
  -- prefix of these readings is `running` with its counter. `fuel` is for each session.
  unfoldable pub comm_task_fn : List Bool → ℕ → Handle → W → ℕ → Option (TaskEnd × Handle × W)
  comm_task_fn [] fuel h w fatal_retries = some (TaskEnd.running fatal_retries, h, w)
  comm_task_fn (stop_requested ∷ later) fuel h w fatal_retries = elim stop_requested [
    | true ↦ some (TaskEnd.stopped, h, w)
    | false ↦ elim (transport_run_session env fuel h w) [
      | none ↦ none
      | some o ↦ elim (count_fatal o.err fatal_retries) [
        | none ↦ some (TaskEnd.gave_up, o.handle, o.world)
        | some n ↦ comm_task_fn later fuel o.handle (settle o.err o.world) n
      ]
    ]
  ]
