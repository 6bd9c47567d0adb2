-- ===== src/Transport/Machine.antt =====
-- The session state machine of components/transport/src/transport.c, over the link layer, the clock
-- and the two callbacks of `transport_config_t`.
use smart_lock_firmware.Common.{
  ℕ, ◌+◌, ◌-◌, ◌%◌, ◌^◌, Bool, ◌||◌, Option, none, some, [], ◌∷◌, Bytes, ltb, leb, ◌==◌,
  if◌then◌else◌,
}
use smart_lock_firmware.Transport.Apdu.{
  TransportErr, Capdu, Rapdu, rapdu_bytes, rapdu_capacity, sw1_ok, sw2_ok, sw1_security,
  sw2_auth_failed,
}

pub data LliErr : Type 0 where
  ok timeout frame_integrity send_failed not_supported invalid_arg internal : LliErr
  link_released bus_fatal : LliErr

pub data LinkStatus : Type 0 where
  active released error : LinkStatus

pub data TransportState : Type 0 where
  idle activated handshake secure_session released : TransportState

-- The fields of `struct transport_t` that change. The configuration and the link are in `Env`.
pub record Handle : Type 0 where
  pub state : TransportState
  pub session_just_ended : Bool

-- What the transport calls, over a world `W` that the calls read and change: the link layer, the
-- clock of FreeRTOS, the delay, and the callbacks of `transport_config_t` with its timeouts.
pub record Env (W : Type 0) : Type 0 where
  pub lli_activate : ℕ → W → LliErr × W
  pub lli_receive_apdu : ℕ → W → LliErr × Bytes × W
  pub lli_send_apdu : Bytes → ℕ → W → LliErr × W
  pub lli_get_link_status : W → LinkStatus × W
  pub lli_abort : W → LliErr × W
  pub tick_count : W → ℕ × W
  pub delay_ms : ℕ → W → W
  pub ms_to_ticks : ℕ → ℕ
  pub tick_period_ms : ℕ
  pub on_apdu : Capdu → W → TransportErr × Rapdu × W
  pub on_erase : Option (W → W)
  pub handshake_timeout_ms : ℕ
  pub activate_timeout_ms : ℕ
  pub apdu_timeout_ms : ℕ

-- What a handler returns: the error, and the state that it leaves.
pub record Outcome (W : Type 0) : Type 0 where
  pub err : TransportErr
  pub handle : Handle
  pub world : W

abbrev pub post_session_settle_ms : ℕ
post_session_settle_ms = 2000

-- `LLI_ERR_BUS_FATAL` stays fatal; any other failure of a send is internal.
abbrev pub send_err : LliErr → TransportErr
send_err LliErr.ok = TransportErr.ok
send_err LliErr.bus_fatal = TransportErr.bus_fatal
send_err _ = TransportErr.internal

-- `(int32_t)(deadline - now) <= 0` on 32-bit ticks.
unfoldable pub ticks_left : ℕ → ℕ → ℕ
ticks_left deadline now = (deadline + 2 ^ 32 - now) % 2 ^ 32

unfoldable pub deadline_passed : ℕ → ℕ → Bool
unfolding ticks_left
deadline_passed deadline now =
    ticks_left deadline now == 0 || leb (2 ^ 31) (ticks_left deadline now)

abbrev pub fail : {W : Type 0} → TransportErr → Handle → W → Outcome W
fail e h w = record { err = e; handle = h; world = w }

-- `h->state = TRANSPORT_STATE_RELEASED; return TRANSPORT_OK;`
abbrev pub to_released : {W : Type 0} → Handle → W → Outcome W
to_released h w = fail TransportErr.ok (record h { state = TransportState.released }) w

module _ {W : Type 0} (env : Env W) where
  unfoldable pub invoke_erase : W → W
  invoke_erase w = elim env.on_erase [ none ↦ w | some erase ↦ erase w ]

  unfoldable pub send_status : ℕ → ℕ → W → TransportErr × W
  send_status sw1 sw2 w =
      let (e, w') = env.lli_send_apdu (sw1 ∷ sw2 ∷ []) env.apdu_timeout_ms w in (send_err e, w')

  unfoldable pub send_rapdu : Rapdu → W → TransportErr × W
  send_rapdu r w =
      let (e, w') = env.lli_send_apdu (rapdu_bytes r) env.apdu_timeout_ms w in
      if ltb rapdu_capacity r.len then (TransportErr.internal, w) else (send_err e, w')

  -- The three teardown sequences of the state handlers.
  unfoldable pub erase_release : Handle → W → Outcome W
  unfolding invoke_erase
  erase_release h w = to_released h (invoke_erase w)

  unfoldable pub abort_release : Handle → W → Outcome W
  unfolding invoke_erase send_status
  abort_release h w = to_released h (send_status sw1_ok sw2_ok (invoke_erase w)).1

  unfoldable pub reject_release : Handle → W → Outcome W
  unfolding invoke_erase send_status
  reject_release h w = to_released h (invoke_erase (send_status sw1_security sw2_auth_failed w).1)

  -- The answer of `on_apdu` goes out, and the handle moves to `next`; or the session is torn down.
  unfoldable pub deliver : TransportState → Handle → Rapdu → W → Outcome W
  unfolding send_rapdu erase_release
  deliver next h r w =
      let (e, w') = send_rapdu r w in
      elim e [
        | TransportErr.ok ↦ fail TransportErr.ok (record h { state = next }) w'
        | _ ↦ erase_release h w'
      ]

  unfoldable pub answer : TransportState → Handle → Capdu → W → Outcome W
  unfolding deliver reject_release
  answer next h c w =
      let (e, r, w') = env.on_apdu c w in
      elim e [ TransportErr.ok ↦ deliver next h r w' | _ ↦ reject_release h w' ]
