-- ===== src/Transport/States.antt =====
-- The state handlers of components/transport/src/transport.c. A loop is `iterate` over its body, so
-- that it takes fuel; the body alone is a function of its own.
use smart_lock_firmware.Common.{
  ℕ, ◌+◌, ◌*◌, ◌%◌, ◌^◌, false, Option, ltb, ◌==◌, if◌then◌else◌, Next, again, stop, iterate,
}
use smart_lock_firmware.Transport.Apdu.{
  TransportErr, Capdu, Parsed, parsed, refused, parse_capdu, ins_handshake_init,
  ins_handshake_finish, ins_secure_payload, ins_session_abort, sw1_security, sw2_wrong_state,
  sw1_wrong_param, sw2_invalid_data, plaintext_budget,
}
use smart_lock_firmware.Transport.Machine.{
  LliErr, LinkStatus, TransportState, Handle, Env, Outcome, post_session_settle_ms, ticks_left,
  deadline_passed, send_status, erase_release, abort_release, fail, answer,
}

module _ {W : Type 0} (env : Env W) where
  unfoldable pub run_idle : Handle → W → Outcome W
  run_idle h w =
      let w1 = if h.session_just_ended then env.delay_ms post_session_settle_ms w else w in
      let h1 = record h { session_just_ended = false } in
      let (e, w2) = env.lli_activate env.activate_timeout_ms w1 in
      elim e [
        | LliErr.ok ↦ fail TransportErr.ok (record h1 { state = TransportState.activated }) w2
        | LliErr.timeout ↦ fail TransportErr.timeout h1 w2
        | LliErr.bus_fatal ↦ fail TransportErr.bus_fatal h1 w2
        | _ ↦ fail TransportErr.internal h1 w2
      ]

  activated_command : Handle → Capdu → W → Outcome W
  unfolding send_status abort_release answer
  activated_command h c w =
      if c.ins == ins_session_abort
      then abort_release env h w
      else if c.ins == ins_handshake_init
      then answer env TransportState.handshake h c w
      else fail TransportErr.ok h (send_status env sw1_security sw2_wrong_state w).1

  unfoldable pub activated_frame : Handle → Parsed → W → Outcome W
  unfolding activated_command
  activated_frame h (parsed c) w = activated_command h c w
  activated_frame h (refused sw1 sw2) w = fail TransportErr.ok h (send_status env sw1 sw2 w).1

  unfoldable pub run_activated : Handle → W → Outcome W
  unfolding activated_frame erase_release parse_capdu
  run_activated h w =
      let (e, raw, w1) = env.lli_receive_apdu env.apdu_timeout_ms w in
      elim e [
        | LliErr.ok ↦ activated_frame h (parse_capdu raw) w1
        | LliErr.bus_fatal ↦ fail TransportErr.bus_fatal h w1
        | _ ↦ erase_release env h w1
      ]

  handshake_command : Handle → Capdu → W → Next W (Outcome W)
  unfolding send_status abort_release answer
  handshake_command h c w =
      if c.ins == ins_session_abort
      then stop (abort_release env h w)
      else if c.ins == ins_handshake_finish
      then stop (answer env TransportState.secure_session h c w)
      else again (send_status env sw1_security sw2_wrong_state w).1

  unfoldable pub handshake_frame : Handle → Parsed → W → Next W (Outcome W)
  unfolding handshake_command
  handshake_frame h (parsed c) w = handshake_command h c w
  handshake_frame h (refused sw1 sw2) w = again (send_status env sw1 sw2 w).1

  unfoldable pub handshake_receive : Handle → ℕ → W → Next W (Outcome W)
  unfolding handshake_frame erase_release parse_capdu
  handshake_receive h remaining_ms w =
      let (e, raw, w1) = env.lli_receive_apdu remaining_ms w in
      elim e [
        | LliErr.ok ↦ handshake_frame h (parse_capdu raw) w1
        | LliErr.bus_fatal ↦ stop (fail TransportErr.bus_fatal h w1)
        | LliErr.link_released ↦ stop (erase_release env h w1)
        | LliErr.timeout ↦ stop (erase_release env h w1)
        | _ ↦ again w1
      ]

  -- The rest of the body, once the link was seen not to be released.
  unfoldable pub handshake_timed : Handle → ℕ → W → Next W (Outcome W)
  unfolding handshake_receive erase_release deadline_passed
  handshake_timed h deadline w =
      let (now, w1) = env.tick_count w in
      let remaining_ms = (ticks_left deadline now * env.tick_period_ms) % 2 ^ 32 in
      if deadline_passed deadline now
      then stop (erase_release env h w1)
      else if remaining_ms == 0
      then stop (erase_release env h w1)
      else handshake_receive h remaining_ms w1

  unfoldable pub handshake_step : Handle → ℕ → W → Next W (Outcome W)
  unfolding handshake_timed erase_release
  handshake_step h deadline w =
      let (link, w1) = env.lli_get_link_status w in
      elim link [
        | LinkStatus.released ↦ stop (erase_release env h w1)
        | _ ↦ handshake_timed h deadline w1
      ]

  unfoldable pub run_handshake : ℕ → Handle → W → Option (Outcome W)
  run_handshake fuel h w =
      let (start, w1) = env.tick_count w in
      let deadline = (start + env.ms_to_ticks env.handshake_timeout_ms) % 2 ^ 32 in
      iterate fuel (handshake_step h deadline) w1

  -- After a delivered answer the secure loop goes round again; a torn down session leaves it.
  secure_answered : Outcome W → Next W (Outcome W)
  secure_answered o = elim o.handle.state [
    | TransportState.secure_session ↦ again o.world
    | _ ↦ stop o
  ]

  secure_command : Handle → Capdu → W → Next W (Outcome W)
  unfolding send_status abort_release answer secure_answered
  secure_command h c w =
      if c.ins == ins_session_abort
      then stop (abort_release env h w)
      else if c.ins == ins_secure_payload
      then (if ltb plaintext_budget c.lc
          then again (send_status env sw1_wrong_param sw2_invalid_data w).1
          else secure_answered (answer env TransportState.secure_session h c w))
      else again (send_status env sw1_security sw2_wrong_state w).1

  unfoldable pub secure_frame : Handle → Parsed → W → Next W (Outcome W)
  unfolding secure_command
  secure_frame h (parsed c) w = secure_command h c w
  secure_frame h (refused sw1 sw2) w = again (send_status env sw1 sw2 w).1

  unfoldable pub secure_receive : Handle → W → Next W (Outcome W)
  unfolding secure_frame erase_release parse_capdu
  secure_receive h w =
      let (e, raw, w1) = env.lli_receive_apdu env.apdu_timeout_ms w in
      elim e [
        | LliErr.ok ↦ secure_frame h (parse_capdu raw) w1
        | LliErr.bus_fatal ↦ stop (fail TransportErr.bus_fatal h w1)
        | _ ↦ stop (erase_release env h w1)
      ]

  unfoldable pub secure_step : Handle → W → Next W (Outcome W)
  unfolding secure_receive erase_release
  secure_step h w =
      let (link, w1) = env.lli_get_link_status w in
      elim link [ LinkStatus.released ↦ stop (erase_release env h w1) | _ ↦ secure_receive h w1 ]

  unfoldable pub run_secure_session : ℕ → Handle → W → Option (Outcome W)
  run_secure_session fuel h w = iterate fuel (secure_step h) w
