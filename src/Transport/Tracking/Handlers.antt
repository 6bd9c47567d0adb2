-- ===== src/Transport/Tracking/Handlers.antt =====
-- An invariant between the transport's state and the world below and above it, for
-- components/transport/src/transport.c: the state handlers.
use smart_lock_firmware.Common.{ℕ, ◌*◌, ◌%◌, ◌^◌, ◌≡◌, arith}
use smart_lock_firmware.Transport.Apdu.{
  Parsed, parsed, refused, parse_capdu, sw1_security, sw2_wrong_state, sw1_wrong_param,
  sw2_invalid_data,
}
use smart_lock_firmware.Transport.Machine.{ticks_left, TransportState, Handle, Env}
use smart_lock_firmware.Transport.States.{
  run_idle, activated_frame, run_activated, handshake_frame, handshake_receive, handshake_timed,
  handshake_step, secure_frame, secure_receive, secure_step,
}
use smart_lock_firmware.Transport.Machine.{post_session_settle_ms}
use smart_lock_firmware.Transport.Tracking.Base.{
  Tracks, Holds, HoldsNext, send_status-Q, erase_release-Q, abort_release-Q, answer-Q,
}

module _ {W : Type 0} (env : Env W) (Q : TransportState → W → Type 0) (tracks : Tracks env Q) where
  pub activated_frame-Q :
      (h : Handle) (p : Parsed) (w : W)
      → h.state ≡ TransportState.activated
      → Q TransportState.activated w
      → Holds env Q tracks (activated_frame env h p w)
  unfolding activated_frame
  activated_frame-Q h (refused a b) w e q =
      rw e (send_status-Q env Q tracks TransportState.activated a b w q)
  activated_frame-Q h (parsed c) w e q = ground (
    arith,
    abort_release-Q env Q tracks h w,
    answer-Q env Q tracks TransportState.handshake h c w,
    tracks.first_message c w,
    send_status-Q env Q tracks TransportState.activated sw1_security sw2_wrong_state w q,
  )

  pub run_activated-Q :
      (h : Handle) (w : W)
      → h.state ≡ TransportState.activated
      → Q TransportState.activated w
      → Holds env Q tracks (run_activated env h w)
  unfolding run_activated
  run_activated-Q h w e q =
      let q1 = tracks.receive _ env.apdu_timeout_ms w q in
      ground (
        arith,
        q1,
        activated_frame-Q h (parse_capdu (env.lli_receive_apdu env.apdu_timeout_ms w).1) _ e q1,
        erase_release-Q env Q tracks h (env.lli_receive_apdu env.apdu_timeout_ms w).2,
      )

  pub handshake_frame-Q :
      (h : Handle) (p : Parsed) (w : W)
      → Q TransportState.handshake w
      → HoldsNext env Q tracks TransportState.handshake (handshake_frame env h p w)
  unfolding handshake_frame
  handshake_frame-Q h (refused a b) w q =
      send_status-Q env Q tracks TransportState.handshake a b w q
  handshake_frame-Q h (parsed c) w q = ground (
    arith,
    abort_release-Q env Q tracks h w,
    answer-Q env Q tracks TransportState.secure_session h c w,
    tracks.third_message c w,
    send_status-Q env Q tracks TransportState.handshake sw1_security sw2_wrong_state w q,
  )

  pub handshake_receive-Q :
      (h : Handle) (t : ℕ) (w : W)
      → h.state ≡ TransportState.handshake
      → Q TransportState.handshake w
      → HoldsNext env Q tracks TransportState.handshake (handshake_receive env h t w)
  unfolding handshake_receive
  handshake_receive-Q h t w e q =
      let q1 = tracks.receive _ t w q in
      ground (
        arith,
        q1,
        handshake_frame-Q h (parse_capdu (env.lli_receive_apdu t w).1) _ q1,
        erase_release-Q env Q tracks h (env.lli_receive_apdu t w).2,
      )

  pub handshake_step-Q :
      (h : Handle) (deadline : ℕ) (w : W)
      → h.state ≡ TransportState.handshake
      → Q TransportState.handshake w
      → HoldsNext env Q tracks TransportState.handshake (handshake_step env h deadline w)
  unfolding handshake_step handshake_timed
  handshake_step-Q h deadline w e q =
      let q1 = tracks.link_status _ w q in
      let w1 = (env.lli_get_link_status w).1 in
      let q2 = tracks.ticks _ w1 q1 in
      ground (
        arith,
        handshake_receive-Q h
            ((ticks_left deadline (env.tick_count w1).0 * env.tick_period_ms) % 2 ^ 32) _ e q2,
        erase_release-Q env Q tracks h w1,
        erase_release-Q env Q tracks h (env.tick_count w1).1,
      )

  pub secure_frame-Q :
      (h : Handle) (p : Parsed) (w : W)
      → Q TransportState.secure_session w
      → HoldsNext env Q tracks TransportState.secure_session (secure_frame env h p w)
  unfolding secure_frame
  secure_frame-Q h (refused a b) w q =
      send_status-Q env Q tracks TransportState.secure_session a b w q
  secure_frame-Q h (parsed c) w q = ground (
    arith,
    abort_release-Q env Q tracks h w,
    answer-Q env Q tracks TransportState.secure_session h c w,
    tracks.secure_payload c w,
    send_status-Q env Q tracks TransportState.secure_session sw1_security sw2_wrong_state w q,
    send_status-Q env Q tracks TransportState.secure_session sw1_wrong_param sw2_invalid_data w q,
  )

  pub secure_receive-Q :
      (h : Handle) (w : W)
      → h.state ≡ TransportState.secure_session
      → Q TransportState.secure_session w
      → HoldsNext env Q tracks TransportState.secure_session (secure_receive env h w)
  unfolding secure_receive
  secure_receive-Q h w e q =
      let q1 = tracks.receive _ env.apdu_timeout_ms w q in
      ground (
        arith,
        q1,
        secure_frame-Q h (parse_capdu (env.lli_receive_apdu env.apdu_timeout_ms w).1) _ q1,
        erase_release-Q env Q tracks h (env.lli_receive_apdu env.apdu_timeout_ms w).2,
      )

  pub secure_step-Q :
      (h : Handle) (w : W)
      → h.state ≡ TransportState.secure_session
      → Q TransportState.secure_session w
      → HoldsNext env Q tracks TransportState.secure_session (secure_step env h w)
  unfolding secure_step
  secure_step-Q h w e q =
      let q1 = tracks.link_status _ w q in
      ground (
        arith,
        secure_receive-Q h (env.lli_get_link_status w).1 e q1,
        erase_release-Q env Q tracks h (env.lli_get_link_status w).1,
      )

  pub run_idle-Q :
      (h : Handle) (w : W)
      → h.state ≡ TransportState.idle
      → Q TransportState.idle w
      → Holds env Q tracks (run_idle env h w)
  unfolding run_idle
  run_idle-Q h w e q =
      let q1 = tracks.delay post_session_settle_ms w q in
      ground (
        arith,
        q1,
        tracks.activate env.activate_timeout_ms w q,
        tracks.activate env.activate_timeout_ms _ q1,
        tracks.selected (env.lli_activate env.activate_timeout_ms w).1,
        tracks.selected
            (env.lli_activate env.activate_timeout_ms (env.delay_ms post_session_settle_ms w)).1,
      )
