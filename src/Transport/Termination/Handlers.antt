-- ===== src/Transport/Termination/Handlers.antt =====
-- Enough fuel for the loops of components/transport/src/transport.c: what one handler or one
-- iteration uses up.
use smart_lock_firmware.Common.{
  ℕ, ◌*◌, ◌%◌, ◌^◌, ◌≤◌, ◌<◌, ◌≡◌, ◌⊎◌, Bytes, Next, again, stop, arith,
}
use smart_lock_firmware.Transport.Apdu.{
  Capdu, Rapdu, Parsed, parsed, refused, parse_capdu, rapdu_bytes, sw1_ok, sw2_ok, sw1_security,
  sw2_auth_failed, sw2_wrong_state, sw1_wrong_param, sw2_invalid_data,
}
use smart_lock_firmware.Transport.Machine.{
  LliErr, ticks_left, TransportState, Handle, Env, Outcome, invoke_erase, send_status,
  erase_release, abort_release, answer, reject_release, deliver,
}
use smart_lock_firmware.Transport.States.{
  activated_frame, handshake_step, handshake_timed, handshake_receive, handshake_frame, secure_step,
  secure_receive, secure_frame,
}

-- The link has a number of exchanges left: each receive uses one up, or reports that the phone is
-- gone. Nothing else that the transport calls makes more of them.
pub record Drains {W : Type 0} (env : Env W) (pending : W → ℕ) : Type 0 where
  pub receive :
      (t : ℕ) (w : W)
      → (pending (env.lli_receive_apdu t w).2 < pending w)
        ⊎ (((env.lli_receive_apdu t w).0 ≡ LliErr.link_released)
            × (pending (env.lli_receive_apdu t w).2 ≤ pending w))
  pub activate : (t : ℕ) (w : W) → pending (env.lli_activate t w).1 ≤ pending w
  pub send : (b : Bytes) (t : ℕ) (w : W) → pending (env.lli_send_apdu b t w).1 ≤ pending w
  pub link_status : (w : W) → pending (env.lli_get_link_status w).1 ≤ pending w
  pub ticks : (w : W) → pending (env.tick_count w).1 ≤ pending w
  pub delay : (t : ℕ) (w : W) → pending (env.delay_ms t w) ≤ pending w
  pub apdu : (c : Capdu) (w : W) → pending (env.on_apdu c w).2 ≤ pending w
  pub erase : (w : W) → pending (invoke_erase env w) ≤ pending w

module _ {W : Type 0} (env : Env W) (pending : W → ℕ) (drains : Drains env pending) where
  -- An iteration that goes on uses an exchange up.
  abbrev pub Lowers : ℕ → Next W (Outcome W) → Type 0
  Lowers n (again w) = pending w < n
  Lowers n (stop o) = pending o.world ≤ n

  -- A frame was received before, so one exchange fewer than `n` is left at most.
  abbrev pub Keeps : ℕ → Next W (Outcome W) → Type 0
  Keeps n (again w) = pending w ≤ n
  Keeps n (stop o) = pending o.world ≤ n

  pub send_status-le : (a b : ℕ) (w : W) → pending (send_status env a b w).1 ≤ pending w
  unfolding send_status
  send_status-le a b w = drains.send _ _ w

  pub erase_release-le : (h : Handle) (w : W) → pending (erase_release env h w).world ≤ pending w
  unfolding erase_release
  erase_release-le h w = drains.erase w

  pub abort_release-le : (h : Handle) (w : W) → pending (abort_release env h w).world ≤ pending w
  unfolding abort_release
  abort_release-le h w =
      omega (arith, send_status-le sw1_ok sw2_ok (invoke_erase env w), drains.erase w)

  pub reject_release-le : (h : Handle) (w : W) → pending (reject_release env h w).world ≤ pending w
  unfolding reject_release
  reject_release-le h w = omega (
    arith,
    drains.erase (send_status env sw1_security sw2_auth_failed w).1,
    send_status-le sw1_security sw2_auth_failed w,
  )

  pub deliver-le :
      (s : TransportState) (h : Handle) (r : Rapdu) (w : W)
      → pending (deliver env s h r w).world ≤ pending w
  unfolding deliver
  deliver-le s h r w = ground (
    arith,
    drains.send (rapdu_bytes r) env.apdu_timeout_ms w,
    drains.erase w,
    drains.erase (env.lli_send_apdu (rapdu_bytes r) env.apdu_timeout_ms w).1,
  )

  pub answer-le :
      (s : TransportState) (h : Handle) (c : Capdu) (w : W)
      → pending (answer env s h c w).world ≤ pending w
  unfolding answer
  answer-le s h c w =
      let (e, r, w1) = env.on_apdu c w in
      ground (arith, drains.apdu c w, deliver-le s h r w1, reject_release-le h w1)

  pub activated_frame-le :
      (h : Handle) (p : Parsed) (w : W) → pending (activated_frame env h p w).world ≤ pending w
  unfolding activated_frame
  activated_frame-le h (refused a b) w = send_status-le a b w
  activated_frame-le h (parsed c) w = ground (
    arith,
    abort_release-le h w,
    answer-le TransportState.handshake h c w,
    send_status-le sw1_security sw2_wrong_state w,
  )

  pub handshake_frame-Keeps :
      (h : Handle) (p : Parsed) (w : W) → Keeps (pending w) (handshake_frame env h p w)
  unfolding handshake_frame
  handshake_frame-Keeps h (refused a b) w = send_status-le a b w
  handshake_frame-Keeps h (parsed c) w = ground (
    arith,
    abort_release-le h w,
    answer-le TransportState.secure_session h c w,
    send_status-le sw1_security sw2_wrong_state w,
  )

  pub secure_frame-Keeps :
      (h : Handle) (p : Parsed) (w : W) → Keeps (pending w) (secure_frame env h p w)
  unfolding secure_frame
  secure_frame-Keeps h (refused a b) w = send_status-le a b w
  secure_frame-Keeps h (parsed c) w = ground (
    arith,
    abort_release-le h w,
    answer-le TransportState.secure_session h c w,
    send_status-le sw1_security sw2_wrong_state w,
    send_status-le sw1_wrong_param sw2_invalid_data w,
  )

  pub handshake_step-Lowers :
      (h : Handle) (deadline : ℕ) (w : W) → Lowers (pending w) (handshake_step env h deadline w)
  unfolding handshake_step handshake_timed handshake_receive
  handshake_step-Lowers h deadline w =
      let w1 = (env.lli_get_link_status w).1 in
      let (now, w2) = env.tick_count w1 in
      let t = (ticks_left deadline now * env.tick_period_ms) % 2 ^ 32 in
      let (e, raw, w3) = env.lli_receive_apdu t w2 in
      ground (
        arith,
        drains.link_status w,
        drains.ticks w1,
        drains.receive t w2,
        handshake_frame-Keeps h (parse_capdu raw) w3,
        erase_release-le h w1,
        erase_release-le h w2,
        erase_release-le h w3,
      )

  pub secure_step-Lowers : (h : Handle) (w : W) → Lowers (pending w) (secure_step env h w)
  unfolding secure_step secure_receive
  secure_step-Lowers h w =
      let w1 = (env.lli_get_link_status w).1 in
      let (e, raw, w3) = env.lli_receive_apdu env.apdu_timeout_ms w1 in
      ground (
        arith,
        drains.link_status w,
        drains.receive env.apdu_timeout_ms w1,
        secure_frame-Keeps h (parse_capdu raw) w3,
        erase_release-le h w1,
        erase_release-le h w3,
      )
