-- ===== src/Transport/Exits.antt =====
-- How `transport_run_session` of components/transport/src/transport.c leaves.
use smart_lock_firmware.Common.{
  ℕ, ◌*◌, ◌%◌, ◌^◌, ◌≡◌, refl, ◌⊎◌, inl, inr, Option, none, some, Option-cases, Next, again, stop,
  iterate, iterate_inv, arith,
}
use smart_lock_firmware.Transport.Apdu.{TransportErr, Capdu, Parsed, parsed, refused, parse_capdu}
use smart_lock_firmware.Transport.Machine.{ticks_left, TransportState, Handle, Env, Outcome, answer}
use smart_lock_firmware.Transport.States.{
  run_idle, run_activated, activated_frame, handshake_step, handshake_timed, handshake_receive,
  handshake_frame, run_handshake, secure_step, secure_receive, secure_frame, run_secure_session,
}
use smart_lock_firmware.Transport.Run.{join-eq_some, session_step, transport_run_session}

-- A handler of a running session fails only with a fatal bus.
abbrev IsOkOrFatal : {W : Type 0} → Outcome W → Type 0
IsOkOrFatal o = (o.err ≡ TransportErr.ok) ⊎ (o.err ≡ TransportErr.bus_fatal)

abbrev NextIsOkOrFatal : {W : Type 0} → Next W (Outcome W) → Type 0
NextIsOkOrFatal (again w) = Unit
NextIsOkOrFatal (stop o) = IsOkOrFatal o

abbrev OptionIsOkOrFatal : {W : Type 0} → Option (Outcome W) → Type 0
OptionIsOkOrFatal none = Unit
OptionIsOkOrFatal (some o) = IsOkOrFatal o

-- How the whole call may end.
abbrev IsExit : {W : Type 0} → Option (Outcome W) → Type 0
IsExit none = Unit
IsExit (some o) = (o.handle.state ≡ TransportState.idle) ⊎ (o.err ≡ TransportErr.bus_fatal)

abbrev NextIsExit : {W : Type 0} → Next (Handle × W) (Option (Outcome W)) → Type 0
NextIsExit (again s) = Unit
NextIsExit (stop o) = IsExit o

module _ {W : Type 0} (env : Env W) where
  answer_ok :
      (s : TransportState) (h : Handle) (c : Capdu) (w : W)
      → (answer env s h c w).err ≡ TransportErr.ok
  unfolding answer
  answer_ok s h c w = ground arith

  activated_frame_ok :
      (h : Handle) (p : Parsed) (w : W) → (activated_frame env h p w).err ≡ TransportErr.ok
  unfolding activated_frame
  activated_frame_ok h (refused a b) w = refl
  activated_frame_ok h (parsed c) w = ground (arith, answer_ok TransportState.handshake h c w)

  run_activated-IsOkOrFatal : (h : Handle) (w : W) → IsOkOrFatal (run_activated env h w)
  unfolding run_activated
  run_activated-IsOkOrFatal h w = ground (
    arith,
    activated_frame_ok h (parse_capdu (env.lli_receive_apdu env.apdu_timeout_ms w).1)
        (env.lli_receive_apdu env.apdu_timeout_ms w).2,
  )

  handshake_frame-IsOkOrFatal :
      (h : Handle) (p : Parsed) (w : W) → NextIsOkOrFatal (handshake_frame env h p w)
  unfolding handshake_frame
  handshake_frame-IsOkOrFatal h (refused a b) w = tt
  handshake_frame-IsOkOrFatal h (parsed c) w =
      ground (arith, answer_ok TransportState.secure_session h c w)

  handshake_receive-IsOkOrFatal :
      (h : Handle) (t : ℕ) (w : W) → NextIsOkOrFatal (handshake_receive env h t w)
  unfolding handshake_receive
  handshake_receive-IsOkOrFatal h t w = ground (
    arith,
    handshake_frame-IsOkOrFatal h (parse_capdu (env.lli_receive_apdu t w).1)
        (env.lli_receive_apdu t w).2,
  )

  handshake_step-IsOkOrFatal :
      (h : Handle) (deadline : ℕ) (w : W) → NextIsOkOrFatal (handshake_step env h deadline w)
  unfolding handshake_step handshake_timed
  handshake_step-IsOkOrFatal h deadline w =
      let (now, w2) = env.tick_count (env.lli_get_link_status w).1 in
      ground (
        arith,
        handshake_receive-IsOkOrFatal h ((ticks_left deadline now * env.tick_period_ms) % 2 ^ 32)
            w2,
      )

  secure_frame-IsOkOrFatal :
      (h : Handle) (p : Parsed) (w : W) → NextIsOkOrFatal (secure_frame env h p w)
  unfolding secure_frame
  secure_frame-IsOkOrFatal h (refused a b) w = tt
  secure_frame-IsOkOrFatal h (parsed c) w =
      ground (arith, answer_ok TransportState.secure_session h c w)

  secure_step-IsOkOrFatal : (h : Handle) (w : W) → NextIsOkOrFatal (secure_step env h w)
  unfolding secure_step secure_receive
  secure_step-IsOkOrFatal h w =
      let w1 = (env.lli_get_link_status w).1 in
      let (e, raw, w2) = env.lli_receive_apdu env.apdu_timeout_ms w1 in
      ground (arith, secure_frame-IsOkOrFatal h (parse_capdu raw) w2)

  iterate-IsOkOrFatal :
      (body : W → Next W (Outcome W))
      → ((w : W) → NextIsOkOrFatal (body w))
      → (fuel : ℕ) (w : W) → OptionIsOkOrFatal (iterate fuel body w)
  iterate-IsOkOrFatal body each fuel w = elim (Option-cases (iterate fuel body w)) [
    | inl e ↦ rw e tt
    | inr (o, e) ↦ rw e (
        iterate_inv (λ v. Unit {0}) IsOkOrFatal body (λ v t p h. tt) (λ v r p h. rw h at (each v))
          fuel w o tt e)
  ]

  run_handshake-IsOkOrFatal :
      (fuel : ℕ) (h : Handle) (w : W) → OptionIsOkOrFatal (run_handshake env fuel h w)
  unfolding run_handshake
  run_handshake-IsOkOrFatal fuel h w =
      iterate-IsOkOrFatal _ (λ v. handshake_step-IsOkOrFatal h _ v) fuel (env.tick_count w).1

  run_secure_session-IsOkOrFatal :
      (fuel : ℕ) (h : Handle) (w : W) → OptionIsOkOrFatal (run_secure_session env fuel h w)
  unfolding run_secure_session
  run_secure_session-IsOkOrFatal fuel h w = iterate-IsOkOrFatal _ (secure_step-IsOkOrFatal h) fuel w

  session_step-IsExit : (fuel : ℕ) (s : Handle × W) → NextIsExit (session_step env fuel s)
  unfolding session_step run_idle
  session_step-IsExit fuel (h, w) = ground (
    arith,
    run_activated-IsOkOrFatal h w,
    run_handshake-IsOkOrFatal fuel h w,
    run_secure_session-IsOkOrFatal fuel h w,
  )

  -- A call that returns leaves the machine in IDLE, unless it returns the fatal bus error: an
  -- interrupted session is always torn down to IDLE on the other exits.
  pub transport_run_session-exits :
      (fuel : ℕ) (h : Handle) (w : W) (o : Outcome W)
      → transport_run_session env fuel h w ≡ some o
      → (o.handle.state ≡ TransportState.idle) ⊎ (o.err ≡ TransportErr.bus_fatal)
  unfolding transport_run_session
  transport_run_session-exits fuel h w o e =
      iterate_inv (λ s. Unit {0}) IsExit (session_step env fuel) (λ s t p step. tt)
        (λ s r p step. rw step at (session_step-IsExit fuel s)) fuel _ (some o) tt
        (join-eq_some _ o e)
