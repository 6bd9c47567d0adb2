-- ===== src/Transport/Termination/Ranks.antt =====
-- Enough fuel for the loops of components/transport/src/transport.c: each state leads to a later one.
use smart_lock_firmware.Common.{
  ℕ, ◌+◌, ◌*◌, ◌%◌, ◌^◌, ◌≤◌, ◌<◌, ◌≡◌, Option, none, some, Option-cases, inl, inr, Next, again,
  stop, iterate, iterate_inv, arith,
}
use smart_lock_firmware.Transport.Apdu.{TransportErr, Capdu, Parsed, parsed, refused, parse_capdu}
use smart_lock_firmware.Transport.Machine.{ticks_left, TransportState, Handle, Env, Outcome, answer}
use smart_lock_firmware.Transport.States.{
  run_activated, activated_frame, handshake_step, handshake_timed, handshake_receive,
  handshake_frame, run_handshake, secure_step, secure_receive, secure_frame, run_secure_session,
}
use smart_lock_firmware.Transport.Termination.Handlers.{
  Drains, erase_release-le, activated_frame-le,
}

-- How many state changes a session still has before it, at most.
abbrev pub rank : TransportState → ℕ
rank TransportState.idle = 4
rank TransportState.activated = 3
rank TransportState.handshake = 2
rank TransportState.secure_session = 1
rank TransportState.released = 0

-- An outcome without an error has at most `n` state changes before it.
abbrev pub Settled : {W : Type 0} → ℕ → Outcome W → Type 0
Settled n o = o.err ≡ TransportErr.ok → rank o.handle.state ≤ n

abbrev NextSettled : {W : Type 0} → ℕ → Next W (Outcome W) → Type 0
NextSettled n (again w) = Unit
NextSettled n (stop o) = Settled n o

abbrev pub OptionSettled : {W : Type 0} → ℕ → Option (Outcome W) → Type 0
OptionSettled n none = Unit
OptionSettled n (some o) = Settled n o

module _ {W : Type 0} (env : Env W) where
  answer-rank :
      (s : TransportState) (h : Handle) (c : Capdu) (w : W)
      → rank (answer env s h c w).handle.state ≤ rank s
  unfolding answer
  answer-rank s h c w = ground arith

  activated_frame-rank :
      (h : Handle) (p : Parsed) (w : W)
      → h.state ≡ TransportState.activated
      → rank (activated_frame env h p w).handle.state ≤ 3
  unfolding activated_frame
  activated_frame-rank h (refused a b) w e = ground arith
  activated_frame-rank h (parsed c) w e = ground (arith, answer-rank TransportState.handshake h c w)

  handshake_frame-Settled :
      (h : Handle) (p : Parsed) (w : W) → NextSettled 1 (handshake_frame env h p w)
  unfolding handshake_frame
  handshake_frame-Settled h (refused a b) w = tt
  handshake_frame-Settled h (parsed c) w =
      ground (arith, answer-rank TransportState.secure_session h c w)

  handshake_step-Settled :
      (h : Handle) (deadline : ℕ) (w : W) → NextSettled 1 (handshake_step env h deadline w)
  unfolding handshake_step handshake_timed handshake_receive
  handshake_step-Settled h deadline w =
      let (now, w2) = env.tick_count (env.lli_get_link_status w).1 in
      let t = (ticks_left deadline now * env.tick_period_ms) % 2 ^ 32 in
      let (e, raw, w3) = env.lli_receive_apdu t w2 in
      ground (arith, handshake_frame-Settled h (parse_capdu raw) w3)

  secure_frame-Settled : (h : Handle) (p : Parsed) (w : W) → NextSettled 0 (secure_frame env h p w)
  unfolding secure_frame
  secure_frame-Settled h (refused a b) w = tt
  secure_frame-Settled h (parsed c) w =
      ground (arith, answer-rank TransportState.secure_session h c w)

  secure_step-Settled : (h : Handle) (w : W) → NextSettled 0 (secure_step env h w)
  unfolding secure_step secure_receive
  secure_step-Settled h w =
      let (e, raw, w3) = env.lli_receive_apdu env.apdu_timeout_ms (env.lli_get_link_status w).1 in
      ground (arith, secure_frame-Settled h (parse_capdu raw) w3)

  iterate-Settled :
      (n : ℕ) (body : W → Next W (Outcome W))
      → ((w : W) → NextSettled n (body w))
      → (fuel : ℕ) (w : W) → OptionSettled n (iterate fuel body w)
  iterate-Settled n body each fuel w = elim (Option-cases (iterate fuel body w)) [
    | inl e ↦ rw e tt
    | inr (o, e) ↦ rw e (
        iterate_inv (λ v. Unit {0}) (Settled n) body (λ v t p h. tt) (λ v r p h. rw h at (each v))
          fuel w o tt e)
  ]

  pub run_handshake-Settled :
      (fuel : ℕ) (h : Handle) (w : W) → OptionSettled 1 (run_handshake env fuel h w)
  unfolding run_handshake
  run_handshake-Settled fuel h w =
      iterate-Settled 1 _ (λ v. handshake_step-Settled h _ v) fuel (env.tick_count w).1

  pub run_secure_session-Settled :
      (fuel : ℕ) (h : Handle) (w : W) → OptionSettled 0 (run_secure_session env fuel h w)
  unfolding run_secure_session
  run_secure_session-Settled fuel h w = iterate-Settled 0 _ (secure_step-Settled h) fuel w

module _ {W : Type 0} (env : Env W) (pending : W → ℕ) (drains : Drains env pending) where
  -- A round in ACTIVATED uses up an exchange or leaves the state.
  pub run_activated-falls :
      (h : Handle) (w : W)
      → h.state ≡ TransportState.activated
      → let o = run_activated env h w in
        (pending o.world ≤ pending w)
        × (o.err ≡ TransportErr.ok → pending o.world + rank o.handle.state < pending w + 3)
  unfolding run_activated
  run_activated-falls h w e =
      let (r, raw, w1) = env.lli_receive_apdu env.apdu_timeout_ms w in
      ground (
        arith,
        drains.receive env.apdu_timeout_ms w,
        activated_frame-le env pending drains h (parse_capdu raw) w1,
        activated_frame-rank env h (parse_capdu raw) w1 e,
        erase_release-le env pending drains h w1,
      )
