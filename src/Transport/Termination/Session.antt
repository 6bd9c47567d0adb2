-- ===== src/Transport/Termination/Session.antt =====
-- Enough fuel for the loops of components/transport/src/transport.c: the loops themselves.
use smart_lock_firmware.Common.{
  ℕ, ◌+◌, ◌≤◌, ◌<◌, ◌≡◌, refl, ap, ◌∙◌, Option, none, some, Next, again, stop, iterate, iterate_inv,
  iterate_total, arith,
}
use smart_lock_firmware.Transport.Machine.{
  TransportState, Handle, Env, Outcome, post_session_settle_ms,
}
use smart_lock_firmware.Transport.States.{run_idle, run_handshake, run_secure_session}
use smart_lock_firmware.Transport.Run.{join, session_step, transport_run_session}
use smart_lock_firmware.Transport.Termination.Handlers.{
  Drains, Lowers, handshake_step-Lowers, secure_step-Lowers,
}
use smart_lock_firmware.Transport.Termination.Ranks.{
  rank, Settled, run_handshake-Settled, run_secure_session-Settled, run_activated-falls,
}

module _ {W : Type 0} (env : Env W) (pending : W → ℕ) (drains : Drains env pending) where
  -- The loop ended, with no more exchanges left than `n`.
  abbrev Ends : ℕ → Option (Outcome W) → Type 0
  Ends n none = ⊥
  Ends n (some o) = pending o.world ≤ n

  Ends-mono : (m n : ℕ) (o : Option (Outcome W)) → m ≤ n → Ends m o → Ends n o
  Ends-mono m n none le h = h
  Ends-mono m n (some o) le h = omega arith

  iterate-Ends :
      (body : W → Next W (Outcome W))
      → ((w : W) → Lowers env pending drains (pending w) (body w))
      → (fuel : ℕ) (w : W) → pending w < fuel
      → Ends (pending w) (iterate fuel body w)
  iterate-Ends body each fuel w m =
      let (o, e) =
        iterate_total (λ v. Unit {0}) pending body (λ v t p h. tt) (λ v t p h. rw h at (each v))
          fuel w tt m in
      rw e (
        iterate_inv (λ v. pending v ≤ pending w) (λ r. pending r.world ≤ pending w) body
          (λ v t p h. let less = rw h at (each v) in omega arith)
          (λ v r p h. let less = rw h at (each v) in omega arith) fuel w o (omega arith) e)

  run_idle-le : (h : Handle) (w : W) → pending (run_idle env h w).world ≤ pending w
  unfolding run_idle
  run_idle-le h w = ground (
    arith,
    drains.delay post_session_settle_ms w,
    drains.activate env.activate_timeout_ms w,
    drains.activate env.activate_timeout_ms (env.delay_ms post_session_settle_ms w),
  )

  run_idle-rank : (h : Handle) (w : W) → Settled 3 (run_idle env h w)
  unfolding run_idle
  run_idle-rank h w = ground arith

  run_handshake-Ends :
      (fuel : ℕ) (h : Handle) (w : W)
      → pending w < fuel
      → Ends (pending w) (run_handshake env fuel h w)
  unfolding run_handshake
  run_handshake-Ends fuel h w m =
      let t = drains.ticks w in
      Ends-mono (pending (env.tick_count w).1) (pending w) _ t (
        iterate-Ends _ (handshake_step-Lowers env pending drains h _) fuel (env.tick_count w).1
          (omega arith))

  run_secure_session-Ends :
      (fuel : ℕ) (h : Handle) (w : W)
      → pending w < fuel
      → Ends (pending w) (run_secure_session env fuel h w)
  unfolding run_secure_session
  run_secure_session-Ends fuel h w m =
      iterate-Ends _ (secure_step-Lowers env pending drains h) fuel w m

  abbrev measure : Handle × W → ℕ
  measure (h, w) = pending w + rank h.state

  -- A round that goes on lowers the measure; one that leaves does not run out of fuel.
  abbrev Falls : Handle × W → Next (Handle × W) (Option (Outcome W)) → Type 0
  Falls (h, w) (again (h', w')) = (pending w' ≤ pending w) × (measure (h', w') < measure (h, w))
  Falls (h, w) (stop none) = ⊥
  Falls (h, w) (stop (some o)) = Unit

  session_step-Falls :
      (fuel : ℕ) (h : Handle) (w : W)
      → pending w < fuel
      → Falls (h, w) (session_step env fuel (h, w))
  unfolding session_step
  session_step-Falls fuel h w m = ground (
    arith,
    run_idle-le h w,
    run_idle-rank h w,
    run_activated-falls env pending drains h w,
    run_handshake-Ends fuel h w m,
    run_handshake-Settled env fuel h w,
    run_secure_session-Ends fuel h w m,
    run_secure_session-Settled env fuel h w,
  )

  abbrev Returned : Option (Outcome W) → Type 0
  Returned r = (o : Outcome W) × (r ≡ some o)

  returned : (s : Handle × W) (r : Option (Outcome W)) → Falls s (stop r) → Returned r
  returned s none f = absurd f
  returned s (some o) f = (o, refl)

  keeps :
      (w : W) (s t : Handle × W)
      → pending s.1 ≤ pending w
      → Falls s (again t)
      → pending t.1 ≤ pending w
  keeps w s t p f = omega arith

  -- A phone that exchanges finitely many frames before it leaves ends the session: with more fuel
  -- than frames (and four rounds for the state changes) the call returns, so nothing it is sent
  -- keeps the lock in a session forever.
  pub transport_run_session-returns :
      (fuel : ℕ) (h : Handle) (w : W)
      → pending w + 4 < fuel
      → (o : Outcome W) × (transport_run_session env fuel h w ≡ some o)
  unfolding transport_run_session
  transport_run_session-returns fuel h w m =
      let start : Handle × W = (record h { state = TransportState.idle }, w) in
      let falls = λ (s : Handle × W) (p : pending s.1 ≤ pending w).
        session_step-Falls fuel s.0 s.1 (omega arith) in
      let keep =
        λ (s t : Handle × W) (p : pending s.1 ≤ pending w)
            (step : session_step env fuel s ≡ again t).
          keeps w s t p (rw step at (falls s p)) in
      let (r, ends) =
        iterate_total (λ s. pending s.1 ≤ pending w) measure (session_step env fuel) keep
          (λ s t p step. (rw step at (falls s p)).1) fuel start (omega arith) m in
      let (o, e) =
        iterate_inv (λ s. pending s.1 ≤ pending w) Returned (session_step env fuel) keep
          (λ s r p step. returned s r (rw step at (falls s p))) fuel start r (omega arith) ends in
      (o, ap join ends ∙ e)
