-- ===== src/Transport/Tracking/Session.antt =====
-- An invariant between the transport's state and the world below and above it, for
-- components/transport/src/transport.c: `transport_run_session`.
use smart_lock_firmware.Common.{
  ℕ, ◌≡◌, inl, inr, Option, none, some, Option-cases, Next, again, stop, iterate, iterate_inv,
  arith,
}
use smart_lock_firmware.Transport.Machine.{TransportState, Handle, Env, Outcome}
use smart_lock_firmware.Transport.States.{run_handshake, run_secure_session}
use smart_lock_firmware.Transport.Run.{join-eq_some, session_step, transport_run_session}
use smart_lock_firmware.Transport.Tracking.Base.{Tracks, Holds, HoldsNext}
use smart_lock_firmware.Transport.Tracking.Handlers.{
  run_idle-Q, run_activated-Q, handshake_step-Q, secure_step-Q,
}

module _ {W : Type 0} (env : Env W) (Q : TransportState → W → Type 0) (tracks : Tracks env Q) where
  abbrev HoldsOption : Option (Outcome W) → Type 0
  HoldsOption none = Unit
  HoldsOption (some o) = Holds env Q tracks o

  abbrev HoldsStep : Next (Handle × W) (Option (Outcome W)) → Type 0
  HoldsStep (again (h, w)) = Q h.state w
  HoldsStep (stop o) = HoldsOption o

  -- A loop whose body keeps the invariant of its state ends with a tracked outcome.
  iterate-Q :
      (s : TransportState) (body : W → Next W (Outcome W))
      → ((w : W) → Q s w → HoldsNext env Q tracks s (body w))
      → (fuel : ℕ) (w : W) → Q s w
      → HoldsOption (iterate fuel body w)
  iterate-Q s body keep fuel w q = elim (Option-cases (iterate fuel body w)) [
    | inl e ↦ rw e tt
    | inr (o, e) ↦ rw e (
        iterate_inv (Q s) (Holds env Q tracks) body (λ v t p e. rw e at (keep v p))
          (λ v r p e. rw e at (keep v p)) fuel w o q e)
  ]

  run_handshake-Q :
      (fuel : ℕ) (h : Handle) (w : W)
      → h.state ≡ TransportState.handshake
      → Q TransportState.handshake w
      → HoldsOption (run_handshake env fuel h w)
  unfolding run_handshake
  run_handshake-Q fuel h w e q =
      iterate-Q TransportState.handshake _ (λ v p. handshake_step-Q env Q tracks h _ v e p) fuel
        (env.tick_count w).1 (tracks.ticks _ w q)

  run_secure_session-Q :
      (fuel : ℕ) (h : Handle) (w : W)
      → h.state ≡ TransportState.secure_session
      → Q TransportState.secure_session w
      → HoldsOption (run_secure_session env fuel h w)
  unfolding run_secure_session
  run_secure_session-Q fuel h w e q =
      iterate-Q TransportState.secure_session _ (λ v p. secure_step-Q env Q tracks h v e p) fuel w q

  session_step-Q :
      (fuel : ℕ) (h : Handle) (w : W) → Q h.state w → HoldsStep (session_step env fuel (h, w))
  unfolding session_step
  session_step-Q fuel h w q = ground (
    arith,
    run_idle-Q env Q tracks h w,
    run_activated-Q env Q tracks h w,
    run_handshake-Q fuel h w,
    run_secure_session-Q fuel h w,
    tracks.abort w,
  )

  -- Whatever the link delivers, a session that starts where the invariant of IDLE holds ends where
  -- the invariant of its final state holds, on every exit.
  pub transport_run_session-tracks :
      (fuel : ℕ) (h : Handle) (w : W) (o : Outcome W)
      → Q TransportState.idle w
      → transport_run_session env fuel h w ≡ some o
      → Q o.handle.state o.world
  unfolding transport_run_session
  transport_run_session-tracks fuel h w o q e =
      iterate_inv (λ s. Q s.0.state s.1) HoldsOption (session_step env fuel)
        (λ s t p step. rw step at (session_step-Q fuel s.0 s.1 p))
        (λ s r p step. rw step at (session_step-Q fuel s.0 s.1 p)) fuel _ (some o) q
        (join-eq_some _ o e)
