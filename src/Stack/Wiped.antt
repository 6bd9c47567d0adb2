-- ===== src/Stack/Wiped.antt =====
-- The transport's state beside the session's stage and key material
-- (components/transport/src/transport.c, components/session/src/session.c).
use smart_lock_firmware.Common.{ℕ, ◌≡◌, ◌≢◌, inl, inr, subst, some, arith}
use smart_lock_firmware.Transport.Apdu.{TransportErr}
use smart_lock_firmware.Transport.Machine.{TransportState, Handle, Outcome, invoke_erase}
use smart_lock_firmware.Transport.Run.{transport_run_session}
use smart_lock_firmware.Transport.Tracking.{Tracks, transport_run_session-tracks}
use smart_lock_firmware.Transport.Exits.{transport_run_session-exits}
use smart_lock_firmware.Session.State.{Stage, session_on_erase}
use smart_lock_firmware.Session.State
use smart_lock_firmware.Session.Erase.{IsClean, session_on_erase-IsClean, session_on_apdu-stages}
use smart_lock_firmware.Stack.{Link, World, blank_rapdu, stack_env}

-- The session that each state of the transport goes with.
abbrev pub Agrees : {L C : Type 0} → TransportState → World L C → Type 0
Agrees TransportState.idle w = IsClean w.session
Agrees TransportState.activated w = IsClean w.session
Agrees TransportState.handshake w = w.session.stage ≡ Stage.ephemeral
Agrees TransportState.secure_session w = w.session.stage ≡ Stage.established
Agrees TransportState.released w = IsClean w.session

Agrees-link :
    {L C : Type 0} (s : TransportState) (w : World L C) (l : L)
    → Agrees s w
    → Agrees s (record w { link = l })
Agrees-link TransportState.idle w l a = a
Agrees-link TransportState.activated w l a = a
Agrees-link TransportState.handshake w l a = a
Agrees-link TransportState.secure_session w l a = a
Agrees-link TransportState.released w l a = a

module _ {L C : Type 0} (link : Link L) (env : State.Env C) where
  agrees : Tracks (stack_env link env) Agrees
  unfolding invoke_erase
  agrees = record {
    activate = λ t w a. a;
    receive = λ s t w a. Agrees-link s w (link.lli_receive_apdu t w.link).2 a;
    send = λ s b t w a. Agrees-link s w (link.lli_send_apdu b t w.link).1 a;
    link_status = λ s w a. Agrees-link s w (link.lli_get_link_status w.link).1 a;
    abort = λ w a. a;
    ticks = λ s w a. Agrees-link s w (link.tick_count w.link).1 a;
    delay = λ t w a. a;
    selected = λ w a. a;
    erase = λ w. session_on_erase-IsClean env w.session w.context;
    first_message =
        λ c w a i e. ground (arith, session_on_apdu-stages env w.session c blank_rapdu w.context);
    third_message =
        λ c w a i e. ground (arith, session_on_apdu-stages env w.session c blank_rapdu w.context);
    secure_payload =
        λ c w a i e. ground (arith, session_on_apdu-stages env w.session c blank_rapdu w.context);
  }

  -- From a clean session, whatever the phone sends: the transport is in SECURE_SESSION only with an
  -- established session and in HANDSHAKE only with an ephemeral one, and when the call returns for
  -- any other reason than a fatal bus, no key material is left.
  pub transport_run_session-wipes :
      (fuel : ℕ) (h : Handle) (w : World L C) (o : Outcome (World L C))
      → IsClean w.session
      → transport_run_session (stack_env link env) fuel h w ≡ some o
      → Agrees o.handle.state o.world × (o.err ≢ TransportErr.bus_fatal → IsClean o.world.session)
  transport_run_session-wipes fuel h w o clean e =
      let a = transport_run_session-tracks (stack_env link env) Agrees agrees fuel h w o clean e in
      (
        a,
        λ f. elim (transport_run_session-exits (stack_env link env) fuel h w o e) [
          | inl idle ↦ subst (λ s. Agrees s o.world) idle a
          | inr fatal ↦ absurd (f fatal)
        ],
      )
