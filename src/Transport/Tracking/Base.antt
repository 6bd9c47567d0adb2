-- ===== src/Transport/Tracking/Base.antt =====
-- An invariant between the transport's state and the world below and above it, for
-- components/transport/src/transport.c: what the layers promise, and the answers and teardowns.
use smart_lock_firmware.Common.{ℕ, ◌≡◌, Bytes, Next, again, stop, arith}
use smart_lock_firmware.Transport.Apdu.{
  TransportErr, Capdu, Rapdu, rapdu_bytes, ins_handshake_init, ins_handshake_finish,
  ins_secure_payload,
}
use smart_lock_firmware.Transport.Machine.{
  TransportState, Handle, Env, Outcome, invoke_erase, send_status, send_rapdu, erase_release,
  abort_release, reject_release, deliver, answer,
}

-- What the layers below and above promise about `Q`, one predicate on the world for each state.
pub record Tracks {W : Type 0} (env : Env W) (Q : TransportState → W → Type 0) : Type 0 where
  pub activate :
      (t : ℕ) (w : W) → Q TransportState.idle w → Q TransportState.idle (env.lli_activate t w).1
  pub receive : (s : TransportState) (t : ℕ) (w : W) → Q s w → Q s (env.lli_receive_apdu t w).2
  pub send :
      (s : TransportState) (b : Bytes) (t : ℕ) (w : W) → Q s w → Q s (env.lli_send_apdu b t w).1
  pub link_status : (s : TransportState) (w : W) → Q s w → Q s (env.lli_get_link_status w).1
  pub abort : (w : W) → Q TransportState.released w → Q TransportState.idle (env.lli_abort w).1
  pub ticks : (s : TransportState) (w : W) → Q s w → Q s (env.tick_count w).1
  pub delay : (t : ℕ) (w : W) → Q TransportState.idle w → Q TransportState.idle (env.delay_ms t w)
  pub selected : (w : W) → Q TransportState.idle w → Q TransportState.activated w
  pub erase : (w : W) → Q TransportState.released (invoke_erase env w)
  pub first_message :
      (c : Capdu) (w : W)
      → Q TransportState.activated w
      → c.ins ≡ ins_handshake_init
      → (env.on_apdu c w).0 ≡ TransportErr.ok
      → Q TransportState.handshake (env.on_apdu c w).2
  pub third_message :
      (c : Capdu) (w : W)
      → Q TransportState.handshake w
      → c.ins ≡ ins_handshake_finish
      → (env.on_apdu c w).0 ≡ TransportErr.ok
      → Q TransportState.secure_session (env.on_apdu c w).2
  pub secure_payload :
      (c : Capdu) (w : W)
      → Q TransportState.secure_session w
      → c.ins ≡ ins_secure_payload
      → (env.on_apdu c w).0 ≡ TransportErr.ok
      → Q TransportState.secure_session (env.on_apdu c w).2

module _ {W : Type 0} (env : Env W) (Q : TransportState → W → Type 0) (tracks : Tracks env Q) where
  abbrev pub Holds : Outcome W → Type 0
  Holds o = Q o.handle.state o.world

  -- An iteration goes on in state `s`, or leaves with an outcome that is tracked.
  abbrev pub HoldsNext : TransportState → Next W (Outcome W) → Type 0
  HoldsNext s (again w) = Q s w
  HoldsNext s (stop o) = Holds o

  pub send_status-Q : (s : TransportState) (a b : ℕ) (w : W) → Q s w → Q s (send_status env a b w).1
  unfolding send_status
  send_status-Q s a b w q = tracks.send s _ _ w q

  pub erase_release-Q : (h : Handle) (w : W) → Holds (erase_release env h w)
  unfolding erase_release
  erase_release-Q h w = tracks.erase w

  pub abort_release-Q : (h : Handle) (w : W) → Holds (abort_release env h w)
  unfolding abort_release
  abort_release-Q h w = send_status-Q _ _ _ _ (tracks.erase w)

  pub reject_release-Q : (h : Handle) (w : W) → Holds (reject_release env h w)
  unfolding reject_release
  reject_release-Q h w = tracks.erase _

  pub deliver-Q :
      (next : TransportState) (h : Handle) (r : Rapdu) (w : W)
      → Q next w
      → Holds (deliver env next h r w)
  unfolding deliver
  deliver-Q next h r w q = ground (
    arith,
    tracks.send next (rapdu_bytes r) env.apdu_timeout_ms w q,
    tracks.erase w,
    tracks.erase (send_rapdu env r w).1,
  )

  pub answer-Q :
      (next : TransportState) (h : Handle) (c : Capdu) (w : W)
      → ((env.on_apdu c w).0 ≡ TransportErr.ok → Q next (env.on_apdu c w).2)
      → Holds (answer env next h c w)
  unfolding answer
  answer-Q next h c w q = ground (
    arith,
    reject_release-Q h (env.on_apdu c w).2,
    deliver-Q next h (env.on_apdu c w).1 (env.on_apdu c w).2,
  )
