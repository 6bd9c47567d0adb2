-- ===== src/Actuator/Stub.antt =====
-- The simulated backend of components/actuator/src/aai_backend_stub.c.
use smart_lock_firmware.Common.{
  ℕ, ◌+◌, ◌*◌, ◌≤◌, ◌<◌, ◌≡◌, ◌≢◌, ◌⊎◌, Bool, ltb, ◌==◌, if◌then◌else◌, arith,
}
use smart_lock_firmware.Actuator.{AaiState, AaiErr, Aai, aai_code}

-- `now` is the next reading of the timer; the configuration is the simulated jam and the time that
-- a move takes.
pub record Stub : Type 0 where
  pub state : AaiState
  pub target : AaiState
  pub move_deadline_us : ℕ
  pub now : ℕ

unfoldable pub stub_init : Stub → Stub
stub_init s = record s { state = AaiState.locked }

module _ (sim_jam : Bool) (move_timeout_ms : ℕ) where
  unfoldable pub stub_start_motion : AaiState → Stub → AaiErr × Stub
  stub_start_motion target s =
      let started : AaiErr × Stub = (
        AaiErr.ok,
        record s {
          target = target;
          move_deadline_us = s.now + move_timeout_ms * 1000;
          state = AaiState.moving;
        },
      ) in
      elim s.state [
        | AaiState.moving ↦ (AaiErr.busy, s)
        | AaiState.jammed ↦ (AaiErr.invalid_state, s)
        | AaiState.fault ↦ (AaiErr.invalid_state, s)
        | _ ↦ if aai_code s.state == aai_code target then (AaiErr.ok, s) else started
      ]

  unfoldable pub stub_stop : Stub → AaiErr × Stub
  stub_stop s = elim s.state [
    | AaiState.moving ↦
        (AaiErr.ok, record s { state = AaiState.unknown; target = AaiState.unknown })
    | _ ↦ (AaiErr.ok, s)
  ]

  unfoldable pub stub_get_status : Stub → AaiState × Stub
  stub_get_status s = elim s.state [
    | AaiState.moving ↦
        if ltb s.now s.move_deadline_us
        then (AaiState.moving, s)
        else if sim_jam
        then (AaiState.jammed, record s { state = AaiState.jammed; target = AaiState.unknown })
        else (s.target, record s { state = s.target; target = AaiState.unknown })
    | _ ↦ (s.state, s)
  ]

  abbrev pub stub_ops : Aai Stub
  stub_ops = record {
    open_bolt = stub_start_motion AaiState.unlocked;
    close_bolt = stub_start_motion AaiState.locked;
    stop_bolt = stub_stop;
    get_status = stub_get_status;
  }

  -- A move that starts from rest reports MOVING until its time is over, and from then on the target,
  -- or JAMMED in the simulated jam; it reports the target at no earlier time.
  pub stub_motion :
      (target : AaiState) (s : Stub) (later : ℕ)
      → (s.state ≡ AaiState.locked) ⊎ (s.state ≡ AaiState.unlocked)
      → (target ≡ AaiState.locked) ⊎ (target ≡ AaiState.unlocked)
      → s.state ≢ target
      → let (e, s') = stub_start_motion target s in
        let seen = (stub_get_status (record s' { now = later })).0 in
        (e ≡ AaiErr.ok)
        × (later < s.now + move_timeout_ms * 1000 → seen ≡ AaiState.moving)
        × (s.now + move_timeout_ms * 1000 ≤ later
            → seen ≡ (if sim_jam then AaiState.jammed else target))
  unfolding stub_start_motion stub_get_status
  stub_motion target s later h k n = ground arith
