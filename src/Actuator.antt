-- ===== src/Actuator.antt =====
-- The actuator interface of components/actuator/include/aai.h, `aai.c`, and the simulated backend of
-- components/actuator/src/aai_backend_stub.c.
pub mod Stub
pub mod Unwired
use smart_lock_firmware.Common.{ℕ, Bool, true, false}

pub data AaiState : Type 0 where
  unknown locked unlocked moving jammed fault : AaiState

pub data AaiErr : Type 0 where
  ok invalid_state busy fault storage internal : AaiErr

-- The value of an `aai_state_t`.
abbrev pub aai_code : AaiState → ℕ
aai_code AaiState.unknown = 0
aai_code AaiState.locked = 1
aai_code AaiState.unlocked = 2
aai_code AaiState.moving = 3
aai_code AaiState.jammed = 4
aai_code AaiState.fault = 5

-- `aai_backend_ops_t`, over a backend's state and the clock that it reads. The functions of aai.c
-- only pass their calls on to these.
pub record Aai (A : Type 0) : Type 0 where
  pub open_bolt : A → AaiErr × A
  pub close_bolt : A → AaiErr × A
  pub stop_bolt : A → AaiErr × A
  pub get_status : A → AaiState × A
