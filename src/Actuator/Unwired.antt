-- ===== src/Actuator/Unwired.antt =====
-- The backends components/actuator/src/aai_backend_rmt.c and aai_backend_mcpwm.c, whose motors are not
-- wired: a command fails and the state is a fault.
use smart_lock_firmware.Actuator.{AaiErr, AaiState, Aai}

module _ {A : Type 0} where
  unfoldable pub rmt_init : A → AaiErr × A
  rmt_init a = (AaiErr.fault, a)

  unfoldable pub rmt_ops : Aai A
  rmt_ops = record {
    open_bolt = λ a. (AaiErr.fault, a);
    close_bolt = λ a. (AaiErr.fault, a);
    stop_bolt = λ a. (AaiErr.ok, a);
    get_status = λ a. (AaiState.fault, a);
  }

  unfoldable pub mcpwm_init : A → AaiErr × A
  mcpwm_init a = (AaiErr.fault, a)

  unfoldable pub mcpwm_ops : Aai A
  mcpwm_ops = record {
    open_bolt = λ a. (AaiErr.fault, a);
    close_bolt = λ a. (AaiErr.fault, a);
    stop_bolt = λ a. (AaiErr.ok, a);
    get_status = λ a. (AaiState.fault, a);
  }
