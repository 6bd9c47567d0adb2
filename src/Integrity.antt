-- ===== src/Integrity.antt =====
-- The integrity component, components/integrity/src: the dispatcher integrity.c and its two backends.
use smart_lock_firmware.Common.{◌≡◌, ◌↔◌, arith, Bool, true, false, if◌then◌else◌}

pub data IntegrityStatus : Type 0 where
  ok tamper_detected err : IntegrityStatus

pub data IntegrityInitErr : Type 0 where
  ok err : IntegrityInitErr

-- `integrity_backend_ops_t`, over the state of a sensor.
pub record Backend (I : Type 0) : Type 0 where
  pub init : I → IntegrityInitErr × I
  pub run_checks : I → IntegrityStatus × I

-- `s_last` and the sensor.
pub record Integrity (I : Type 0) : Type 0 where
  pub last : IntegrityStatus
  pub sensor : I

module _ {I : Type 0} (backend : Backend I) where
  unfoldable pub integrity_init : Integrity I → IntegrityInitErr × Integrity I
  integrity_init s =
      let (e, sensor) = backend.init s.sensor in
      let last : IntegrityStatus = (elim e [
        | IntegrityInitErr.ok ↦ IntegrityStatus.ok
        | IntegrityInitErr.err ↦ s.last
      ]) in
      (e, record { last = last; sensor = sensor })

  unfoldable pub integrity_run_checks : Integrity I → IntegrityStatus × Integrity I
  integrity_run_checks s =
      let (status, sensor) = backend.run_checks s.sensor in
      (status, record { last = status; sensor = sensor })

  unfoldable pub integrity_get_status : Integrity I → IntegrityStatus
  integrity_get_status s = s.last

  unfoldable pub integrity_is_tampered : Integrity I → Bool
  integrity_is_tampered s = elim s.last [ IntegrityStatus.tamper_detected ↦ true | _ ↦ false ]

  -- A sensor that fails after a tamper was seen hides it: only the last check counts.
  is_tampered-last :
      (s : Integrity I)
      → (integrity_is_tampered (integrity_run_checks s).1 ≡ true)
        ↔ ((integrity_run_checks s).0 ≡ IntegrityStatus.tamper_detected)
  unfolding integrity_is_tampered integrity_run_checks
  is_tampered-last s = (λ h. ground (arith, h), λ h. ground (arith, h))

-- The simulated backend of integrity_backend_stub.c, with `s_sim_tamper`.
unfoldable pub integrity_stub : {I : Type 0} → Bool → Backend I
integrity_stub sim_tamper = record {
  init = λ i. (IntegrityInitErr.ok, i);
  run_checks = λ i. (if sim_tamper then IntegrityStatus.tamper_detected else IntegrityStatus.ok, i);
}

-- The backend of integrity_backend_tamper_gpio.c, whose sensor is not wired.
unfoldable pub integrity_tamper_gpio : {I : Type 0} → Backend I
integrity_tamper_gpio = record {
  init = λ i. (IntegrityInitErr.err, i);
  run_checks = λ i. (IntegrityStatus.err, i);
}
