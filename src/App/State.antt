-- ===== src/App/State.antt =====
-- The state of the Application task (the static variables of components/app_module/src/app_module.c
-- and provision_mgr.c) with the modules that it drives, and what it calls of the platform.
use smart_lock_firmware.Common.{ℕ, Bool, List, ◌∷◌, Bytes}
use smart_lock_firmware.Session.Crypto.{Primitives}
use smart_lock_firmware.Session.State.{Session}
use smart_lock_firmware.Storage.Hal.{Nvs}
use smart_lock_firmware.Storage.KeyStore.{KeyStore}
use smart_lock_firmware.Storage.IntentLog.{IntentErr, intent_log_write}
use smart_lock_firmware.Comm.{Comm}
use smart_lock_firmware.Actuator.{Aai}

-- The opcodes and status bytes of components/app_module/include/app_cmd.h.
abbrev pub cmd_provision : ℕ
cmd_provision = 0x01

abbrev pub cmd_unlock : ℕ
cmd_unlock = 0x02

abbrev pub cmd_lock : ℕ
cmd_lock = 0x03

abbrev pub cmd_get_status : ℕ
cmd_get_status = 0x04

abbrev pub cmd_revoke_key : ℕ
cmd_revoke_key = 0x05

abbrev pub app_status_ok : ℕ
app_status_ok = 0x00

abbrev pub app_status_invalid_secret : ℕ
app_status_invalid_secret = 0x01

abbrev pub app_status_unauthorized : ℕ
app_status_unauthorized = 0x02

abbrev pub app_status_invalid_cmd : ℕ
app_status_invalid_cmd = 0x03

abbrev pub app_status_busy : ℕ
app_status_busy = 0x05

abbrev pub app_status_internal : ℕ
app_status_internal = 0x06

abbrev pub app_status_key_exists : ℕ
app_status_key_exists = 0x08

abbrev pub app_status_not_found : ℕ
app_status_not_found = 0x09

abbrev pub app_key_len : ℕ
app_key_len = 32

abbrev pub app_secret_len : ℕ
app_secret_len = 32

-- The values of `app_lock_state_t`.
abbrev pub lock_state_locked : ℕ
lock_state_locked = 0

abbrev pub lock_state_unlocked : ℕ
lock_state_unlocked = 1

-- The values of `app_last_error_t`.
abbrev pub last_error_none : ℕ
last_error_none = 0

abbrev pub last_error_motor_stall : ℕ
last_error_motor_stall = 1

abbrev pub last_error_motor_fault : ℕ
last_error_motor_fault = 2

abbrev pub last_error_tamper : ℕ
last_error_tamper = 3

abbrev pub last_error_internal : ℕ
last_error_internal = 4

pub data DisplayCall : Type 0 where
  clear success error provisioning : DisplayCall
  render_qr : Bytes → DisplayCall

-- The platform under the Application: NVS over `F`, the actuator backend over `A`, the timer and the
-- random numbers over `T`, and the crypto primitives.
pub record Env (F A T : Type 0) : Type 0 where
  pub nvs : Nvs F
  pub aai : Aai A
  pub fill_random : ℕ → T → Bytes × T
  pub timer_us : T → ℕ × T
  pub prim : Primitives

pub record App (F A T : Type 0) : Type 0 where
  pub keys : KeyStore F
  pub intent_target : ℕ
  pub bolt : A
  pub platform : T
  pub comm : Comm
  pub session : Session
  pub lock_pk : Bytes
  pub last_error : ℕ
  pub actuation_target : ℕ
  pub actuation_pending : Bool
  pub provision_active : Bool
  pub provision_deadline_us : ℕ
  pub provision_secret : Bytes
  pub display : List DisplayCall

abbrev pub show : {F A T : Type 0} → App F A T → DisplayCall → App F A T
show a call = record a { display = call ∷ a.display }

module _ {F A T : Type 0} (env : Env F A T) where
  unfoldable pub write_intent : App F A T → ℕ → IntentErr × App F A T
  unfolding intent_log_write
  write_intent a target =
      let (e, log) =
        intent_log_write env.nvs (record { hal = a.keys.hal; target = a.intent_target }) target in
      (e, record a { keys = record (a.keys) { hal = log.hal }; intent_target = log.target })
