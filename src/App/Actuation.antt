-- ===== src/App/Actuation.antt =====
-- Actuation in components/app_module/src/app_module.c: the start of a move, its polling, and the
-- recovery at boot.
pub mod Completion
pub mod Recovery
pub mod Cached
use smart_lock_firmware.Common.{
  ℕ, zero, suc, ◌+◌, ◌*◌, Bool, true, false, not, ◌&&◌, ◌||◌, Option, none, some, [], ltb, ◌==◌,
  if◌then◌else◌, Next, again, stop, iterate,
}
use smart_lock_firmware.Storage.IntentLog.{
  IntentErr, intent_target_none, intent_target_locked, intent_target_unlocked,
}
use smart_lock_firmware.Actuator.{AaiState, AaiErr, Aai, aai_code}
use smart_lock_firmware.App.State.{
  Env, App, DisplayCall, show, write_intent, lock_state_locked, lock_state_unlocked,
  last_error_motor_stall, last_error_motor_fault, last_error_internal,
}

unfoldable pub aai_state_to_app_lock_state : AaiState → ℕ
aai_state_to_app_lock_state AaiState.locked = 0
aai_state_to_app_lock_state AaiState.unlocked = 1
aai_state_to_app_lock_state AaiState.moving = 2
aai_state_to_app_lock_state AaiState.jammed = 3
aai_state_to_app_lock_state AaiState.fault = 4
aai_state_to_app_lock_state AaiState.unknown = 5

abbrev pub app_boot_recovery_timeout_ms : ℕ
app_boot_recovery_timeout_ms = 10000

module _ {F A T : Type 0} (env : Env F A T) where
  unfoldable pub current_lock_state : App F A T → ℕ × App F A T
  unfolding aai_state_to_app_lock_state
  current_lock_state a =
      let (st, bolt) = env.aai.get_status a.bolt in
      (aai_state_to_app_lock_state st, record a { bolt = bolt })

  -- `AAI_Open()` or `AAI_Close()`.
  drive : ℕ → App F A T → AaiErr × App F A T
  drive target a =
      let (e, bolt) =
        if target == intent_target_unlocked
        then env.aai.open_bolt a.bolt
        else env.aai.close_bolt a.bolt in
      (e, record a { bolt = bolt })

  -- The move itself, once the intent is stored.
  start_move : ℕ → App F A T → App F A T
  unfolding drive write_intent
  start_move target a =
      let (e, a1) = drive target (record a {
        actuation_target =
            if target == intent_target_unlocked then lock_state_unlocked else lock_state_locked;
        actuation_pending = true;
      }) in
      elim e [
        | AaiErr.ok ↦ a1
        | _ ↦
            (write_intent env
              (record a1 { last_error = last_error_motor_fault; actuation_pending = false })
              intent_target_none).1
      ]

  unfoldable pub start_actuation : ℕ → App F A T → App F A T
  unfolding start_move write_intent
  start_actuation target a =
      let (e, a1) = write_intent env a target in
      elim e [
        | IntentErr.ok ↦ start_move target a1
        | _ ↦ record a1 { last_error = last_error_internal }
      ]

  -- The auto-reversal of a jammed or faulty bolt.
  auto_reverse : App F A T → App F A T
  unfolding write_intent
  auto_reverse a =
      let (_, b1) = env.aai.stop_bolt a.bolt in
      let (st, b2) = env.aai.get_status b1 in
      let b3 : A = (elim st [ AaiState.locked ↦ b2 | _ ↦ (env.aai.close_bolt b2).1 ]) in
      show
        (write_intent env
          (record a { last_error = last_error_motor_stall; bolt = b3; actuation_pending = false })
          intent_target_none).1
        DisplayCall.error

  -- `st == s_actuation_target` compares an `aai_state_t` with an `app_lock_state_t`, as numbers.
  unfoldable pub actuation_tick : App F A T → App F A T
  unfolding auto_reverse write_intent
  actuation_tick a =
      let (st, bolt) = env.aai.get_status a.bolt in
      let a1 = record a { bolt = bolt } in
      let arrived =
        show (write_intent env (record a1 { actuation_pending = false }) intent_target_none).1
          DisplayCall.success in
      let polled : App F A T = (elim st [
        | AaiState.jammed ↦ auto_reverse a1
        | AaiState.fault ↦ auto_reverse a1
        | _ ↦ a1
      ]) in
      if not a.actuation_pending
      then a
      else if aai_code st == a.actuation_target
      then arrived
      else polled

  -- One round of the bounded wait for the recovery; `delay` stands for `vTaskDelay`.
  recovery_step : (T → T) → ℕ → App F A T → Next (App F A T) (App F A T)
  recovery_step delay deadline a =
      let (now, t1) = env.timer_us a.platform in
      let a1 = record a { platform = t1 } in
      let (st, bolt) = env.aai.get_status a.bolt in
      let a2 = record a1 { bolt = bolt } in
      let looked : Next (App F A T) (App F A T) = (elim st [
        | AaiState.locked ↦ stop a2
        | AaiState.unlocked ↦ stop a2
        | AaiState.jammed ↦ stop (record a2 { last_error = last_error_motor_stall })
        | AaiState.fault ↦ stop (record a2 { last_error = last_error_motor_stall })
        | _ ↦ again (record a2 { platform = delay t1 })
      ]) in
      if ltb now deadline then looked else stop a1

  -- An intermediate bolt is driven to the recorded intent, to LOCKED if there is none.
  recover_move : (T → T) → ℕ → App F A T → Option (App F A T)
  unfolding drive recovery_step write_intent
  recover_move delay fuel a =
      let target =
        if a.intent_target == intent_target_unlocked
        then intent_target_unlocked
        else intent_target_locked in
      let (e, a1) = drive target a in
      let (start, t1) = env.timer_us a1.platform in
      let waited =
        iterate fuel (recovery_step delay (start + app_boot_recovery_timeout_ms * 1000))
          (record a1 { platform = t1 }) in
      elim e [
        | AaiErr.ok ↦ elim waited [
          | none ↦ none
          | some a2 ↦ some (write_intent env a2 intent_target_none).1
        ]
        | _ ↦ some (record a1 { last_error = last_error_motor_stall })
      ]

  unfoldable pub boot_recovery : (T → T) → ℕ → App F A T → Option (App F A T)
  unfolding recover_move write_intent
  boot_recovery delay fuel a =
      let (st, bolt) = env.aai.get_status a.bolt in
      let a1 = record a { bolt = bolt } in
      let unresolved =
        some
          (write_intent env (record a1 { last_error = last_error_motor_stall })
            intent_target_none).1 in
      elim st [
        | AaiState.moving ↦ recover_move delay fuel a1
        | AaiState.locked ↦ some (write_intent env a1 intent_target_none).1
        | AaiState.unlocked ↦ some (write_intent env a1 intent_target_none).1
        | _ ↦ unresolved
      ]
