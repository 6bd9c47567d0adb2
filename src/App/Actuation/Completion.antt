-- ===== src/App/Actuation/Completion.antt =====
-- What the polling of components/app_module/src/app_module.c makes of the bolt's state.
use smart_lock_firmware.Common.{ℕ, ◌≡◌, ◌≢◌, ◌⊎◌, true, false, ◌∷◌, ◌==◌, if◌then◌else◌, arith}
use smart_lock_firmware.Storage.IntentLog.{IntentErr, intent_target_unlocked, intent_log_write}
use smart_lock_firmware.Actuator.{AaiState, AaiErr}
use smart_lock_firmware.App.State.{
  Env, App, DisplayCall, write_intent, lock_state_locked, lock_state_unlocked,
  last_error_motor_fault, last_error_internal, last_error_motor_stall,
}
use smart_lock_firmware.App.Actuation.{start_actuation, actuation_tick}

module _ {F A T : Type 0} (env : Env F A T) where
  -- The intent comes before the motion. If it cannot be stored the bolt is not driven, no actuation
  -- is pending that was not, and the error is recorded; if it is stored and the bolt starts, the
  -- actuation is pending towards the state that was asked for; if the bolt does not start, nothing
  -- is pending and the fault is recorded.
  pub start_actuation_branches :
      (a : App F A T) (target : ℕ)
      → let stored = (write_intent env a target).0 in
        let open_it = env.aai.open_bolt a.bolt in
        let close_it = env.aai.close_bolt a.bolt in
        let driven = if target == intent_target_unlocked then open_it else close_it in
        let a' = start_actuation env target a in
        (stored ≢ IntentErr.ok
          → (a'.bolt ≡ a.bolt)
            × (a'.actuation_pending ≡ a.actuation_pending)
            × (a'.intent_target ≡ a.intent_target)
            × (a'.last_error ≡ last_error_internal))
        × (stored ≡ IntentErr.ok
            → driven.0 ≡ AaiErr.ok
            → (a'.bolt ≡ driven.1)
              × (a'.actuation_pending ≡ true)
              × (a'.intent_target ≡ target)
              × (a'.actuation_target ≡ (
                  if target == intent_target_unlocked
                  then lock_state_unlocked
                  else lock_state_locked)))
        × (stored ≡ IntentErr.ok
            → driven.0 ≢ AaiErr.ok
            → (a'.bolt ≡ driven.1)
              × (a'.actuation_pending ≡ false)
              × (a'.last_error ≡ last_error_motor_fault))
  unfolding start_actuation write_intent intent_log_write
  start_actuation_branches a target =
      (λ h. ground (arith, h), λ h k. ground (arith, h, k), λ h k. ground (arith, h, k))

  -- The bolt has reached the state that the actuation was started for.
  abbrev pub HasArrived : App F A T → Type 0
  HasArrived a =
      ((a.actuation_target ≡ lock_state_unlocked)
        × ((env.aai.get_status a.bolt).0 ≡ AaiState.unlocked))
      ⊎ ((a.actuation_target ≡ lock_state_locked)
          × ((env.aai.get_status a.bolt).0 ≡ AaiState.locked))

  -- The polling misses every arrival, since it compares values of two enumerations: a pending
  -- actuation whose bolt has arrived stays pending, its intent stays stored and no success is
  -- shown; and an unlock whose bolt still reports LOCKED is taken for completed, with success shown.
  pub actuation_tick_misses :
      (a : App F A T)
      → a.actuation_pending ≡ true
      → let a' = actuation_tick env a in
        (HasArrived a
          → (a'.actuation_pending ≡ true)
            × (a'.intent_target ≡ a.intent_target)
            × (a'.keys ≡ a.keys)
            × (a'.display ≡ a.display))
        × (a.actuation_target ≡ lock_state_unlocked
            → (env.aai.get_status a.bolt).0 ≡ AaiState.locked
            → (a'.actuation_pending ≡ false) × (a'.display ≡ DisplayCall.success ∷ a.display))
  unfolding actuation_tick write_intent
  actuation_tick_misses a p = (λ h. ground (arith, h), λ h k. ground (arith, h, k))

  -- A jam or a fault ends a pending actuation: the bolt is stopped, and closed unless it then
  -- reports LOCKED; the error is recorded and shown.
  pub actuation_tick_jam :
      (a : App F A T)
      → a.actuation_pending ≡ true
      → (a.actuation_target ≡ lock_state_unlocked) ⊎ (a.actuation_target ≡ lock_state_locked)
      → let (st, polled) = env.aai.get_status a.bolt in
        (st ≡ AaiState.jammed) ⊎ (st ≡ AaiState.fault)
        → let a' = actuation_tick env a in
          let (again, seen) = env.aai.get_status (env.aai.stop_bolt polled).1 in
          (a'.actuation_pending ≡ false)
          × (a'.last_error ≡ last_error_motor_stall)
          × (a'.display ≡ DisplayCall.error ∷ a.display)
          × (again ≡ AaiState.locked → a'.bolt ≡ seen)
          × (again ≢ AaiState.locked → a'.bolt ≡ (env.aai.close_bolt seen).1)
  unfolding actuation_tick write_intent
  actuation_tick_jam a p t h = (
    ground (arith, h),
    ground (arith, h),
    ground (arith, h),
    λ e. ground (arith, h, e),
    λ e. ground (arith, h, e),
  )
