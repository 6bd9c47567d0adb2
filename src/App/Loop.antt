-- ===== src/App/Loop.antt =====
-- The loop of `app_task` in components/app_module/src/app_module.c.
pub mod Commands
pub mod Window
pub mod Answers
use smart_lock_firmware.Common.{
  ℕ, suc, Bool, true, false, not, ◌&&◌, List, [], ◌∷◌, Bytes, ltb, ◌==◌, if◌then◌else◌, length,
  drop,
}
use smart_lock_firmware.Storage.KeyStore.{KeyStoreErr, key_store_revoke}
use smart_lock_firmware.Storage.IntentLog.{intent_target_locked, intent_target_unlocked}
use smart_lock_firmware.Comm.{
  CommErr, AppEvent, Comm, comm_module_poll_event, comm_module_get_command,
  comm_module_complete_response,
}
use smart_lock_firmware.App.State.{
  Env, App, DisplayCall, show, cmd_unlock, cmd_lock, cmd_revoke_key, app_status_ok,
  app_status_internal, app_status_not_found, last_error_tamper,
}
use smart_lock_firmware.App.Actuation.{current_lock_state, start_actuation, actuation_tick}
use smart_lock_firmware.App.Provision.{provision_mgr_arm, provision_mgr_is_active}
use smart_lock_firmware.App.Dispatch.{Context, app_dispatch}
use smart_lock_firmware.Integrity.{IntegrityStatus}

abbrev pub app_battery_pct_default : ℕ
app_battery_pct_default = 100

abbrev pub app_response_buf : ℕ
app_response_buf = 227

abbrev pub app_provision_window_ms : ℕ
app_provision_window_ms = 60000

-- `cmd[0] == opcode`; a command without bytes has no opcode.
abbrev pub has_opcode : ℕ → Bytes → Bool
has_opcode opcode [] = false
has_opcode opcode (x ∷ xs) = x == opcode

-- The response is the byte 0x00, alone or followed by more.
abbrev pub says_ok : Bytes → Bool
says_ok resp = has_opcode app_status_ok resp

module _ {F A T : Type 0} (env : Env F A T) where
  abbrev pub perform_integrity_checks : IntegrityStatus → App F A T → App F A T
  perform_integrity_checks IntegrityStatus.ok a = a
  perform_integrity_checks IntegrityStatus.tamper_detected a = record a {
    last_error = last_error_tamper;
  }
  perform_integrity_checks IntegrityStatus.err a = a

  -- `held` is the answer of `ProvisionButton_OnTaskNotified()`.
  unfoldable pub provisioning_button_tick : Bool → App F A T → App F A T
  unfolding provision_mgr_is_active provision_mgr_arm
  provisioning_button_tick held a =
      let (active, a1) = provision_mgr_is_active env a in
      let (armed, a2) = provision_mgr_arm env a1 app_provision_window_ms in
      if not held
      then a
      else if active
      then a1
      else if armed
      then show a2 DisplayCall.provisioning
      else a2

  -- The state of the lock that the dispatcher is given.
  unfoldable pub dispatch_context : App F A T → Context × App F A T
  unfolding current_lock_state provision_mgr_is_active
  dispatch_context a =
      let (state, a1) = current_lock_state env a in
      let (active, a2) = provision_mgr_is_active env a1 in
      (
        record {
          lock_state = state;
          last_error = a.last_error;
          battery_pct = app_battery_pct_default;
          session_authorized = a.comm.session_active;
          provisioning_active = active;
        },
        a2,
      )

  -- The removal of the key after the dispatch, which corrects the response.
  unfoldable pub revoke_after : Bytes → Bytes → App F A T → Bytes × App F A T
  unfolding key_store_revoke
  revoke_after cmd resp a =
      let (e, keys) = key_store_revoke env.nvs a.keys (drop 1 cmd) in
      let a1 = record a { keys = keys } in
      let revoked : Bytes × App F A T = (elim e [
        | KeyStoreErr.ok ↦ (resp, a1)
        | KeyStoreErr.not_found ↦ (app_status_not_found ∷ drop 1 resp, a1)
        | _ ↦ (app_status_internal ∷ drop 1 resp, a1)
      ]) in
      if has_opcode cmd_revoke_key cmd && length cmd == 33 && says_ok resp
      then revoked
      else (resp, a)

  unfoldable pub complete : Bytes → App F A T → App F A T
  unfolding comm_module_complete_response
  complete resp a = record a { comm = comm_module_complete_response a.comm resp }

  -- The actuation that follows the reply.
  unfoldable pub actuate_after : Bytes → Bytes → App F A T → App F A T
  unfolding start_actuation
  actuate_after cmd resp a =
      if has_opcode cmd_unlock cmd && length resp == 1 && says_ok resp
      then start_actuation env intent_target_unlocked a
      else if has_opcode cmd_lock cmd && length resp == 1 && says_ok resp
      then start_actuation env intent_target_locked a
      else a

  -- One command, from the dispatch to the actuation: the final response and the state.
  unfoldable pub answer_command : Bytes → App F A T → Bytes × App F A T
  unfolding dispatch_context app_dispatch revoke_after complete actuate_after
  answer_command cmd a =
      let (ctx, a1) = dispatch_context a in
      let (resp, a2) = app_dispatch env ctx cmd a1 in
      let (final, a3) = revoke_after cmd resp a2 in
      (final, actuate_after cmd final (complete final a3))

  -- The work of a wake: the event, then the command.
  unfoldable pub app_wake : App F A T → App F A T
  unfolding answer_command comm_module_poll_event comm_module_get_command
  app_wake a =
      let (ev, g) = comm_module_poll_event (record (a.comm) { app_notified = 0 }) in
      let a1 = record a { comm = g } in
      let (e, cmd) = comm_module_get_command g app_response_buf in
      let answered = (answer_command cmd a1).1 in
      if not g.command_valid then a1 else elim e [ CommErr.ok ↦ answered | _ ↦ a1 ]

  -- One round of the loop. `meanwhile` is what the other tasks do to the shared state while this
  -- one waits.
  unfoldable pub app_round :
      IntegrityStatus → Bool → (App F A T → App F A T) → App F A T → App F A T
  unfolding provisioning_button_tick actuation_tick app_wake
  app_round integrity held meanwhile a =
      let a1 = actuation_tick env (perform_integrity_checks integrity a) in
      let a2 = meanwhile (provisioning_button_tick held a1) in
      if a2.comm.app_notified == 0 then a2 else app_wake a2
