-- ===== src/App/Loop/Answers.antt =====
-- The completion of commands by the task in components/app_module/src/app_module.c.
use smart_lock_firmware.Common.{
  ℕ, suc, ◌+◌, ◌≤◌, ◌≡◌, true, false, [], ◌∷◌, Bytes, length, take, arith,
}
use smart_lock_firmware.Storage.IntentLog.{intent_target_unlocked, intent_target_locked}
use smart_lock_firmware.Comm.{
  Comm, mailbox_capacity, comm_module_poll_event, comm_module_get_command,
  comm_module_complete_response, comm_module_force_abort,
}
use smart_lock_firmware.App.State.{Env, App, write_intent}
use smart_lock_firmware.App.Actuation.{start_actuation, current_lock_state}
use smart_lock_firmware.App.Provision.{
  disarm, commit_key, claimed_key, provision_mgr_is_active, provision_mgr_abort,
  provision_mgr_handle_cmd,
}
use smart_lock_firmware.App.Dispatch.{
  Context, app_dispatch, dispatch_opcode, lock_state_allows_actuation,
}
use smart_lock_firmware.App.Loop.{
  answer_command, dispatch_context, revoke_after, complete, actuate_after, app_wake,
}

-- The mailbox was completed, once, with an answer.
abbrev pub Completed : Comm → Comm → Type 0
Completed g g' =
    (g'.command_valid ≡ false) × (g'.comm_notified ≡ g.comm_notified + 1) × (1 ≤ g'.response_length)

module _ {F A T : Type 0} (env : Env F A T) where
  -- The command in the mailbox and the notifications of the comm task are as before.
  Keeps : App F A T → App F A T → Type 0
  Keeps a a' =
      (a'.comm.command_valid ≡ a.comm.command_valid)
      × (a'.comm.comm_notified ≡ a.comm.comm_notified)
      × (a'.comm.response_length ≡ a.comm.response_length)

  -- There is an answer, and the mailbox is as before.
  Answers : App F A T → Bytes × App F A T → Type 0
  unfolding Keeps
  Answers a r = (1 ≤ length r.0) × Keeps a r.1

  commit_key-Answers : (a : App F A T) (pk : Bytes) → Answers a (commit_key env a pk)
  unfolding Answers commit_key disarm
  commit_key-Answers a pk = ground arith

  handle_cmd-Answers :
      (a : App F A T) (cmd : Bytes) → Answers a (provision_mgr_handle_cmd env a cmd)
  unfolding Answers provision_mgr_handle_cmd provision_mgr_is_active disarm
  handle_cmd-Answers a cmd =
      ground (arith, commit_key-Answers (provision_mgr_is_active env a).1 (claimed_key cmd))

  dispatch-Answers :
      (ctx : Context) (cmd : Bytes) (a : App F A T) → Answers a (app_dispatch env ctx cmd a)
  unfolding Answers app_dispatch dispatch_opcode lock_state_allows_actuation provision_mgr_abort
      disarm comm_module_force_abort
  dispatch-Answers ctx [] a = ground arith
  dispatch-Answers ctx (opcode ∷ args) a = ground (arith, handle_cmd-Answers a (opcode ∷ args))

  revoke_after-Answers :
      (cmd resp : Bytes) (a : App F A T) → 1 ≤ length resp → Answers a (revoke_after env cmd resp a)
  unfolding Answers revoke_after
  revoke_after-Answers cmd resp a h = ground arith

  start_actuation-Keeps : (target : ℕ) (a : App F A T) → Keeps a (start_actuation env target a)
  unfolding Keeps start_actuation write_intent
  start_actuation-Keeps target a = ground arith

  actuate_after-Keeps : (cmd resp : Bytes) (a : App F A T) → Keeps a (actuate_after env cmd resp a)
  unfolding Keeps actuate_after
  actuate_after-Keeps cmd resp a = ground (
    arith,
    start_actuation-Keeps intent_target_unlocked a,
    start_actuation-Keeps intent_target_locked a,
  )

  context-comm : (a : App F A T) → (dispatch_context env a).1.comm ≡ a.comm
  unfolding dispatch_context current_lock_state provision_mgr_is_active disarm
  context-comm a = ground arith

  take-nonempty : (n : ℕ) (resp : Bytes) → 1 ≤ length resp → 1 ≤ length (take (suc n) resp)
  take-nonempty n [] h = h
  take-nonempty n (x ∷ xs) h = omega arith

  complete-Completed :
      (resp : Bytes) (a : App F A T)
      → a.comm.command_valid ≡ true
      → 1 ≤ length resp
      → Completed a.comm (complete env resp a).comm
  unfolding complete comm_module_complete_response
  complete-Completed resp a v h = ground (arith, take-nonempty 226 resp h)

  answer_command-Completed :
      (cmd : Bytes) (a : App F A T)
      → a.comm.command_valid ≡ true
      → Completed a.comm (answer_command env cmd a).1.comm
  unfolding answer_command Answers Keeps
  answer_command-Completed cmd a v =
      let (ctx, a1) = dispatch_context env a in
      let (resp, a2) = app_dispatch env ctx cmd a1 in
      let (final, a3) = revoke_after env cmd resp a2 in
      let read = context-comm a in
      let (some_resp, dispatched) = dispatch-Answers ctx cmd a1 in
      let (some_final, removed) = revoke_after-Answers cmd resp a2 some_resp in
      let valid : a3.comm.command_valid ≡ true = ground (arith, read, dispatched, removed, v) in
      let done = complete-Completed final a3 valid some_final in
      ground (
        arith,
        read,
        dispatched,
        removed,
        done,
        actuate_after-Keeps cmd final (complete env final a3),
      )

  -- A command of at most 227 bytes that stands in the mailbox when the Application task wakes is
  -- completed by that wake, whatever it is and whatever the flash and the actuator do: the comm task
  -- is notified once, and the response has at least one byte.
  pub app_wake-completes :
      (a : App F A T)
      → a.comm.command_valid ≡ true
      → length a.comm.command ≤ mailbox_capacity
      → Completed a.comm (app_wake env a).comm
  unfolding app_wake comm_module_poll_event comm_module_get_command
  app_wake-completes a v h =
      let (ev, g) = comm_module_poll_event (record (a.comm) { app_notified = 0 }) in
      let (e, cmd) = comm_module_get_command g 227 in
      ground (arith, answer_command-Completed cmd (record a { comm = g }))
