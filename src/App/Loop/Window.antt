-- ===== src/App/Loop/Window.antt =====
-- Commands in a provisioning window, components/app_module/src/app_module.c.
use smart_lock_firmware.Common.{ℕ, ◌≡◌, ◌∙◌, true, false, [], ◌∷◌, Bytes, arith}
use smart_lock_firmware.Storage.IntentLog.{intent_target_unlocked, intent_target_locked}
use smart_lock_firmware.Actuator.{AaiState}
use smart_lock_firmware.Comm.{comm_module_complete_response, comm_module_force_abort}
use smart_lock_firmware.App.State.{Env, App, write_intent, cmd_unlock, app_status_ok}
use smart_lock_firmware.App.Actuation.{
  start_actuation, current_lock_state, aai_state_to_app_lock_state,
}
use smart_lock_firmware.App.Provision.{
  disarm, commit_key, claimed_key, provision_mgr_is_active, provision_mgr_abort,
  provision_mgr_handle_cmd,
}
use smart_lock_firmware.App.Dispatch.{
  Context, app_dispatch, dispatch_opcode, lock_state_allows_actuation,
}
use smart_lock_firmware.App.Loop.{
  answer_command, dispatch_context, revoke_after, complete, actuate_after,
}

module _ {F A T : Type 0} (env : Env F A T) where
  -- The window is closed and the session is as active as before.
  ClosedFrom : App F A T → App F A T → Type 0
  ClosedFrom a a' = (a'.provision_active ≡ false) × (a'.comm.session_active ≡ a.comm.session_active)

  commit_key-ClosedFrom : (a : App F A T) (pk : Bytes) → ClosedFrom a (commit_key env a pk).1
  unfolding ClosedFrom commit_key disarm
  commit_key-ClosedFrom a pk = ground arith

  handle_cmd-ClosedFrom :
      (a : App F A T) (cmd : Bytes) → ClosedFrom a (provision_mgr_handle_cmd env a cmd).1
  unfolding ClosedFrom provision_mgr_handle_cmd provision_mgr_is_active disarm
  handle_cmd-ClosedFrom a cmd =
      ground (arith, commit_key-ClosedFrom (provision_mgr_is_active env a).1 (claimed_key cmd))

  dispatch-ClosedFrom :
      (ctx : Context) (opcode : ℕ) (args : Bytes) (a : App F A T)
      → ctx.provisioning_active ≡ true
      → ClosedFrom a (app_dispatch env ctx (opcode ∷ args) a).1
  unfolding ClosedFrom app_dispatch provision_mgr_abort disarm comm_module_force_abort
  dispatch-ClosedFrom ctx opcode args a h = ground (arith, handle_cmd-ClosedFrom a (opcode ∷ args))

  start_actuation-ClosedFrom :
      (target : ℕ) (a : App F A T)
      → a.provision_active ≡ false
      → ClosedFrom a (start_actuation env target a)
  unfolding ClosedFrom start_actuation write_intent
  start_actuation-ClosedFrom target a h = ground arith

  after-ClosedFrom :
      (cmd resp : Bytes) (a : App F A T)
      → a.provision_active ≡ false
      → let (final, a3) = revoke_after env cmd resp a in
        ClosedFrom a (actuate_after env cmd final (complete env final a3))
  unfolding ClosedFrom revoke_after actuate_after complete comm_module_complete_response
  after-ClosedFrom cmd resp a h =
      let (final, a3) = revoke_after env cmd resp a in
      let a4 = complete env final a3 in
      ground (
        arith,
        start_actuation-ClosedFrom intent_target_unlocked a4,
        start_actuation-ClosedFrom intent_target_locked a4,
      )

  context-window :
      (a : App F A T)
      → let (ctx, a1) = dispatch_context env a in
        (ctx.provisioning_active ≡ (provision_mgr_is_active env a).0) × (a1.comm ≡ a.comm)
  unfolding dispatch_context current_lock_state provision_mgr_is_active disarm
  context-window a = ground arith

  -- Any command with a byte that comes in an open window closes it, whatever it is answered, and
  -- leaves the session as active as it was.
  answer_command-ClosedFrom :
      (opcode : ℕ) (args : Bytes) (a : App F A T)
      → (provision_mgr_is_active env a).0 ≡ true
      → ClosedFrom a (answer_command env (opcode ∷ args) a).1
  unfolding ClosedFrom answer_command
  answer_command-ClosedFrom opcode args a h =
      let cmd = opcode ∷ args in
      let (ctx, a1) = dispatch_context env a in
      let (resp, a2) = app_dispatch env ctx cmd a1 in
      let (window, same) = context-window a in
      let (closed, active) = dispatch-ClosedFrom ctx opcode args a1 (window ∙ h) in
      let (closed', active') = after-ClosedFrom cmd resp a2 closed in
      (closed', ground (arith, same, active, active'))

  -- In an active session without a window, UNLOCK on a locked bolt is accepted and starts the move.
  unlock_accepted :
      (a : App F A T)
      → a.provision_active ≡ false
      → a.comm.session_active ≡ true
      → (env.aai.get_status a.bolt).0 ≡ AaiState.locked
      → answer_command env (cmd_unlock ∷ []) a ≡ (
        app_status_ok ∷ [],
        start_actuation env intent_target_unlocked
            (complete env (app_status_ok ∷ []) (current_lock_state env a).1),
      )
  unfolding answer_command dispatch_context app_dispatch dispatch_opcode lock_state_allows_actuation
      revoke_after actuate_after provision_mgr_is_active current_lock_state
      aai_state_to_app_lock_state
  unlock_accepted a p s l = ground arith

  -- A session that is active when a window is open, established without a known key, keeps the
  -- right to UNLOCK after the window: when a command of at least one byte comes first, whatever it is, a
  -- failed CMD_PROVISION included, the next UNLOCK on a locked bolt is answered with 0x00 and starts the
  -- move.
  pub unlock_after_window :
      (opcode : ℕ) (args : Bytes) (a : App F A T)
      → (provision_mgr_is_active env a).0 ≡ true
      → a.comm.session_active ≡ true
      → let a1 = (answer_command env (opcode ∷ args) a).1 in
        (env.aai.get_status (a1.bolt)).0 ≡ AaiState.locked
        → answer_command env (cmd_unlock ∷ []) a1 ≡ (
          app_status_ok ∷ [],
          start_actuation env intent_target_unlocked
              (complete env (app_status_ok ∷ []) (current_lock_state env a1).1),
        )
  unfolding ClosedFrom
  unlock_after_window opcode args a p s l =
      let (closed, active) = answer_command-ClosedFrom opcode args a p in
      unlock_accepted (answer_command env (opcode ∷ args) a).1 closed (active ∙ s) l
