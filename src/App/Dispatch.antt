-- ===== src/App/Dispatch.antt =====
-- `app_dispatch` of components/app_module/src/app_dispatch.c. The response is the list of its bytes.
pub mod Replies
use smart_lock_firmware.Common.{
  ℕ, suc, Bool, true, false, not, ◌||◌, List, [], ◌∷◌, Bytes, ◌==◌, if◌then◌else◌, length,
}
use smart_lock_firmware.App.State.{
  Env, App, cmd_provision, cmd_unlock, cmd_lock, cmd_get_status, cmd_revoke_key, app_status_ok,
  app_status_unauthorized, app_status_invalid_cmd, app_status_busy, lock_state_locked,
  lock_state_unlocked,
}
use smart_lock_firmware.App.Provision.{provision_mgr_abort, provision_mgr_handle_cmd}

-- `app_dispatch_ctx_t`.
pub record Context : Type 0 where
  pub lock_state : ℕ
  pub last_error : ℕ
  pub battery_pct : ℕ
  pub session_authorized : Bool
  pub provisioning_active : Bool

unfoldable pub lock_state_allows_actuation : ℕ → Bool
lock_state_allows_actuation state = state == lock_state_locked || state == lock_state_unlocked

-- The `switch` outside of a provisioning window.
unfoldable pub dispatch_opcode : Context → ℕ → Bytes → Bytes
unfolding lock_state_allows_actuation
dispatch_opcode ctx opcode args =
    if opcode == cmd_unlock || opcode == cmd_lock
    then (if not (length args == 0)
        then app_status_invalid_cmd ∷ []
        else if not ctx.session_authorized
        then app_status_unauthorized ∷ []
        else if not (lock_state_allows_actuation ctx.lock_state)
        then app_status_busy ∷ []
        else app_status_ok ∷ [])
    else if opcode == cmd_get_status
    then (if not (length args == 0)
        then app_status_invalid_cmd ∷ []
        else app_status_ok ∷ ctx.battery_pct ∷ ctx.lock_state ∷ ctx.last_error ∷ [])
    else if opcode == cmd_revoke_key
    then (if not (length args == 32)
        then app_status_invalid_cmd ∷ []
        else if not ctx.session_authorized
        then app_status_unauthorized ∷ []
        else app_status_ok ∷ [])
    else app_status_invalid_cmd ∷ []

module _ {F A T : Type 0} (env : Env F A T) where
  unfoldable pub app_dispatch : Context → Bytes → App F A T → Bytes × App F A T
  unfolding dispatch_opcode
  app_dispatch ctx [] a = (app_status_invalid_cmd ∷ [], a)
  app_dispatch ctx (opcode ∷ args) a =
      if ctx.provisioning_active
      then (if not (opcode == cmd_provision)
          then (app_status_invalid_cmd ∷ [], provision_mgr_abort env a)
          else provision_mgr_handle_cmd env a (opcode ∷ args))
      else (dispatch_opcode ctx opcode args, a)
