-- ===== src/App/Dispatch/Replies.antt =====
-- The answers of components/app_module/src/app_dispatch.c.
use smart_lock_firmware.Common.{ℕ, ◌≤◌, ◌≡◌, ◌↔◌, ◌⊎◌, true, false, [], ◌∷◌, Bytes, length, arith}
use smart_lock_firmware.App.State.{
  Env, App, cmd_unlock, cmd_lock, cmd_revoke_key, app_status_ok, lock_state_locked,
  lock_state_unlocked,
}
use smart_lock_firmware.App.Dispatch.{
  Context, lock_state_allows_actuation, dispatch_opcode, app_dispatch,
}

module _ {F A T : Type 0} (env : Env F A T) where
  -- Outside of a provisioning window the dispatcher changes nothing, its answer has between 1 and 4
  -- bytes, and the answer to UNLOCK or LOCK is the single byte 0x00 exactly when the command is one
  -- byte, the session is authorized and the bolt rests in LOCKED or UNLOCKED; the answer to
  -- REVOKE_KEY is 0x00 exactly for 32 bytes of key in an authorized session.
  pub app_dispatch-answers :
      (ctx : Context) (opcode : ℕ) (args : Bytes) (a : App F A T)
      → ctx.provisioning_active ≡ false
      → let (resp, a') = app_dispatch env ctx (opcode ∷ args) a in
        (a' ≡ a)
        × (1 ≤ length resp)
        × (length resp ≤ 4)
        × ((opcode ≡ cmd_unlock) ⊎ (opcode ≡ cmd_lock)
            → (resp ≡ app_status_ok ∷ []) ↔ (
                (length args ≡ 0)
                × (ctx.session_authorized ≡ true)
                × ((ctx.lock_state ≡ lock_state_locked) ⊎ (ctx.lock_state ≡ lock_state_unlocked))))
        × (opcode ≡ cmd_revoke_key
            → (resp ≡ app_status_ok ∷ []) ↔ ((length args ≡ 32) × (ctx.session_authorized ≡ true)))
  unfolding app_dispatch dispatch_opcode lock_state_allows_actuation
  app_dispatch-answers ctx opcode args a p =
      (ground arith, ground arith, ground arith, λ h. ground (arith, h), λ h. ground (arith, h))
