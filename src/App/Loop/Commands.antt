-- ===== src/App/Loop/Commands.antt =====
-- Commands and the bolt, in components/app_module/src/app_module.c.
use smart_lock_firmware.Common.{
  ℕ, ◌≡◌, sym, ◌∙◌, inl, inr, ◌⊎◌, refl, true, false, [], ◌∷◌, Bytes, arith,
}
use smart_lock_firmware.Actuator.{AaiState}
use smart_lock_firmware.App.State.{
  Env, App, cmd_unlock, cmd_lock, lock_state_locked, lock_state_unlocked, app_status_ok,
}
use smart_lock_firmware.App.Actuation.{current_lock_state, aai_state_to_app_lock_state}
use smart_lock_firmware.App.Provision.{
  provision_mgr_is_active, provision_mgr_abort, provision_mgr_handle_cmd, commit_key, disarm,
  claimed_key,
}
use smart_lock_firmware.App.Dispatch.{
  Context, app_dispatch, dispatch_opcode, lock_state_allows_actuation,
}
use smart_lock_firmware.App.Loop.{
  answer_command, dispatch_context, revoke_after, complete, actuate_after,
}

module _ {F A T : Type 0} (env : Env F A T) where
  commit_key-bolt : (a : App F A T) (pk : Bytes) → (commit_key env a pk).1.bolt ≡ a.bolt
  unfolding commit_key disarm
  commit_key-bolt a pk = ground arith

  app_dispatch-bolt :
      (ctx : Context) (cmd : Bytes) (a : App F A T) → (app_dispatch env ctx cmd a).1.bolt ≡ a.bolt
  unfolding app_dispatch provision_mgr_handle_cmd provision_mgr_is_active provision_mgr_abort disarm
  app_dispatch-bolt ctx [] a = refl
  app_dispatch-bolt ctx (opcode ∷ args) a =
      ground
        (arith, commit_key-bolt (provision_mgr_is_active env a).1 (claimed_key (opcode ∷ args)))

  revoke_after-bolt :
      (cmd resp : Bytes) (a : App F A T) → (revoke_after env cmd resp a).1.bolt ≡ a.bolt
  unfolding revoke_after
  revoke_after-bolt cmd resp a = ground arith

  revoke_after-other :
      (opcode : ℕ) (args resp : Bytes) (a : App F A T)
      → (opcode ≡ cmd_unlock) ⊎ (opcode ≡ cmd_lock)
      → (revoke_after env (opcode ∷ args) resp a).0 ≡ resp
  unfolding revoke_after
  revoke_after-other opcode args resp a h = ground arith

  actuate_after-none : (resp : Bytes) (a : App F A T) → (actuate_after env [] resp a).bolt ≡ a.bolt
  unfolding actuate_after
  actuate_after-none resp a = refl

  -- A bolt that moved after the reply moved for an accepted UNLOCK or LOCK.
  actuate_after-moves :
      (opcode : ℕ) (args resp : Bytes) (a : App F A T)
      → ((actuate_after env (opcode ∷ args) resp a).bolt ≡ a.bolt)
        ⊎ (((opcode ≡ cmd_unlock) ⊎ (opcode ≡ cmd_lock)) × (resp ≡ app_status_ok ∷ []))
  unfolding actuate_after
  actuate_after-moves opcode args [] a = ground arith
  actuate_after-moves opcode args (x ∷ []) a = ground arith
  actuate_after-moves opcode args (x ∷ y ∷ zs) a = ground arith

  -- What the dispatcher demands of an UNLOCK or LOCK that it accepts.
  app_dispatch-accepts :
      (ctx : Context) (opcode : ℕ) (args : Bytes) (a : App F A T)
      → (opcode ≡ cmd_unlock) ⊎ (opcode ≡ cmd_lock)
      → (app_dispatch env ctx (opcode ∷ args) a).0 ≡ app_status_ok ∷ []
      → (args ≡ [])
        × (ctx.session_authorized ≡ true)
        × (ctx.provisioning_active ≡ false)
        × ((ctx.lock_state ≡ lock_state_locked) ⊎ (ctx.lock_state ≡ lock_state_unlocked))
  unfolding app_dispatch dispatch_opcode lock_state_allows_actuation
  app_dispatch-accepts ctx opcode [] a h e = ground arith
  app_dispatch-accepts ctx opcode (x ∷ args) a h e = ground arith

  dispatch_context-reads :
      (a : App F A T)
      → let (ctx, a1) = dispatch_context env a in
        (ctx.session_authorized ≡ a.comm.session_active)
        × (ctx.provisioning_active ≡ (provision_mgr_is_active env a).0)
        × (ctx.lock_state ≡ aai_state_to_app_lock_state (env.aai.get_status a.bolt).0)
        × (a1.bolt ≡ (env.aai.get_status a.bolt).1)
  unfolding dispatch_context current_lock_state provision_mgr_is_active disarm
  dispatch_context-reads a = ground arith

  at_rest :
      (st : AaiState)
      → (aai_state_to_app_lock_state st ≡ lock_state_locked)
        ⊎ (aai_state_to_app_lock_state st ≡ lock_state_unlocked)
      → (st ≡ AaiState.locked) ⊎ (st ≡ AaiState.unlocked)
  unfolding aai_state_to_app_lock_state
  at_rest st h = ground arith

  -- A command does to the bolt at most what its polling does, unless it is the single byte UNLOCK or
  -- LOCK, in an active session, outside of a provisioning window, with the bolt in LOCKED or
  -- UNLOCKED, and the answer is the byte 0x00.
  pub answer_command-moves :
      (cmd : Bytes) (a : App F A T)
      → let (state, polled) = env.aai.get_status a.bolt in
        let (resp, a') = answer_command env cmd a in
        (a'.bolt ≡ polled)
        ⊎ (((cmd ≡ cmd_unlock ∷ []) ⊎ (cmd ≡ cmd_lock ∷ []))
            × (resp ≡ app_status_ok ∷ [])
            × (a.comm.session_active ≡ true)
            × ((provision_mgr_is_active env a).0 ≡ false)
            × ((state ≡ AaiState.locked) ⊎ (state ≡ AaiState.unlocked)))
  unfolding answer_command complete
  answer_command-moves [] a =
      let (ctx, a1) = dispatch_context env a in
      let (resp, a2) = app_dispatch env ctx [] a1 in
      let (final, a3) = revoke_after env [] resp a2 in
      let (_, _, _, polled) = dispatch_context-reads a in
      inl (
        actuate_after-none final (complete env final a3)
        ∙ revoke_after-bolt [] resp a2
        ∙ app_dispatch-bolt ctx [] a1
        ∙ polled)
  answer_command-moves (opcode ∷ args) a =
      let cmd = opcode ∷ args in
      let (ctx, a1) = dispatch_context env a in
      let (resp, a2) = app_dispatch env ctx cmd a1 in
      let (final, a3) = revoke_after env cmd resp a2 in
      let (auth, window, state, polled) = dispatch_context-reads a in
      elim (actuate_after-moves opcode args final (complete env final a3)) [
        | inl e ↦ inl (e ∙ revoke_after-bolt cmd resp a2 ∙ app_dispatch-bolt ctx cmd a1 ∙ polled)
        | inr (u, ok) ↦
            let (alone, authorized, closed, resting) =
              app_dispatch-accepts ctx opcode args a1 u
                (sym (revoke_after-other opcode args resp a2 u) ∙ ok) in
            inr (
              ground (arith, u, alone),
              ok,
              sym auth ∙ authorized,
              sym window ∙ closed,
              at_rest _ (ground (arith, state, resting)),
            )
      ]
