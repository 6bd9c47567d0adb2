-- ===== src/App/Provision.antt =====
-- The provisioning window of components/app_module/src/provision_mgr.c.
pub mod Commit
use Prim.Native.Nat.{bit_or, bit_xor}
use smart_lock_firmware.Common.{
  ℕ, ◌+◌, ◌*◌, Bool, true, false, not, ◌&&◌, ◌||◌, List, [], ◌∷◌, Bytes, ltb, ◌==◌, if◌then◌else◌,
  length, take, drop,
}
use smart_lock_firmware.Session.Channel.{
  session_arm_provisioning_window, session_provision_verify_identity,
}
use smart_lock_firmware.Storage.KeyStore.{KeyStoreErr, key_store_contains, key_store_add}
use smart_lock_firmware.Comm.{comm_module_force_abort}
use smart_lock_firmware.App.State.{
  Env, App, DisplayCall, show, app_status_ok, app_status_invalid_secret, app_status_invalid_cmd,
  app_status_internal, app_status_key_exists, app_key_len, app_secret_len,
}

-- The loop `diff |= pa[i] ^ pb[i]`.
diff_from : ℕ → Bytes → Bytes → ℕ
diff_from diff [] b = diff
diff_from diff (x ∷ a) [] = diff
diff_from diff (x ∷ a) (y ∷ b) = diff_from (bit_or diff (bit_xor x y)) a b

-- `constant_time_memcmp(a, b, len) == 0` on two buffers of that length.
unfoldable pub constant_time_eq : Bytes → Bytes → Bool
unfolding diff_from
constant_time_eq a b = diff_from 0 a b == 0

-- The two arguments of CMD_PROVISION.
unfoldable pub received_secret : Bytes → Bytes
received_secret cmd = take 32 (drop 1 cmd)

unfoldable pub claimed_key : Bytes → Bytes
claimed_key cmd = drop 33 cmd

module _ {F A T : Type 0} (env : Env F A T) where
  unfoldable pub disarm : App F A T → App F A T
  disarm a = show (record a { provision_active = false }) DisplayCall.clear

  unfoldable pub provision_mgr_arm : App F A T → ℕ → Bool × App F A T
  provision_mgr_arm a timeout_ms =
      let (secret, t1) = env.fill_random app_secret_len a.platform in
      let (session, t2) = session_arm_provisioning_window env.timer_us a.session timeout_ms t1 in
      let (now, t3) = env.timer_us t2 in
      (
        true,
        show
            (show
              (record a {
                platform = t3;
                session = session;
                provision_secret = secret;
                provision_deadline_us = now + timeout_ms * 1000;
                provision_active = true;
              })
              (DisplayCall.render_qr secret))
            DisplayCall.provisioning,
      )

  unfoldable pub provision_mgr_is_active : App F A T → Bool × App F A T
  unfolding disarm
  provision_mgr_is_active a =
      let (now, t1) = env.timer_us a.platform in
      let a1 = record a { platform = t1 } in
      if not a.provision_active
      then (false, a)
      else if ltb a.provision_deadline_us now
      then (false, disarm a1)
      else (true, a1)

  unfoldable pub provision_mgr_abort : App F A T → App F A T
  unfolding disarm comm_module_force_abort
  provision_mgr_abort a = disarm (record a { comm = (comm_module_force_abort a.comm).1 })

  -- Step 3, for a key that was proved: the response and the state, the window closed.
  unfoldable pub commit_key : App F A T → Bytes → Bytes × App F A T
  unfolding disarm
  commit_key a pk =
      let (e, keys) = key_store_add env.nvs a.keys pk in
      let stored : Bytes × App F A T = (elim e [
        | KeyStoreErr.ok ↦ (app_status_ok ∷ a.lock_pk, record a { keys = keys })
        | _ ↦ (app_status_internal ∷ [], record a { keys = keys })
      ]) in
      let (resp, a1) =
        if key_store_contains a.keys pk then (app_status_key_exists ∷ [], a) else stored in
      (resp, show (disarm a1) DisplayCall.success)

  unfoldable pub provision_mgr_handle_cmd : App F A T → Bytes → Bytes × App F A T
  unfolding disarm commit_key provision_mgr_is_active
  provision_mgr_handle_cmd a cmd =
      let (active, a1) = provision_mgr_is_active a in
      if not active
      then (app_status_invalid_cmd ∷ [], a1)
      else if not (length cmd == 65)
      then (app_status_invalid_cmd ∷ [], disarm a1)
      else if not (constant_time_eq (received_secret cmd) a1.provision_secret)
      then (app_status_invalid_secret ∷ [], disarm a1)
      else if not (session_provision_verify_identity env.prim a1.session (claimed_key cmd))
      then (app_status_invalid_secret ∷ [], disarm a1)
      else commit_key a1 (claimed_key cmd)
