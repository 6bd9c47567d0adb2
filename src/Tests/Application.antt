-- ===== src/Tests/Application.antt =====
-- Runs of the Application task and of the simulated actuator.
use smart_lock_firmware.Common.{
  ℕ, ◌≡◌, ◌≢◌, ◌⊎◌, refl, true, false, [], ◌∷◌, ◌++◌, Bytes, length, replicate,
}
use smart_lock_firmware.App.Provision.Commit.{provision_mgr_handle_cmd-commits}
use smart_lock_firmware.Session.State.{session_init}
use smart_lock_firmware.Session.Channel.{session_provision_verify_identity}
use smart_lock_firmware.Storage.KeyStore.{authorized, key_store_contains}
use smart_lock_firmware.Storage.KeyStore.View.{IsValid}
use smart_lock_firmware.Storage.IntentLog.{intent_target_unlocked}
use smart_lock_firmware.Actuator.{AaiState}
use smart_lock_firmware.Actuator.Stub.{Stub, stub_get_status, stub_ops}
use smart_lock_firmware.App.State.{Env, App, cmd_unlock, cmd_lock, app_status_ok}
use smart_lock_firmware.App.Actuation.{current_lock_state, start_actuation}
use smart_lock_firmware.App.Provision.{
  constant_time_eq, received_secret, claimed_key, provision_mgr_is_active, provision_mgr_handle_cmd,
}
use smart_lock_firmware.App.Loop.{answer_command, complete}
use smart_lock_firmware.App.Loop.Commands.{answer_command-moves}
use smart_lock_firmware.App.Loop.Window.{unlock_after_window}
use smart_lock_firmware.Tests.Platform.{Flash, flash_nvs, toy, phone_key}
use smart_lock_firmware.Tests.Stores.{empty_store, empty_store-IsValid}
use smart_lock_firmware.Tests.Mailbox.{quiet_comm}

-- A bolt that takes 3 seconds, on a board whose timer stands at 1000.
abbrev pub board : Env Flash Stub ℕ
board = record {
  nvs = flash_nvs;
  aai = stub_ops false 3000;
  fill_random = λ n t. (replicate n 7, t);
  timer_us = λ t. (t, t);
  prim = toy;
}

abbrev pub locked_bolt : Stub
locked_bolt = record {
  state = AaiState.locked;
  target = AaiState.unknown;
  move_deadline_us = 0;
  now = 1000;
}

abbrev pub resting : App Flash Stub ℕ
resting = record {
  keys = empty_store;
  intent_target = 0;
  bolt = locked_bolt;
  platform = 1000;
  comm = record quiet_comm { command_valid = true; command = 2 ∷ [] };
  session = session_init;
  lock_pk = replicate 32 2;
  last_error = 0;
  actuation_target = 0;
  actuation_pending = false;
  provision_active = false;
  provision_deadline_us = 0;
  provision_secret = replicate 32 0;
  display = [];
}

-- A window is open, and a phone of which nothing was verified has proved its key in the session.
abbrev window_open : App Flash Stub ℕ
window_open = record resting {
  session = record session_init { m3_cached = true; cached_sig_p = replicate 64 9 };
  provision_active = true;
  provision_deadline_us = 60001000;
  provision_secret = replicate 32 7;
}

abbrev good_command : Bytes
good_command = 1 ∷ (replicate 32 7 ++ phone_key)

provision_mgr_handle_cmd-commits_example :
    let (active, a1) = provision_mgr_is_active board window_open in
    let (resp, a') = provision_mgr_handle_cmd board window_open good_command in
    IsValid (a'.keys)
    × (a'.provision_active ≡ false)
    × (((resp ≡ app_status_ok ∷ window_open.lock_pk)
          × (active ≡ true)
          × (length good_command ≡ 65)
          × (constant_time_eq (received_secret good_command) window_open.provision_secret ≡ true)
          × (session_provision_verify_identity toy window_open.session (claimed_key good_command)
              ≡ true)
          × (key_store_contains window_open.keys (claimed_key good_command) ≡ false)
          × (authorized (a'.keys) ≡ authorized window_open.keys ++ claimed_key good_command ∷ []))
        ⊎ ((authorized (a'.keys) ≡ authorized window_open.keys)
            × ((s : ℕ) × (resp ≡ s ∷ []) × (s ≢ app_status_ok))))
provision_mgr_handle_cmd-commits_example =
    provision_mgr_handle_cmd-commits board window_open good_command empty_store-IsValid

answer_command-moves_example :
    let (state, polled) = stub_get_status false 3000 locked_bolt in
    let (resp, a') = answer_command board (cmd_unlock ∷ []) resting in
    (a'.bolt ≡ polled)
    ⊎ (((◌≡◌ {A = Bytes} (cmd_unlock ∷ []) (cmd_unlock ∷ []))
          ⊎ (◌≡◌ {A = Bytes} (cmd_unlock ∷ []) (cmd_lock ∷ [])))
        × (resp ≡ app_status_ok ∷ [])
        × (quiet_comm.session_active ≡ true)
        × ((provision_mgr_is_active board resting).0 ≡ false)
        × ((state ≡ AaiState.locked) ⊎ (state ≡ AaiState.unlocked)))
answer_command-moves_example = answer_command-moves board (cmd_unlock ∷ []) resting

-- A CMD_PROVISION with a wrong secret.
abbrev bad_args : Bytes
bad_args = replicate 64 0

unlock_after_window_example :
    let a1 = (answer_command board (1 ∷ bad_args) window_open).1 in
    answer_command board (cmd_unlock ∷ []) a1 ≡ (
      app_status_ok ∷ [],
      start_actuation board intent_target_unlocked
          (complete board (app_status_ok ∷ []) (current_lock_state board a1).1),
    )
unfolding answer_command provision_mgr_is_active stub_get_status provision_mgr_handle_cmd
    constant_time_eq received_secret
unlock_after_window_example = unlock_after_window board 1 bad_args window_open refl refl refl
