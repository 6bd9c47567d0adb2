-- ===== src/Tests/Starts.antt =====
-- Starts of the firmware, on a flash that works and on one that fails once.
use smart_lock_firmware.Storage.Hal.{storage_hal_erase_key}
use smart_lock_firmware.Storage.Identity.{blob_pk, blob_sk}
use smart_lock_firmware.Actuator.Stub.{stub_get_status}
use smart_lock_firmware.Common.{bytes_eq}
use smart_lock_firmware.Common.{
  ℕ, ◌≡◌, ◌≢◌, refl, sym, ◌∙◌, Bool, true, false, some, ◌+◌, Bytes, replicate, arith, [], ◌++◌,
  if◌then◌else◌,
}
use smart_lock_firmware.Storage.Hal.{EspErr, Nvs}
use smart_lock_firmware.Storage.KeyStore.{KeyStoreErr, key_max}
use smart_lock_firmware.Storage.Identity.{key_store_identity_init, persist_identity, identity_key}
use smart_lock_firmware.Actuator.{AaiErr}
use smart_lock_firmware.Actuator.Stub.{Stub}
use smart_lock_firmware.Comm.{CommErr, comm_module_init}
use smart_lock_firmware.App.State.{Env}
use smart_lock_firmware.App.Actuation.{boot_recovery}
use smart_lock_firmware.App.Actuation.Recovery.{Advances, boot_recovery-returns}
use smart_lock_firmware.App.Start.{
  Device, CommConfig, Peers, Outcome, identity_init, app_module_get_comm_config, app_module_init,
  app_module_start, start_comm,
}
use smart_lock_firmware.App.Start.Pair.{start_comm-one_pair, start_comm-runs_on_zeros}
use smart_lock_firmware.Tests.Platform.{Flash, toy, put, empty_flash}
use smart_lock_firmware.Tests.Stores.{empty_store}
use smart_lock_firmware.Storage.Hal.{storage_hal_read_blob, storage_hal_write_blob, Namespace}
use smart_lock_firmware.Tests.Application.{board, resting, locked_bolt}
use smart_lock_firmware.Tests.Mailbox.{quiet_comm}
use smart_lock_firmware.Session.State.{session_init}

abbrev peers : Peers Stub
peers = record {
  display_init = true;
  aai_init = λ b. (AaiErr.ok, b);
  integrity_init = true;
  comm_resources = CommErr.ok;
  app_task = true;
}

abbrev key_pair : Bytes → Bytes × Bytes
key_pair seed = (replicate 64 6, replicate 32 2)

abbrev seed : Bytes
seed = replicate 32 7

abbrev tick : ℕ → ℕ
tick t = t + 1

-- The board after the reset that follows its first boot.
abbrev rebooted : Device Flash Stub ℕ
rebooted = record {
  app = record resting {
    keys = record empty_store {
      hal = record {
        inited = true;
        flash =
            put empty_flash Namespace.identity identity_key
              (some (replicate 64 6 ++ replicate 32 2));
      };
    };
  };
  identity_sk = replicate 64 0;
  identity_pk = replicate 32 0;
  identity_loaded = false;
}

abbrev started : Device Flash Stub ℕ
started = record rebooted {
  app = record rebooted.app { lock_pk = replicate 32 2; comm = comm_module_init resting.comm };
  identity_sk = replicate 64 6;
  identity_pk = replicate 32 2;
  identity_loaded = true;
}

abbrev config : CommConfig
config = record { local_sk = replicate 64 6; local_pk = replicate 32 2 }

start_comm-one_pair_example :
    (started.identity_sk ≡ config.local_sk)
    × (started.identity_pk ≡ config.local_pk)
    × (started.app.lock_pk ≡ config.local_pk)
unfolding start_comm identity_init key_store_identity_init storage_hal_read_blob bytes_eq
    app_module_init app_module_get_comm_config boot_recovery stub_get_status app_module_start
    blob_sk blob_pk storage_hal_erase_key
start_comm-one_pair_example =
    start_comm-one_pair board key_pair peers seed seed tick 4 rebooted started config refl refl

-- A flash without data whose first write fails; the state says whether that happened.
abbrev failing_nvs : Nvs Bool
failing_nvs = record {
  flash_init = λ f. (EspErr.ok, f);
  open_ns = λ ns f. (EspErr.ok, f);
  close_ns = λ ns f. f;
  get_blob = λ ns k cap f. (EspErr.not_found, []);
  set_blob = λ ns k b f. (if f then EspErr.ok else EspErr.failed, true);
  erase_key = λ ns k f. (EspErr.not_found, f);
  commit = λ ns f. (EspErr.ok, f);
}

abbrev failing_board : Env Bool Stub ℕ
failing_board = record {
  nvs = failing_nvs;
  aai = board.aai;
  fill_random = board.fill_random;
  timer_us = board.timer_us;
  prim = toy;
}

abbrev first_boot : Device Bool Stub ℕ
first_boot = record {
  app = record {
    keys = record {
      hal = record { inited = true; flash = false };
      keys = replicate key_max (replicate 32 0);
      count = 0;
    };
    intent_target = 0;
    bolt = locked_bolt;
    platform = 1000;
    comm = quiet_comm;
    session = session_init;
    lock_pk = replicate 32 0;
    last_error = 0;
    actuation_target = 0;
    actuation_pending = false;
    provision_active = false;
    provision_deadline_us = 0;
    provision_secret = replicate 32 0;
    display = [];
  };
  identity_sk = replicate 64 0;
  identity_pk = replicate 32 0;
  identity_loaded = false;
}

refused : (identity_init failing_board key_pair seed first_boot).0 ≡ KeyStoreErr.storage
unfolding identity_init key_store_identity_init storage_hal_read_blob persist_identity
    storage_hal_write_blob
refused = refl

not_ok : KeyStoreErr.storage ≢ KeyStoreErr.ok
not_ok e = cc e

advances : Advances failing_board tick (λ t. t)
advances = record { reads = λ t. refl; steady = λ t. omega arith; passes = λ t. omega arith }

start_comm-runs_on_zeros_example :
    (d' : Device Bool Stub ℕ) × (cfg : CommConfig) × (start_comm failing_board key_pair peers seed
        seed tick 10000001 first_boot
      ≡ some (Outcome.running, cfg, d'))
    × (cfg.local_sk ≡ replicate 64 0)
unfolding identity_init key_store_identity_init storage_hal_read_blob persist_identity
    storage_hal_write_blob
start_comm-runs_on_zeros_example =
    start_comm-runs_on_zeros failing_board key_pair peers seed seed tick 10000001 first_boot refl
      (λ e. not_ok (sym refused ∙ e)) refl
      (λ a. boot_recovery-returns failing_board tick (λ t. t) advances 10000001 a (omega arith))
      refl refl
