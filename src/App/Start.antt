-- ===== src/App/Start.antt =====
-- The start of the firmware: `AppModule_GetCommConfig`, `AppModule_Init` and `AppModule_Start` of
-- components/app_module/src/app_module.c, and `run_full_application` of main/smart_lock_firmware.c.
pub mod Pair
use smart_lock_firmware.Common.{ℕ, Bool, true, false, Option, none, some, Bytes, if◌then◌else◌}
use smart_lock_firmware.Storage.KeyStore.{KeyStoreErr, key_store_init}
use smart_lock_firmware.Storage.Identity.{Store, key_store_identity_init}
use smart_lock_firmware.Storage.IntentLog.{IntentErr, IntentLog, intent_log_init}
use smart_lock_firmware.Actuator.{AaiErr}
use smart_lock_firmware.Comm.{CommErr, comm_module_init}
use smart_lock_firmware.App.State.{Env, App, last_error_none}
use smart_lock_firmware.App.Actuation.{boot_recovery}

-- The Application with the lock's identity, which key_store.c keeps.
pub record Device (F A T : Type 0) : Type 0 where
  pub app : App F A T
  pub identity_sk : Bytes
  pub identity_pk : Bytes
  pub identity_loaded : Bool

-- The identity in `comm_module_config_t`.
pub record CommConfig : Type 0 where
  pub local_sk : Bytes
  pub local_pk : Bytes

pub data AppModuleErr : Type 0 where
  ok init task : AppModuleErr

-- How `run_full_application` ends: at a step that failed, or with its tasks running.
pub data Outcome : Type 0 where
  storage_failed display_failed actuator_failed integrity_failed : Outcome
  comm_failed app_failed start_failed running : Outcome

-- What the start calls besides: the initialisation of the peers, and whether the session, the link and
-- the two tasks could be made.
pub record Peers (A : Type 0) : Type 0 where
  pub display_init : Bool
  pub aai_init : A → AaiErr × A
  pub integrity_init : Bool
  pub comm_resources : CommErr
  pub app_task : Bool

module _ {F A T : Type 0} (env : Env F A T) (key_pair : Bytes → Bytes × Bytes) where
  -- `key_store_identity_init`, on the seed that the random numbers would give.
  unfoldable pub identity_init : Bytes → Device F A T → KeyStoreErr × Device F A T
  identity_init seed d =
      let (e, s) = key_store_identity_init env.nvs key_pair seed (record {
        keys = d.app.keys;
        identity_sk = d.identity_sk;
        identity_pk = d.identity_pk;
        identity_loaded = d.identity_loaded;
      }) in
      (
        e,
        record d {
          app = record d.app { keys = s.keys };
          identity_sk = s.identity_sk;
          identity_pk = s.identity_pk;
          identity_loaded = s.identity_loaded;
        },
      )

  -- A failure is only logged.
  unfoldable pub app_module_get_comm_config : Bytes → Device F A T → CommConfig × Device F A T
  app_module_get_comm_config seed d =
      let (_, d1) = identity_init seed d in
      (record { local_sk = d1.identity_sk; local_pk = d1.identity_pk }, d1)

  -- `none` when the fuel of the boot recovery ends.
  unfoldable pub app_module_init :
      Bytes → (T → T) → ℕ → Device F A T → Option (AppModuleErr × Device F A T)
  app_module_init seed delay fuel d =
      let (e, d1) = identity_init seed d in
      let cached = record d1.app { lock_pk = d1.identity_pk; last_error = last_error_none } in
      elim e [
        | KeyStoreErr.ok ↦ elim (boot_recovery env delay fuel cached) [
          | none ↦ none
          | some a ↦ some (AppModuleErr.ok, record d1 { app = a })
        ]
        | _ ↦ some (AppModuleErr.init, d1)
      ]

  unfoldable pub app_module_start : Bool → AppModuleErr
  app_module_start created = if created then AppModuleErr.ok else AppModuleErr.task

  -- `init_storage`
  unfoldable pub init_storage : Device F A T → Bool × Device F A T
  init_storage d =
      let (e, keys) = key_store_init env.nvs d.app.keys in
      let d1 : Device F A T = record d { app = record d.app { keys = keys } } in
      let (i, log) =
        intent_log_init env.nvs (record { hal = keys.hal; target = d.app.intent_target }) in
      let d2 : Device F A T = record d {
        app = record d.app { keys = record keys { hal = log.hal }; intent_target = log.target };
      } in
      elim e [
        | KeyStoreErr.ok ↦ elim i [ IntentErr.ok ↦ (true, d2) | _ ↦ (false, d2) ]
        | _ ↦ (false, d1)
      ]

  -- From the communication module on; the configuration is the one that the session copies.
  unfoldable pub start_comm :
      Peers A
      → Bytes
      → Bytes
      → (T → T)
      → ℕ
      → Device F A T
      → Option (Outcome × CommConfig × Device F A T)
  start_comm peers seed1 seed2 delay fuel d =
      let (cfg, d1) = app_module_get_comm_config seed1 d in
      let d2 : Device F A T = record d1 {
        app = record d1.app { comm = comm_module_init d1.app.comm };
      } in
      elim peers.comm_resources [
        | CommErr.ok ↦ elim (app_module_init seed2 delay fuel d2) [
          | none ↦ none
          | some (e, d3) ↦ elim e [
            | AppModuleErr.ok ↦ elim (app_module_start peers.app_task) [
              | AppModuleErr.ok ↦ some (Outcome.running, cfg, d3)
              | _ ↦ some (Outcome.start_failed, cfg, d3)
            ]
            | _ ↦ some (Outcome.app_failed, cfg, d3)
          ]
        ]
        | _ ↦ some (Outcome.comm_failed, cfg, d1)
      ]

  -- `run_full_application`; a step that fails ends it before the configuration is made.
  unfoldable pub run_full_application :
      Peers A
      → Bytes
      → Bytes
      → (T → T)
      → ℕ
      → Device F A T
      → Option (Outcome × Option CommConfig × Device F A T)
  run_full_application peers seed1 seed2 delay fuel d =
      let (stored, d1) = init_storage d in
      let (e, bolt) = peers.aai_init d1.app.bolt in
      let d2 : Device F A T = record d1 { app = record d1.app { bolt = bolt } } in
      let moved : Bool = elim e [ AaiErr.ok ↦ true | _ ↦ false ] in
      let started = start_comm peers seed1 seed2 delay fuel d2 in
      if stored
      then (if peers.display_init
          then (if moved
              then (if peers.integrity_init
                  then (elim started [ none ↦ none | some (o, cfg, d3) ↦ some (o, some cfg, d3) ])
                  else some (Outcome.integrity_failed, none, d2))
              else some (Outcome.actuator_failed, none, d2))
          else some (Outcome.display_failed, none, d1))
      else some (Outcome.storage_failed, none, d1)
