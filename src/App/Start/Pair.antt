-- ===== src/App/Start/Pair.antt =====
-- Which key pair the lock runs with after the start of components/app_module/src/app_module.c.
use smart_lock_firmware.Common.{
  ℕ, ◌≡◌, ◌≢◌, refl, ap, inl, inr, true, some, Bytes, replicate, arith, Option-cases,
}
use smart_lock_firmware.Storage.KeyStore.{KeyStoreErr}
use smart_lock_firmware.Storage.Identity.{key_store_identity_init, persist_identity}
use smart_lock_firmware.Comm.{CommErr, comm_module_init}
use smart_lock_firmware.App.State.{Env, App, last_error_none}
use smart_lock_firmware.App.Actuation.{boot_recovery}
use smart_lock_firmware.App.Actuation.Cached.{boot_recovery-Keeps}
use smart_lock_firmware.App.Start.{
  Device, CommConfig, Peers, Outcome, AppModuleErr, identity_init, app_module_get_comm_config,
  app_module_init, app_module_start, start_comm,
}

module _ {F A T : Type 0} (env : Env F A T) (key_pair : Bytes → Bytes × Bytes) where
  identity_init-loaded :
      (seed : Bytes) (d : Device F A T)
      → d.identity_loaded ≡ true
      → identity_init env key_pair seed d ≡ (KeyStoreErr.ok, d)
  unfolding identity_init key_store_identity_init
  identity_init-loaded seed d h = rw (h, identity_init) refl

  identity_init-ok :
      (seed : Bytes) (d : Device F A T)
      → (identity_init env key_pair seed d).0 ≡ KeyStoreErr.ok
      → (identity_init env key_pair seed d).1.identity_loaded ≡ true
  unfolding identity_init key_store_identity_init persist_identity
  identity_init-ok seed d h = ground (arith, h)

  -- `AppModule_Init` after the identity was loaded.
  app_module_init-loaded :
      (seed : Bytes) (delay : T → T) (fuel : ℕ) (d d' : Device F A T)
      → d.identity_loaded ≡ true
      → app_module_init env key_pair seed delay fuel d ≡ some (AppModuleErr.ok, d')
      → (d'.app.lock_pk ≡ d.identity_pk)
        × (d'.identity_sk ≡ d.identity_sk)
        × (d'.identity_pk ≡ d.identity_pk)
  unfolding app_module_init
  app_module_init-loaded seed delay fuel d d' loaded e =
      let cached = record d.app { lock_pk = d.identity_pk; last_error = last_error_none } in
      let same = identity_init-loaded seed d loaded in
      elim (Option-cases (boot_recovery env delay fuel cached)) [
        | inl h ↦ absurd (ground (arith, same, h, e))
        | inr (a, h) ↦ ground (arith, same, h, e, boot_recovery-Keeps env delay fuel cached a h)
      ]

  -- When the identity was available for the configuration of the communication module and the start
  -- reaches its running tasks, the lock runs with one key pair: the session signs with the secret key
  -- that the key store holds, and the Application shows the public key that the configuration carries.
  pub start_comm-one_pair :
      (peers : Peers A) (seed1 seed2 : Bytes) (delay : T → T) (fuel : ℕ) (d d' : Device F A T)
      (cfg : CommConfig)
      → (identity_init env key_pair seed1 d).0 ≡ KeyStoreErr.ok
      → start_comm env key_pair peers seed1 seed2 delay fuel d ≡ some (Outcome.running, cfg, d')
      → (d'.identity_sk ≡ cfg.local_sk)
        × (d'.identity_pk ≡ cfg.local_pk)
        × (d'.app.lock_pk ≡ cfg.local_pk)
  unfolding start_comm app_module_get_comm_config
  start_comm-one_pair peers seed1 seed2 delay fuel d d' cfg available e =
      let d1 = (identity_init env key_pair seed1 d).1 in
      let d2 : Device F A T = record d1 {
        app = record d1.app { comm = comm_module_init d1.app.comm };
      } in
      let loaded : d2.identity_loaded ≡ true = identity_init-ok seed1 d available in
      elim (Option-cases (app_module_init env key_pair seed2 delay fuel d2)) [
        | inl h ↦ absurd (ground (arith, h, e))
        | inr ((err, d3), h) ↦
            let cfg1 : CommConfig = record {
              local_sk = d1.identity_sk;
              local_pk = d1.identity_pk;
            } in
            let reached : (err ≡ AppModuleErr.ok) × (d3 ≡ d') × (cfg1 ≡ cfg) =
              (ground (arith, h, e)) in
            let started =
              app_module_init-loaded seed2 delay fuel d2 d3 loaded (rw (← reached.0) h) in
            ground (
              arith,
              started,
              ap (λ c. c.local_sk) reached.2,
              ap (λ c. c.local_pk) reached.2,
              reached.1,
            )
      ]

  identity_init-zero :
      (seed : Bytes) (d : Device F A T)
      → d.identity_sk ≡ replicate 64 0
      → (identity_init env key_pair seed d).0 ≢ KeyStoreErr.ok
      → (identity_init env key_pair seed d).1.identity_sk ≡ replicate 64 0
  unfolding identity_init key_store_identity_init persist_identity
  identity_init-zero seed d z h = ground (arith, z, h)

  -- When the identity cannot be had for the configuration and can be had a moment later, the start goes
  -- on to its running tasks, and the configuration that the session copies has a signing key of zeros.
  pub start_comm-runs_on_zeros :
      (peers : Peers A) (seed1 seed2 : Bytes) (delay : T → T) (fuel : ℕ) (d : Device F A T)
      → d.identity_sk ≡ replicate 64 0
      → (identity_init env key_pair seed1 d).0 ≢ KeyStoreErr.ok
      → (let d1 = (identity_init env key_pair seed1 d).1 in
          (identity_init env key_pair seed2
            (record d1 { app = record d1.app { comm = comm_module_init d1.app.comm } })).0)
        ≡ KeyStoreErr.ok
      → ((a : App F A T) → (b : App F A T) × (boot_recovery env delay fuel a ≡ some b))
      → peers.comm_resources ≡ CommErr.ok
      → peers.app_task ≡ true
      → (d' : Device F A T) × (cfg : CommConfig) × (start_comm env key_pair peers seed1 seed2 delay
            fuel d
          ≡ some (Outcome.running, cfg, d'))
        × (cfg.local_sk ≡ replicate 64 0)
  unfolding start_comm app_module_get_comm_config app_module_init app_module_start
  start_comm-runs_on_zeros peers seed1 seed2 delay fuel d z fails later recovers resources created =
      let d1 = (identity_init env key_pair seed1 d).1 in
      let d2 : Device F A T = record d1 {
        app = record d1.app { comm = comm_module_init d1.app.comm };
      } in
      let d3 = (identity_init env key_pair seed2 d2).1 in
      let cached = record d3.app { lock_pk = d3.identity_pk; last_error = last_error_none } in
      let (b, recovered) = recovers cached in
      (
        record d3 { app = b },
        record { local_sk = d1.identity_sk; local_pk = d1.identity_pk },
        ground (arith, later, recovered, resources, created),
        identity_init-zero seed1 d z fails,
      )
