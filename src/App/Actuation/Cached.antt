-- ===== src/App/Actuation/Cached.antt =====
-- The lock's public key during the recovery at boot of components/app_module/src/app_module.c.
use smart_lock_firmware.Common.{
  ℕ, ◌+◌, ◌*◌, ◌≡◌, refl, inl, inr, some, Bytes, arith, Option-cases, again, stop, iterate,
  iterate_inv, ◌==◌, if◌then◌else◌,
}
use smart_lock_firmware.Storage.IntentLog.{intent_target_locked, intent_target_unlocked}
use smart_lock_firmware.App.State.{Env, App}
use smart_lock_firmware.App.Actuation.{
  boot_recovery, recover_move, recovery_step, drive, app_boot_recovery_timeout_ms,
}

-- The key that the Application shows stays as it is.
module _ {F A T : Type 0} (env : Env F A T) where
  abbrev pub Keeps : Bytes → App F A T → Type 0
  Keeps pk a = a.lock_pk ≡ pk

  recovery_step-again :
      (delay : T → T) (deadline : ℕ) (pk : Bytes) (a b : App F A T)
      → Keeps pk a
      → recovery_step env delay deadline a ≡ again b
      → Keeps pk b
  unfolding recovery_step
  recovery_step-again delay deadline pk a b k e = ground (arith, k, e)

  recovery_step-stop :
      (delay : T → T) (deadline : ℕ) (pk : Bytes) (a b : App F A T)
      → Keeps pk a
      → recovery_step env delay deadline a ≡ stop b
      → Keeps pk b
  unfolding recovery_step
  recovery_step-stop delay deadline pk a b k e = ground (arith, k, e)

  recover_move-Keeps :
      (delay : T → T) (fuel : ℕ) (a b : App F A T)
      → recover_move env delay fuel a ≡ some b
      → Keeps a.lock_pk b
  unfolding recover_move drive
  recover_move-Keeps delay fuel a b e =
      let target =
        if a.intent_target == intent_target_unlocked
        then intent_target_unlocked
        else intent_target_locked in
      let a1 = (drive env target a).1 in
      let (start, t1) = env.timer_us a1.platform in
      let deadline = start + app_boot_recovery_timeout_ms * 1000 in
      let waiting : App F A T = record a1 { platform = t1 } in
      elim (Option-cases (iterate fuel (recovery_step env delay deadline) waiting)) [
        | inl h ↦ ground (arith, h, e)
        | inr (c, h) ↦
            let kept : Keeps a.lock_pk c =
              iterate_inv (Keeps a.lock_pk) (Keeps a.lock_pk) (recovery_step env delay deadline)
                (λ s t p q. recovery_step-again delay deadline a.lock_pk s t p q)
                (λ s t p q. recovery_step-stop delay deadline a.lock_pk s t p q) fuel waiting c refl
                h in
            ground (arith, h, e, kept)
      ]

  pub boot_recovery-Keeps :
      (delay : T → T) (fuel : ℕ) (a b : App F A T)
      → boot_recovery env delay fuel a ≡ some b
      → Keeps a.lock_pk b
  unfolding boot_recovery
  boot_recovery-Keeps delay fuel a b e =
      let polled = (env.aai.get_status a.bolt).1 in
      ground (arith, e, recover_move-Keeps delay fuel (record a { bolt = polled }) b)
