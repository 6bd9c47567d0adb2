-- ===== src/App/Actuation/Recovery.antt =====
-- The recovery at boot in components/app_module/src/app_module.c: its wait.
use smart_lock_firmware.Common.{
  ℕ, ◌+◌, ◌*◌, ◌-◌, ◌≤◌, ◌<◌, ◌≡◌, ◌≢◌, inl, inr, none, some, ◌==◌, if◌then◌else◌, again, iterate,
  iterate_total, Option-cases, arith,
}
use smart_lock_firmware.Storage.IntentLog.{intent_target_locked, intent_target_unlocked}
use smart_lock_firmware.App.State.{Env, App}
use smart_lock_firmware.App.Actuation.{
  app_boot_recovery_timeout_ms, drive, recovery_step, recover_move, boot_recovery,
}

-- The timer of the platform reads `clock`, reading it does not turn it back, and each delay of the
-- poll lets it advance.
pub record Advances {F A T : Type 0} (env : Env F A T) (delay : T → T) (clock : T → ℕ)
    : Type 0 where
  pub reads : (t : T) → (env.timer_us t).0 ≡ clock t
  pub steady : (t : T) → clock t ≤ clock (env.timer_us t).1
  pub passes : (t : T) → clock t < clock (delay t)

module _ {F A T : Type 0} (env : Env F A T) (delay : T → T) (clock : T → ℕ)
    (time : Advances env delay clock) where
  -- The time that is left until a deadline.
  left : ℕ → App F A T → ℕ
  left deadline a = deadline - clock a.platform

  recovery_step-left :
      (deadline : ℕ) (a b : App F A T)
      → recovery_step env delay deadline a ≡ again b
      → left deadline b < left deadline a
  unfolding left recovery_step
  recovery_step-left deadline a b h =
      let t1 = (env.timer_us a.platform).1 in
      ground (arith, h, time.reads a.platform, time.steady a.platform, time.passes t1)

  -- The wait ends before its fuel does.
  wait_ends :
      (deadline fuel : ℕ) (a : App F A T)
      → left deadline a < fuel
      → (b : App F A T) × (iterate fuel (recovery_step env delay deadline) a ≡ some b)
  wait_ends deadline fuel a m =
      iterate_total (λ b. Unit {0}) (left deadline) (recovery_step env delay deadline)
        (λ b c p h. tt) (λ b c p h. recovery_step-left deadline b c h) fuel a tt m

  recover_move-ne_none :
      (fuel : ℕ) (a : App F A T)
      → app_boot_recovery_timeout_ms * 1000 < fuel
      → recover_move env delay fuel a ≢ none
  unfolding recover_move left
  recover_move-ne_none fuel a h none_left =
      let target =
        if a.intent_target == intent_target_unlocked
        then intent_target_unlocked
        else intent_target_locked in
      let a1 = (drive env target a).1 in
      let (start, t1) = env.timer_us a1.platform in
      let (b, ends) =
        wait_ends (start + app_boot_recovery_timeout_ms * 1000) fuel (record a1 { platform = t1 })
          (omega (arith, time.reads a1.platform, time.steady a1.platform)) in
      ground (arith, ends, none_left)

  boot_recovery-ne_none :
      (fuel : ℕ) (a : App F A T)
      → app_boot_recovery_timeout_ms * 1000 < fuel
      → boot_recovery env delay fuel a ≢ none
  unfolding boot_recovery
  boot_recovery-ne_none fuel a h none_left =
      let polled = (env.aai.get_status a.bolt).1 in
      ground (arith, recover_move-ne_none fuel (record a { bolt = polled }) h, none_left)

  -- The recovery at boot returns, whatever the bolt reports: with more fuel than the microseconds of
  -- its 10 seconds, if the timer advances with each delay of the poll.
  pub boot_recovery-returns :
      (fuel : ℕ) (a : App F A T)
      → app_boot_recovery_timeout_ms * 1000 < fuel
      → (a' : App F A T) × (boot_recovery env delay fuel a ≡ some a')
  boot_recovery-returns fuel a h = elim (Option-cases (boot_recovery env delay fuel a)) [
    | inl e ↦ absurd (boot_recovery-ne_none fuel a h e)
    | inr (b, e) ↦ (b, e)
  ]
