-- ===== src/App/Button/Setup.antt =====
-- `ProvisionButton_Init` of components/app_module/src/provision_button.c.
use smart_lock_firmware.Common.{ℕ, ◌≡◌, Bool, true, false, Option, none, some, if◌then◌else◌, arith}
use smart_lock_firmware.Pn532.{EspCode}
use smart_lock_firmware.App.Button.{Button}

pub data ButtonErr : Type 0 where
  ok invalid_arg init disabled : ButtonErr

-- The GPIO driver as the button uses it.
pub record Pins (G : Type 0) : Type 0 where
  pub gpio_config : ℕ → G → EspCode × G
  pub gpio_install_isr_service : G → EspCode × G
  pub gpio_isr_handler_add : ℕ → G → EspCode × G
  pub gpio_get_level : ℕ → G → ℕ × G

module _ {G : Type 0} (pins : Pins G) where
  -- The end of the set-up, from the pin's interrupt on.
  unfoldable pub add_handler : ℕ → Button → G → ButtonErr × Button × G
  add_handler gpio b g =
      let (e, g1) = pins.gpio_isr_handler_add gpio g in
      let (level, g2) = pins.gpio_get_level gpio g1 in
      elim e [
        | EspCode.ok ↦ (ButtonErr.ok, record b { inited = true; last_level = level }, g2)
        | _ ↦ (ButtonErr.init, b, g1)
      ]

  -- The pin is `none` where the configuration says -1; `has_task` says that the task is not NULL.
  unfoldable pub provision_button_init : Option ℕ → Bool → Button → G → ButtonErr × Button × G
  unfolding add_handler
  provision_button_init none has_task b g = (ButtonErr.disabled, b, g)
  provision_button_init (some gpio) has_task b g =
      let b1 = record b { edge_ts_us = 0; pressed = false; press_start_us = 0 } in
      let (e1, g1) = pins.gpio_config gpio g in
      let (e2, g2) = pins.gpio_install_isr_service g1 in
      let installed : ButtonErr × Button × G = (elim e2 [
        | EspCode.ok ↦ add_handler gpio b1 g2
        | EspCode.invalid_state ↦ add_handler gpio b1 g2
        | _ ↦ (ButtonErr.init, b1, g2)
      ]) in
      let configured : ButtonErr × Button × G = (elim e1 [
        | EspCode.ok ↦ installed
        | _ ↦ (ButtonErr.init, b1, g1)
      ]) in
      if has_task then configured else (ButtonErr.invalid_arg, b, g)

  -- A set-up that succeeds leaves a released button that looks at the pin.
  provision_button_init-ok :
      (gpio : Option ℕ) (has_task : Bool) (b b' : Button) (g g' : G)
      → provision_button_init gpio has_task b g ≡ (ButtonErr.ok, b', g')
      → (b'.inited ≡ true) × (b'.edge_ts_us ≡ 0) × (b'.pressed ≡ false)
  unfolding provision_button_init add_handler
  provision_button_init-ok none has_task b b' g g' e = ground (arith, e)
  provision_button_init-ok (some gpio) has_task b b' g g' e = ground (arith, e)
