-- ===== src/App/Button.antt =====
-- The provisioning button of components/app_module/src/provision_button.c: debounce and hold.
pub mod Holds
pub mod Setup
use smart_lock_firmware.Common.{
  ℕ, ◌+◌, ◌*◌, Bool, true, false, not, ◌&&◌, List, [], ◌∷◌, leb, ◌==◌, if◌then◌else◌,
}

-- `prov_button_ctx_t` without its handles.
pub record Button : Type 0 where
  pub inited : Bool
  pub edge_ts_us : ℕ
  pub pressed : Bool
  pub press_start_us : ℕ
  pub last_level : ℕ

-- The button is active-low.
abbrev pub pressed_level : ℕ
pressed_level = 0

-- The interrupt, at its time.
unfoldable pub prov_button_isr : ℕ → Button → Button
prov_button_isr now b = record b { edge_ts_us = now }

-- What happens to the button: an interrupt, or a look of the task at the pin.
pub data Event : Type 0 where
  edge : ℕ → Event
  look : ℕ → ℕ → Event

module _ (debounce_ms hold_ms : ℕ) where
  -- A level that was stable for the debounce time is committed.
  unfoldable pub commit_level : ℕ → ℕ → Button → Button
  commit_level level now b =
      if level == pressed_level
      then record b { last_level = level; edge_ts_us = 0; pressed = true; press_start_us = now }
      else record b { last_level = level; edge_ts_us = 0; pressed = false; press_start_us = 0 }

  -- The level differs from the committed one.
  unfoldable pub debounce : ℕ → ℕ → Button → Button
  unfolding commit_level
  debounce level now b =
      let edge = if b.edge_ts_us == 0 then now else b.edge_ts_us in
      let b1 = record b { edge_ts_us = edge } in
      if leb (edge + debounce_ms * 1000) now then commit_level level now b1 else b1

  -- `ProvisionButton_OnTaskNotified`, with the level of the pin and the time that it reads.
  unfoldable pub provision_button_on_task_notified : ℕ → ℕ → Button → Bool × Button
  unfolding debounce
  provision_button_on_task_notified level now b =
      if not b.inited
      then (false, b)
      else if not (level == b.last_level)
      then (false, debounce level now b)
      else if b.pressed && leb (b.press_start_us + hold_ms * 1000) now
      then (true, record b { pressed = false; press_start_us = 0 })
      else (false, b)

  unfoldable pub handle : Event → Button → Bool × Button
  unfolding prov_button_isr provision_button_on_task_notified
  handle (edge now) b = (false, prov_button_isr now b)
  handle (look level now) b = provision_button_on_task_notified level now b

  -- The state after some events.
  unfoldable pub play : List Event → Button → Button
  unfolding handle
  play [] b = b
  play (e ∷ es) b = play es (handle e b).1
