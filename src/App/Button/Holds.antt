-- ===== src/App/Button/Holds.antt =====
-- Holds of the button, components/app_module/src/provision_button.c.
use smart_lock_firmware.Common.{ℕ, ◌≡◌, true, false, List, [], ◌∷◌}
use smart_lock_firmware.App.Button.{Button, pressed_level, Event, edge, look}

module _ (debounce_ms hold_ms : ℕ) where
  -- A press that is taken for held was committed with the pin down.
  IsDown : Button → Type 0
  IsDown b = b.pressed ≡ true → b.last_level ≡ pressed_level

  -- Every look sees the pin down; interrupts may come at any time.
  abbrev pub StaysDown : List Event → Type 0
  StaysDown [] = Unit
  StaysDown (edge now ∷ es) = StaysDown es
  StaysDown (look level now ∷ es) = (level ≡ pressed_level) × StaysDown es

  -- The hold was used up, and the release was not seen yet.
  abbrev IsSpent : Button → Type 0
  IsSpent b = (b.pressed ≡ false) × (b.last_level ≡ pressed_level)
