-- ===== src/Tests/Bolts.antt =====
-- Runs of the actuation, of the simulated actuator and of the provisioning button.
use smart_lock_firmware.Common.{List, ℕ, ◌≡◌, ◌≢◌, refl, true, false, [], ◌∷◌}
use smart_lock_firmware.Actuator.{AaiState}
use smart_lock_firmware.Actuator.Stub.{Stub, stub_get_status}
use smart_lock_firmware.App.State.{App, DisplayCall, lock_state_unlocked}
use smart_lock_firmware.App.Actuation.{actuation_tick}
use smart_lock_firmware.App.Actuation.Completion.{HasArrived, actuation_tick_misses}
use smart_lock_firmware.App.Button.{Button, Event, edge, look}
use smart_lock_firmware.Tests.Platform.{Flash}
use smart_lock_firmware.Tests.Application.{board, resting, locked_bolt}

-- An unlock that is under way, by the simulated bolt.
abbrev opened : App Flash Stub ℕ
opened = record resting {
  bolt = record locked_bolt { state = AaiState.unlocked };
  actuation_target = lock_state_unlocked;
  actuation_pending = true;
}

actuation_tick_misses_example :
    let a' = actuation_tick board opened in
    (HasArrived board opened
      → (a'.actuation_pending ≡ true)
        × (a'.intent_target ≡ opened.intent_target)
        × (a'.keys ≡ opened.keys)
        × (a'.display ≡ opened.display))
    × (lock_state_unlocked ≡ lock_state_unlocked
        → (stub_get_status false 3000 opened.bolt).0 ≡ AaiState.locked
        → (a'.actuation_pending ≡ false) × (a'.display ≡ DisplayCall.success ∷ opened.display))
actuation_tick_misses_example = actuation_tick_misses board opened refl

abbrev jammed : App Flash Stub ℕ
jammed = record opened { bolt = record locked_bolt { state = AaiState.jammed } }

locked_ne_unlocked : AaiState.locked ≢ AaiState.unlocked
locked_ne_unlocked e = cc

-- The button is pushed at 1 ms, confirmed at 40 ms, and still down after two seconds.
abbrev released_button : Button
released_button = record {
  inited = true;
  edge_ts_us = 0;
  pressed = false;
  press_start_us = 0;
  last_level = 1;
}

abbrev held_down : List Event
held_down = edge 1000 ∷ look 0 40000 ∷ look 0 90000 ∷ []

-- It stays down for half a minute.
abbrev still_down : List Event
still_down = edge 2050000 ∷ look 0 5000000 ∷ look 0 20000000 ∷ []
