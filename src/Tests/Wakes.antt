-- ===== src/Tests/Wakes.antt =====
-- Wakes and the boot of the Application task.
use smart_lock_firmware.Common.{ℕ, suc, ◌≡◌, refl, some, arith}
use smart_lock_firmware.Actuator.{AaiState}
use smart_lock_firmware.Actuator.Stub.{Stub}
use smart_lock_firmware.App.State.{App}
use smart_lock_firmware.App.Actuation.{boot_recovery}
use smart_lock_firmware.App.Actuation.Recovery.{Advances, boot_recovery-returns}
use smart_lock_firmware.App.Loop.{app_wake}
use smart_lock_firmware.App.Loop.Answers.{Completed, app_wake-completes}
use smart_lock_firmware.Tests.Platform.{Flash}
use smart_lock_firmware.Tests.Application.{board, resting}

app_wake-completes_example : Completed resting.comm (app_wake board resting).comm
app_wake-completes_example = app_wake-completes board resting refl (omega arith)

-- A board that boots with its bolt on the way.
abbrev moving : App Flash Stub ℕ
moving = record resting { bolt = record (resting.bolt) { state = AaiState.moving } }

abbrev tick : ℕ → ℕ
tick t = suc t

abbrev clock : ℕ → ℕ
clock t = t

board-Advances : Advances board tick clock
board-Advances = record { reads = λ t. refl; steady = λ t. omega arith; passes = λ t. omega arith }

boot_recovery-returns_example :
    (a' : App Flash Stub ℕ) × (boot_recovery board tick 10000001 moving ≡ some a')
boot_recovery-returns_example =
    boot_recovery-returns board tick clock board-Advances 10000001 moving (omega arith)
