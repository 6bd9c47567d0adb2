-- ===== src/Transport/Deadline.antt =====
-- The handshake timer of components/transport/src/transport.c, on 32-bit ticks that wrap.
use smart_lock_firmware.Common.{ℕ, ◌+◌, ◌-◌, ◌%◌, ◌^◌, ◌≤◌, ◌<◌, ◌≡◌, leb, arith}
use smart_lock_firmware.Transport.Machine.{ticks_left, deadline_passed}

ticks_left_before :
    (start d e : ℕ)
    → start < 2 ^ 32
    → d < 2 ^ 31
    → e ≤ d
    → ticks_left ((start + d) % 2 ^ 32) ((start + e) % 2 ^ 32) ≡ d - e
unfolding ticks_left
ticks_left_before start d e hs hd he = omega arith

ticks_left_after :
    (start d e : ℕ)
    → start < 2 ^ 32
    → d < 2 ^ 31
    → d < e
    → e ≤ d + 2 ^ 31
    → ticks_left ((start + d) % 2 ^ 32) ((start + e) % 2 ^ 32) ≡ 2 ^ 32 - (e - d)
unfolding ticks_left
ticks_left_after start d e hs hd he hf = omega arith

-- For a timeout of `d` ticks below 2^31, looked at when `e` ticks have gone by and not more than
-- 2^31 after the deadline: wherever the counter wraps, the timer has run out exactly when `d ≤ e`,
-- and before that the time left is `d - e`.
pub deadline_wraps :
    (start d e : ℕ)
    → start < 2 ^ 32
    → d < 2 ^ 31
    → e ≤ d + 2 ^ 31
    → (deadline_passed ((start + d) % 2 ^ 32) ((start + e) % 2 ^ 32) ≡ leb d e)
      × (e ≤ d → ticks_left ((start + d) % 2 ^ 32) ((start + e) % 2 ^ 32) ≡ d - e)
unfolding deadline_passed
deadline_wraps start d e hs hd he = (
  ground (arith, ticks_left_before start d e hs hd, ticks_left_after start d e hs hd),
  ticks_left_before start d e hs hd,
)
