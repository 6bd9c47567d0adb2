-- ===== src/Comm.antt =====
-- The facade between the comm task and the Application task,
-- components/comm_module/src/comm_module.c: its mailbox, flags and task loop.
pub mod Handoff
pub mod Race
pub mod Task
use smart_lock_firmware.Common.{
  ℕ, suc, ◌+◌, Bool, true, false, not, ◌||◌, Option, none, some, List, [], ◌∷◌, ◌++◌, Bytes, ltb,
  ◌==◌, if◌then◌else◌, length, take, drop, replicate,
}
use smart_lock_firmware.Session.State.{SessionErr}

pub data CommErr : Type 0 where
  ok invalid_arg internal : CommErr

pub data AppEvent : Type 0 where
  no_event session_started session_ended : AppEvent

-- `g_mailbox`, the flags, and the notification counts of the two tasks. `command` and `response`
-- hold the bytes in use.
pub record Comm : Type 0 where
  pub command_valid : Bool
  pub command : Bytes
  pub pending_event : AppEvent
  pub response : Bytes
  pub response_length : ℕ
  pub app_registered : Bool
  pub comm_running : Bool
  pub stop_requested : Bool
  pub session_active : Bool
  pub app_notified : ℕ
  pub comm_notified : ℕ

-- `sizeof(g_mailbox.response)`.
abbrev pub mailbox_capacity : ℕ
mailbox_capacity = 227

-- The first half of `comm_dispatch_via_mailbox`, up to its wait.
unfoldable pub post_command : Comm → Bytes → Comm
post_command g plaintext = record g {
  command = plaintext;
  command_valid = true;
  app_notified = g.app_notified + 1;
}

-- Its second half when the wait was notified: the count is cleared, the response is copied out.
unfoldable pub take_response : Comm → SessionErr × Bytes × ℕ × Comm
take_response g = (
  SessionErr.ok,
  take g.response_length g.response,
  g.response_length,
  record g { comm_notified = 0 },
)

-- And when the wait timed out.
unfoldable pub give_up : Comm → SessionErr × Bytes × ℕ × Comm
give_up g = (SessionErr.internal, [], 0, record g { command_valid = false })

unfoldable pub comm_on_established : Comm → Comm
comm_on_established g = record g {
  session_active = true;
  pending_event = AppEvent.session_started;
  app_notified = g.app_notified + 1;
}

unfoldable pub comm_on_terminated : Comm → Comm
comm_on_terminated g = record g {
  session_active = false;
  pending_event = AppEvent.session_ended;
  app_notified = g.app_notified + 1;
}

-- The state that `comm_module_init` leaves; the task handle of the Application is kept.
unfoldable pub comm_module_init : Comm → Comm
comm_module_init g = record g {
  command_valid = false;
  command = [];
  pending_event = AppEvent.no_event;
  response = replicate mailbox_capacity 0;
  response_length = 0;
  stop_requested = false;
  session_active = false;
}

unfoldable pub comm_module_deinit : Comm → Comm
comm_module_deinit g = record g {
  command_valid = false;
  command = [];
  pending_event = AppEvent.no_event;
  response = replicate mailbox_capacity 0;
  response_length = 0;
  app_registered = false;
  comm_running = false;
  stop_requested = false;
  session_active = false;
}

-- The argument says whether the handle is not NULL.
unfoldable pub comm_module_register_app_task : Comm → Bool → CommErr × Comm
comm_module_register_app_task g task =
    if not task || g.app_registered
    then (CommErr.invalid_arg, g)
    else (CommErr.ok, record g { app_registered = true })

unfoldable pub comm_module_start : Comm → Comm
comm_module_start g = if not g.app_registered then g else record g { comm_running = true }

unfoldable pub comm_module_stop : Comm → Comm
comm_module_stop g = record g { stop_requested = true }

unfoldable pub comm_module_force_abort : Comm → CommErr × Comm
comm_module_force_abort g = (CommErr.ok, record g { stop_requested = true })

unfoldable pub comm_module_poll_event : Comm → AppEvent × Comm
comm_module_poll_event g = (g.pending_event, record g { pending_event = AppEvent.no_event })

unfoldable pub comm_module_get_command : Comm → ℕ → CommErr × Bytes
comm_module_get_command g buf_cap =
    if not g.command_valid
    then (CommErr.invalid_arg, [])
    else if ltb buf_cap (length g.command)
    then (CommErr.invalid_arg, [])
    else (CommErr.ok, g.command)

-- The bytes that go over the start of the response buffer.
unfoldable pub overwrite : Bytes → Bytes → Bytes
overwrite buf bytes = bytes ++ drop (length bytes) buf

unfoldable pub comm_module_complete_response : Comm → Bytes → Comm
unfolding overwrite
comm_module_complete_response g resp =
    let kept = take mailbox_capacity resp in
    if not g.command_valid then g else record g {
      command_valid = false;
      response = overwrite g.response kept;
      response_length = length kept;
      comm_notified = g.comm_notified + 1;
    }
