-- ===== src/Tests/Mailbox.antt =====
-- Runs of the mailbox and of the comm task.
use smart_lock_firmware.Common.{◌++◌}
use smart_lock_firmware.Common.{
  ◌≡◌, ◌≢◌, ◌↔◌, refl, Bool, true, false, none, some, List, [], ◌∷◌, Bytes, take, replicate, arith,
}
use smart_lock_firmware.Transport.Apdu.{TransportErr}
use smart_lock_firmware.Comm.{
  AppEvent, Comm, post_command, take_response, comm_module_get_command,
  comm_module_complete_response, mailbox_capacity,
}
use smart_lock_firmware.Comm.Race.{
  Phase, Tasks, post, fetch, complete, deliver, Reach, here, next, IsQuiet,
}
use smart_lock_firmware.Comm.Race.Prompt.{AllAnswered, prompt_replies_match}
use smart_lock_firmware.Comm.Race.Stale.{late_reply_crosses}
use smart_lock_firmware.Comm.Task.{TaskEnd, comm_task_loop, fatal, NoStop, comm_task_loop-gives_up}

abbrev pub quiet_comm : Comm
quiet_comm = record {
  command_valid = false;
  command = [];
  pending_event = AppEvent.no_event;
  response = replicate 227 0;
  response_length = 0;
  app_registered = true;
  comm_running = true;
  stop_requested = false;
  session_active = true;
  app_notified = 0;
  comm_notified = 0;
}

abbrev quiet_tasks : Tasks
quiet_tasks = record {
  comm = quiet_comm;
  phase = Phase.idle;
  held = none;
  answers = [];
  delivered = [];
}

quiet_tasks-IsQuiet : IsQuiet quiet_tasks
quiet_tasks-IsQuiet = record {
  phase = refl;
  held = refl;
  invalid = refl;
  unnotified = refl;
  no_answers = refl;
  no_deliveries = refl;
}

abbrev unlock : Bytes
unlock = 2 ∷ []

abbrev lock : Bytes
lock = 3 ∷ []

abbrev done : Bytes
done = 0 ∷ []

-- One command, fetched, completed and delivered.
abbrev posted : Tasks
posted = record quiet_tasks { comm = post_command quiet_comm unlock; phase = Phase.waiting unlock }

abbrev fetched : Tasks
fetched = record posted { held = some unlock }

abbrev completed : Tasks
completed = record fetched {
  comm = comm_module_complete_response (fetched.comm) done;
  held = none;
  answers = (unlock, take mailbox_capacity done) ∷ [];
}

abbrev delivered : Tasks
delivered = record completed {
  comm = (take_response (completed.comm)).3;
  phase = Phase.idle;
  delivered = (unlock, (take_response (completed.comm)).1) ∷ [];
}

run : Reach true quiet_tasks delivered
unfolding post_command comm_module_complete_response comm_module_get_command
run =
    next
      (next (next (next here (post quiet_tasks unlock refl)) (fetch posted unlock refl refl))
        (complete fetched unlock done refl))
      (deliver completed unlock refl (omega arith))

prompt_replies_match_example : AllAnswered delivered.delivered delivered.answers
prompt_replies_match_example = prompt_replies_match quiet_tasks delivered quiet_tasks-IsQuiet run

unlock_ne_lock : unlock ≢ lock
unlock_ne_lock e = cc

late_reply_crosses_example :
    (t : Tasks) × Reach false quiet_tasks t
    × (t.delivered ≡ (lock, take mailbox_capacity done) ∷ [])
    × (t.answers ≡ (unlock, take mailbox_capacity done) ∷ [])
    × (AllAnswered t.delivered t.answers → ⊥)
late_reply_crosses_example =
    late_reply_crosses quiet_tasks unlock lock done quiet_tasks-IsQuiet (omega arith) unlock_ne_lock

abbrev three_fatal : List (Bool × TransportErr)
three_fatal =
    (false, TransportErr.ok)
    ∷ (false, TransportErr.bus_fatal)
    ∷ (false, TransportErr.bus_fatal)
    ∷ (false, TransportErr.bus_fatal)
    ∷ []

comm_task_loop-gives_up_example : (comm_task_loop three_fatal 0 ≡ TaskEnd.gave_up) ↔ (
    (before after : List (Bool × TransportErr)) × (three_fatal
      ≡ before ++ fatal ∷ fatal ∷ fatal ∷ after)
    × NoStop before)
comm_task_loop-gives_up_example = comm_task_loop-gives_up three_fatal
