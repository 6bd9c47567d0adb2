-- ===== src/Comm/Race.antt =====
-- The two tasks of components/comm_module/src/comm_module.c as interleaved steps: the comm task posts
-- a command and waits, the Application task fetches it and completes it, and the wait may time out.
pub mod Prompt
pub mod Stale
use smart_lock_firmware.Common.{
  ℕ, ◌<◌, ◌≡◌, ◌⊎◌, Bool, true, false, Option, none, some, List, [], ◌∷◌, Bytes, take, replicate,
}
use smart_lock_firmware.Comm.{
  Comm, CommErr, AppEvent, post_command, take_response, give_up, comm_module_get_command,
  comm_module_complete_response, mailbox_capacity,
}

-- Where the comm task is in `comm_dispatch_via_mailbox`, with the command.
pub data Phase : Type 0 where
  idle : Phase
  waiting : Bytes → Phase

-- `held` is the command that the Application task works on. `answers` records what it answered to
-- which command, `delivered` what the session was given as the reply to which.
pub record Tasks : Type 0 where
  pub comm : Comm
  pub phase : Phase
  pub held : Option Bytes
  pub answers : List (Bytes × Bytes)
  pub delivered : List (Bytes × Bytes)

-- With `prompt`, the wait does not time out while the Application works on a command.
pub data Step (prompt : Bool) : Tasks → Tasks → Type 0 where
  post :
      (s : Tasks) (c : Bytes)
      → s.phase ≡ Phase.idle
      → Step prompt s (record s { comm = post_command s.comm c; phase = Phase.waiting c })
  fetch :
      (s : Tasks) (c : Bytes)
      → s.held ≡ none
      → comm_module_get_command s.comm mailbox_capacity ≡ (CommErr.ok, c)
      → Step prompt s (record s { held = some c })
  complete :
      (s : Tasks) (c r : Bytes)
      → s.held ≡ some c
      → Step prompt s (record s {
        comm = comm_module_complete_response s.comm r;
        held = none;
        answers = (c, take mailbox_capacity r) ∷ s.answers;
      })
  deliver :
      (s : Tasks) (c : Bytes)
      → s.phase ≡ Phase.waiting c
      → 0 < s.comm.comm_notified
      → Step prompt s (record s {
        comm = (take_response s.comm).3;
        phase = Phase.idle;
        delivered = (c, (take_response s.comm).1) ∷ s.delivered;
      })
  expire :
      (s : Tasks) (c : Bytes)
      → s.phase ≡ Phase.waiting c
      → s.comm.comm_notified ≡ 0
      → (prompt ≡ true → s.held ≡ none)
      → Step prompt s (record s { comm = (give_up s.comm).3; phase = Phase.idle })

pub data Reach (prompt : Bool) (s : Tasks) : Tasks → Type 0 where
  here : Reach prompt s s
  next : {t u : Tasks} → Reach prompt s t → Step prompt t u → Reach prompt s u

-- Both tasks at rest, nothing posted or notified yet.
pub record IsQuiet (s : Tasks) : Type 0 where
  pub phase : s.phase ≡ Phase.idle
  pub held : s.held ≡ none
  pub invalid : s.comm.command_valid ≡ false
  pub unnotified : s.comm.comm_notified ≡ 0
  pub no_answers : s.answers ≡ []
  pub no_deliveries : s.delivered ≡ []
