-- ===== src/Comm/Race/Prompt.antt =====
-- Runs in which the Application answers in time (components/comm_module/src/comm_module.c).
use smart_lock_firmware.Common.{
  ◌≡◌, ◌⊎◌, inr, true, false, none, some, List, [], ◌∷◌, Bytes, take, arith,
}
use smart_lock_firmware.Comm.{
  post_command, take_response, give_up, comm_module_get_command, comm_module_complete_response,
  mailbox_capacity,
}
use smart_lock_firmware.Comm.Handoff.{take-overwrite}
use smart_lock_firmware.Comm.Race.{
  Phase, Tasks, Step, post, fetch, complete, deliver, expire, Reach, here, next, IsQuiet,
}

abbrev pub Answered : Bytes × Bytes → List (Bytes × Bytes) → Type 0
Answered p [] = ⊥
Answered p (q ∷ qs) = (p ≡ q) ⊎ Answered p qs

-- Every reply that was delivered for a command is what the Application answered to that command.
abbrev pub AllAnswered : List (Bytes × Bytes) → List (Bytes × Bytes) → Type 0
AllAnswered [] answers = Unit
AllAnswered (p ∷ ps) answers = Answered p answers × AllAnswered ps answers

AllAnswered-more :
    (ps qs : List (Bytes × Bytes)) (q : Bytes × Bytes) → AllAnswered ps qs → AllAnswered ps (q ∷ qs)
AllAnswered-more [] qs q a = tt
AllAnswered-more (p ∷ ps) qs q a = (inr a.0, AllAnswered-more ps qs q a.1)

-- The mailbox as the comm task's phase has it.
abbrev Matches : Phase → Tasks → Type 0
Matches Phase.idle s = (s.comm.command_valid ≡ false) × (s.comm.comm_notified ≡ 0) × (s.held ≡ none)
Matches (Phase.waiting c) s =
    ((s.comm.command_valid ≡ true)
      × (s.comm.command ≡ c)
      × (s.comm.comm_notified ≡ 0)
      × ((s.held ≡ none) ⊎ (s.held ≡ some c)))
    ⊎ ((s.comm.command_valid ≡ false)
        × (s.held ≡ none)
        × Answered (c, take s.comm.response_length s.comm.response) s.answers)

record Inv (s : Tasks) : Type 0 where
  matches : Matches s.phase s
  answered : AllAnswered s.delivered s.answers

Step-Inv : {s t : Tasks} → Step true s t → Inv s → Inv t
unfolding post_command take_response give_up comm_module_get_command comm_module_complete_response
Step-Inv (post s c p) v = ground arith
Step-Inv (fetch s c h e) v = ground arith
Step-Inv (complete s c r h) v = ground (
  arith,
  take-overwrite s.comm.response (take mailbox_capacity r),
  AllAnswered-more s.delivered s.answers (c, take mailbox_capacity r) v.answered,
)
Step-Inv (deliver s c p n) v = ground arith
Step-Inv (expire s c p n q) v = ground arith

Reach-Inv : {s t : Tasks} → Inv s → Reach true s t → Inv t
Reach-Inv v here = v
Reach-Inv v (next r st) = Step-Inv st (Reach-Inv v r)

quiet-Inv : {s : Tasks} → IsQuiet s → Inv s
quiet-Inv q = ground arith

-- If the Application always answers a command that it has fetched before the wait for it times out,
-- then in every interleaving of the two tasks every reply that the session is given for a command
-- is one that the Application wrote for that command.
pub prompt_replies_match :
    (s t : Tasks) → IsQuiet s → Reach true s t → AllAnswered t.delivered t.answers
prompt_replies_match s t q r = (Reach-Inv (quiet-Inv q) r).answered
