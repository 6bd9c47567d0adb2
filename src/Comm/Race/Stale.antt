-- ===== src/Comm/Race/Stale.antt =====
-- A run in which the Application answers late (components/comm_module/src/comm_module.c).
use smart_lock_firmware.Common.{
  ◌≤◌, ◌≡◌, ◌≢◌, refl, inl, inr, List, sym, ap, subst, false, none, some, [], ◌∷◌, Bytes, take,
  length, arith,
}
use smart_lock_firmware.Comm.{
  post_command, take_response, give_up, comm_module_get_command, comm_module_complete_response,
  mailbox_capacity,
}
use smart_lock_firmware.Comm.Handoff.{take-overwrite}
use smart_lock_firmware.Comm.Race.{
  Phase, Tasks, post, fetch, complete, deliver, expire, Reach, here, next, IsQuiet,
}
use smart_lock_firmware.Comm.Race.Prompt.{Answered, AllAnswered}

-- The states of the run: the first command is posted, fetched and given up, the second is posted,
-- and the answer to the first completes it.
abbrev posted : Tasks → Bytes → Tasks
posted s c = record s { comm = post_command s.comm c; phase = Phase.waiting c }

abbrev fetched : Tasks → Bytes → Tasks
fetched s c = record s { held = some c }

abbrev expired : Tasks → Tasks
expired s = record s { comm = (give_up s.comm).3; phase = Phase.idle }

abbrev completed : Tasks → Bytes → Bytes → Tasks
completed s c r = record s {
  comm = comm_module_complete_response s.comm r;
  held = none;
  answers = (c, take mailbox_capacity r) ∷ s.answers;
}

abbrev delivered_to : Tasks → Bytes → Tasks
delivered_to s c = record s {
  comm = (take_response s.comm).3;
  phase = Phase.idle;
  delivered = (c, (take_response s.comm).1) ∷ s.delivered;
}

abbrev late_run : Tasks → Bytes → Bytes → Bytes → Tasks
late_run s c d r = delivered_to (completed (posted (expired (fetched (posted s c) c)) d) c r) d

late_run-Reach :
    (s : Tasks) (c d r : Bytes)
    → IsQuiet s
    → length c ≤ mailbox_capacity
    → Reach false s (late_run s c d r)
unfolding post_command take_response give_up comm_module_get_command comm_module_complete_response
late_run-Reach s c d r q h =
    next
      (next
        (next
          (next (next (next here (post s c q.phase)) (fetch (posted s c) c q.held (ground arith)))
            (expire (fetched (posted s c) c) c refl q.unnotified (λ e. cc)))
          (post (expired (fetched (posted s c) c)) d refl))
        (complete (posted (expired (fetched (posted s c) c)) d) c r refl))
      (deliver (completed (posted (expired (fetched (posted s c) c)) d) c r) d refl (omega arith))

crossed :
    (c d x y : Bytes) (qs : List (Bytes × Bytes))
    → qs ≡ []
    → c ≢ d
    → Answered (d, x) ((c, y) ∷ qs)
    → ⊥
crossed c d x y qs e n (inl p) = n (sym (ap (λ (q : Bytes × Bytes). q.0) p))
crossed c d x y qs e n (inr a) = subst (Answered (d, x)) e a

-- The guard of `comm_module_complete_response` does not keep an old answer from a new command. For
-- any two different commands and any answer there is an interleaving, from two tasks at rest, in
-- which the wait for the first times out while the Application works on it, and what the
-- Application then answers to the first is delivered as the reply to the second, to which it
-- answered nothing.
pub late_reply_crosses :
    (s : Tasks) (c d r : Bytes)
    → IsQuiet s
    → length c ≤ mailbox_capacity
    → c ≢ d
    → (t : Tasks) × Reach false s t
      × (t.delivered ≡ (d, take mailbox_capacity r) ∷ [])
      × (t.answers ≡ (c, take mailbox_capacity r) ∷ [])
      × (AllAnswered t.delivered t.answers → ⊥)
unfolding post_command take_response give_up comm_module_complete_response
late_reply_crosses s c d r q h n =
    let same = take-overwrite s.comm.response (take mailbox_capacity r) in
    (
      late_run s c d r,
      late_run-Reach s c d r q h,
      ground (arith, same),
      ground arith,
      λ a. crossed c d _ _ _ q.no_answers n a.0,
    )
