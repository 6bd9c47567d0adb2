-- ===== src/Comm/Handoff.antt =====
-- A command and its response through the mailbox of components/comm_module/src/comm_module.c.
use smart_lock_firmware.Common.{
  ℕ, ◌≤◌, ◌≡◌, refl, sym, ap, false, Bytes, length, take, arith, zero, suc, List, [], ◌∷◌,
  take-append_left,
}
use smart_lock_firmware.Session.State.{SessionErr}
use smart_lock_firmware.Comm.{
  Comm, CommErr, post_command, take_response, comm_module_get_command,
  comm_module_complete_response, overwrite, mailbox_capacity,
}

pub take_le {ℓ} : {A : Type ℓ} (n : ℕ) (xs : List A) → length xs ≤ n → take n xs ≡ xs
take_le zero [] h = refl
take_le zero (x ∷ xs) h = absurd (omega arith)
take_le (suc n) [] h = refl
take_le (suc n) (x ∷ xs) h = ap (◌∷◌ x) (take_le n xs (omega arith))

-- What was written over the start of the buffer is read back.
pub take-overwrite : (buf bytes : Bytes) → take (length bytes) (overwrite buf bytes) ≡ bytes
unfolding overwrite
take-overwrite buf bytes = take-append_left bytes _

-- A round trip through the mailbox. The Application reads the very command that was posted, and
-- the session gets the very response, cut to the mailbox's 227 bytes, with its length; then no
-- command and no notification is left.
pub mailbox_round_trip :
    (g : Comm) (plaintext resp : Bytes)
    → length plaintext ≤ mailbox_capacity
    → let posted = post_command g plaintext in
      let (e, reply, len, after) = take_response (comm_module_complete_response posted resp) in
      (comm_module_get_command posted mailbox_capacity ≡ (CommErr.ok, plaintext))
      × (e ≡ SessionErr.ok)
      × (reply ≡ take mailbox_capacity resp)
      × (len ≡ length reply)
      × (after.command_valid ≡ false)
      × (after.comm_notified ≡ 0)
unfolding post_command take_response comm_module_complete_response comm_module_get_command
mailbox_round_trip g plaintext resp h =
    let same = take-overwrite g.response (take mailbox_capacity resp) in
    (ground arith, refl, same, ap length (sym same), refl, refl)
