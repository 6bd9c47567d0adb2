-- ===== src/App/Provision/Commit.antt =====
-- What CMD_PROVISION does, and the constant-time comparison in
-- components/app_module/src/provision_mgr.c.
use Prim.Native.Nat.{bit_or, bit_xor}
use smart_lock_firmware.Common.{
  ℕ, ◌<◌, ◌≡◌, ◌≢◌, ◌⊎◌, Bool, true, false, ◌&&◌, [], ◌∷◌, ◌++◌, Bytes, ltb, ◌==◌, length, bytes_eq,
  bit_or_byte, bit_xor_byte, arith,
}
use smart_lock_firmware.Session.Channel.{session_provision_verify_identity}
use smart_lock_firmware.Storage.KeyStore.{authorized, key_store_contains}
use smart_lock_firmware.Storage.KeyStore.View.{IsValid, key_store_add-authorized}
use smart_lock_firmware.App.State.{Env, App, app_status_ok}
use smart_lock_firmware.App.Provision.{
  diff_from, constant_time_eq, received_secret, claimed_key, commit_key, provision_mgr_is_active,
  provision_mgr_handle_cmd,
}

-- Every entry fits a `uint8_t`.
unfoldable pub are_bytes : Bytes → Bool
are_bytes [] = true
are_bytes (x ∷ xs) = ltb x 256 && are_bytes xs

diff_from-eq :
    (d : ℕ) (a b : Bytes)
    → d < 256
    → are_bytes a ≡ true
    → are_bytes b ≡ true
    → length a ≡ length b
    → (diff_from d a b == 0) ≡ (d == 0 && bytes_eq a b)
unfolding diff_from are_bytes bytes_eq
diff_from-eq d [] [] h ha hb l = ground arith
diff_from-eq d [] (y ∷ b) h ha hb l = absurd (omega arith)
diff_from-eq d (x ∷ a) [] h ha hb l = absurd (omega arith)
diff_from-eq d (x ∷ a) (y ∷ b) h ha hb l =
    let hx : x < 256 = ground arith in
    let hy : y < 256 = ground arith in
    let (ex, lx) = bit_xor_byte x y hx hy in
    let (eo, lo) = bit_or_byte d (bit_xor x y) h lx in
    let rest =
      diff_from-eq (bit_or d (bit_xor x y)) a b lo (ground arith) (ground arith) (omega arith) in
    ground (arith, ex, eo, rest)

-- On two byte buffers of one length, the comparison without early exit answers whether they are equal.
pub constant_time_eq-bytes_eq :
    (a b : Bytes)
    → are_bytes a ≡ true
    → are_bytes b ≡ true
    → length a ≡ length b
    → constant_time_eq a b ≡ bytes_eq a b
unfolding constant_time_eq
constant_time_eq-bytes_eq a b ha hb l = ground (arith, diff_from-eq 0 a b (omega arith) ha hb l)

module _ {F A T : Type 0} (env : Env F A T) where
  -- CMD_PROVISION authorizes a key only in an open window, with a command of 65 bytes, the secret on
  -- the display and a proof of the key in the session, and then it adds exactly that key; in every
  -- other case, errors of the store included, the authorized keys stay. The window is closed
  -- afterwards whatever the answer was, and a success answers with the lock's public key.
  pub provision_mgr_handle_cmd-commits :
      (a : App F A T) (cmd : Bytes)
      → IsValid a.keys
      → let (active, a1) = provision_mgr_is_active env a in
        let (resp, a') = provision_mgr_handle_cmd env a cmd in
        IsValid (a'.keys)
        × (a'.provision_active ≡ false)
        × (((resp ≡ app_status_ok ∷ a.lock_pk)
              × (active ≡ true)
              × (length cmd ≡ 65)
              × (constant_time_eq (received_secret cmd) a.provision_secret ≡ true)
              × (session_provision_verify_identity env.prim a.session (claimed_key cmd) ≡ true)
              × (key_store_contains a.keys (claimed_key cmd) ≡ false)
              × (authorized (a'.keys) ≡ authorized a.keys ++ claimed_key cmd ∷ []))
            ⊎ ((authorized (a'.keys) ≡ authorized a.keys)
                × ((s : ℕ) × (resp ≡ s ∷ []) × (s ≢ app_status_ok))))
  unfolding provision_mgr_handle_cmd commit_key provision_mgr_is_active
  provision_mgr_handle_cmd-commits a cmd v =
      ground (arith, key_store_add-authorized env.nvs a.keys (claimed_key cmd) v)
