-- ===== src/Tests/Platform.antt =====
-- A concrete platform: a flash that is a function, primitives that are toys with the lengths of the
-- real ones, a link that plays a script of frames, and a phone that knows its lines.
use smart_lock_firmware.Common.{
  ℕ, zero, suc, ◌≤◌, ◌<◌, ◌≡◌, ◌⊎◌, inl, inr, refl, ap, ◌&&◌, Option, none, some, List, [], ◌∷◌,
  Bytes, ltb, ◌==◌, bytes_eq, if◌then◌else◌, length, take, replicate, arith,
}
use smart_lock_firmware.Transport.Machine.{LliErr, LinkStatus}
use smart_lock_firmware.Session.Crypto.{Primitives}
use smart_lock_firmware.Session.State.{SessionErr}
use smart_lock_firmware.Session.Secure.{GcmLaws}
use smart_lock_firmware.Stack.{Link}
use smart_lock_firmware.Storage.Hal.{EspErr, Namespace, Nvs, NvsLaws, IsAtomic, same_ns}
use smart_lock_firmware.Session.State

abbrev pub Flash : Type 0
Flash = Namespace → Bytes → Option Bytes

abbrev pub put : Flash → Namespace → Bytes → Option Bytes → Flash
put f ns k v ns' k' = if same_ns ns ns' && bytes_eq k k' then v else f ns' k'

abbrev read_blob : Option Bytes → ℕ → EspErr × Bytes
read_blob none cap = (EspErr.not_found, [])
read_blob (some b) cap = if ltb cap (length b) then (EspErr.failed, []) else (EspErr.ok, b)

abbrev erase_blob : Option Bytes → Flash → Namespace → Bytes → EspErr × Flash
erase_blob none f ns k = (EspErr.not_found, f)
erase_blob (some b) f ns k = (EspErr.ok, put f ns k none)

abbrev pub flash_nvs : Nvs Flash
flash_nvs = record {
  flash_init = λ f. (EspErr.ok, f);
  open_ns = λ ns f. (EspErr.ok, f);
  close_ns = λ ns f. f;
  get_blob = λ ns k cap f. read_blob (f ns k) cap;
  set_blob = λ ns k b f. (EspErr.ok, put f ns k (some b));
  erase_key = λ ns k f. erase_blob (f ns k) f ns k;
  commit = λ ns f. (EspErr.ok, f);
}

pub read_blob_ok :
    (o : Option Bytes) (cap : ℕ) → (read_blob o cap).0 ≡ EspErr.ok → o ≡ some (read_blob o cap).1
read_blob_ok none cap h = cc
read_blob_ok (some b) cap h = ground arith

pub read_blob_missing :
    (o : Option Bytes) (cap : ℕ) → (read_blob o cap).0 ≡ EspErr.not_found → o ≡ none
read_blob_missing none cap h = refl
read_blob_missing (some b) cap h = ground arith

pub erase_blob_ok :
    (o : Option Bytes) (f : Flash) (ns : Namespace) (k : Bytes)
    → (erase_blob o f ns k).0 ≡ EspErr.ok
    → (ns' : Namespace) (k' : Bytes) → (erase_blob o f ns k).1 ns' k' ≡ put f ns k none ns' k'
erase_blob_ok none f ns k h ns' k' = cc
erase_blob_ok (some b) f ns k h ns' k' = refl

pub erase_blob_missing :
    (o : Option Bytes) (f : Flash) (ns : Namespace) (k : Bytes)
    → (erase_blob o f ns k).0 ≡ EspErr.not_found
    → (o ≡ none) × ((ns' : Namespace) (k' : Bytes) → (erase_blob o f ns k).1 ns' k' ≡ f ns' k')
erase_blob_missing none f ns k h = (refl, λ ns' k'. refl)
erase_blob_missing (some b) f ns k h = cc

abbrev pub flash_laws : NvsLaws flash_nvs
flash_laws = record {
  contents = λ f ns k. f ns k;
  get_ok = λ ns k cap f. read_blob_ok (f ns k) cap;
  get_missing = λ ns k cap f. read_blob_missing (f ns k) cap;
  set_ok = λ ns k b f h ns' k'. refl;
  erase_ok = λ ns k f. erase_blob_ok (f ns k) f ns k;
  erase_missing = λ ns k f. erase_blob_missing (f ns k) f ns k;
  commit_ok = λ ns f h ns' k'. refl;
  init_keeps = λ f ns k. refl;
  open_keeps = λ n f ns k. refl;
}

pub erase_blob_whole :
    (o : Option Bytes) (f : Flash) (ns : Namespace) (k : Bytes)
    → ((ns' : Namespace) (k' : Bytes) → (erase_blob o f ns k).1 ns' k' ≡ f ns' k')
      ⊎ ((ns' : Namespace) (k' : Bytes) → (erase_blob o f ns k).1 ns' k' ≡ put f ns k none ns' k')
erase_blob_whole none f ns k = inl (λ ns' k'. refl)
erase_blob_whole (some b) f ns k = inr (λ ns' k'. refl)

pub flash_nvs-IsAtomic : IsAtomic flash_nvs flash_laws
flash_nvs-IsAtomic = record {
  erase_whole = λ ns k f. erase_blob_whole (f ns k) f ns k;
  commit_whole = λ ns f ns' k'. refl;
}

abbrev pub empty_flash : Flash
empty_flash ns k = none

-- A signature is good if it starts with the public key.
abbrev pub toy : Primitives
toy = record {
  x25519_public_key = λ sk. replicate 32 4;
  x25519 = λ sk pk. replicate 32 5;
  ed25519_sign = λ sk m. replicate 64 6;
  ed25519_check = λ sig pk m. bytes_eq (take 32 sig) pk;
  md_hmac = λ key m. some (replicate 32 3);
  gcm_crypt_and_tag = λ k n m. some (m, replicate 16 8);
  gcm_auth_decrypt = λ k n ct tag. some ct;
}

-- The phone whose long-term key is authorized, and the lock's session around it. The context counts
-- the reports.
abbrev pub phone_key : Bytes
phone_key = replicate 32 9

abbrev pub session_env : State.Env ℕ
session_env = record {
  prim = toy;
  fill_random = λ n c. (replicate n 7, c);
  timer_us = λ c. (1000, c);
  local_sk = replicate 64 2;
  peer_key_provider = λ i c. if i == 0 then some phone_key else none;
  app_handler = λ m c. (SessionErr.ok, m, length m, c);
  on_established = some suc;
  on_terminated = some suc;
}

length-replicate : (n x : ℕ) → length (replicate n x) ≡ n
length-replicate zero x = refl
length-replicate (suc n) x = ap suc (length-replicate n x)

sealed_eq :
    (m ct tag : Bytes)
    → ◌≡◌ {A = Option (Bytes × Bytes)} (some (m, replicate 16 8)) (some (ct, tag))
    → (length ct ≡ length m) × (length tag ≡ 16) × (◌≡◌ {A = Option Bytes} (some ct) (some m))
sealed_eq m ct tag e = ground (arith, length-replicate 16 8)

pub toy_laws : GcmLaws session_env
toy_laws = record {
  random_length = λ n c. length-replicate n 7;
  sealed = λ k n m ct tag e. sealed_eq m ct tag e;
}

-- The link plays its script and is then released.
abbrev next_frame : List Bytes → LliErr × Bytes × List Bytes
next_frame [] = (LliErr.link_released, [], [])
next_frame (f ∷ fs) = (LliErr.ok, f, fs)

abbrev pub script_link : Link (List Bytes)
script_link = record {
  lli_activate = λ t l. (LliErr.ok, l);
  lli_receive_apdu = λ t l. next_frame l;
  lli_send_apdu = λ b t l. (LliErr.ok, l);
  lli_get_link_status = λ l. (LinkStatus.active, l);
  lli_abort = λ l. (LliErr.ok, l);
  tick_count = λ l. (0, l);
  delay_ms = λ t l. l;
  ms_to_ticks = λ ms. ms;
  tick_period_ms = 1;
  handshake_timeout_ms = 5000;
  activate_timeout_ms = 500;
  apdu_timeout_ms = 500;
}

pub next_frame-drains :
    (l : List Bytes)
    → (length (next_frame l).2 < length l)
      ⊎ (((next_frame l).0 ≡ LliErr.link_released) × (length (next_frame l).2 ≤ length l))
next_frame-drains [] = inr (refl, omega arith)
next_frame-drains (f ∷ fs) = inl (omega arith)

-- M1, M3 and one payload of a phone that is authorized.
abbrev pub m1_frame : Bytes
m1_frame = 0x80 ∷ 0x10 ∷ 0 ∷ 0 ∷ 64 ∷ replicate 64 1

abbrev pub m3_frame : Bytes
m3_frame = 0x80 ∷ 0x11 ∷ 0 ∷ 0 ∷ 64 ∷ replicate 64 9

abbrev pub payload_frame : Bytes
payload_frame = 0x80 ∷ 0x20 ∷ 0 ∷ 0 ∷ 29 ∷ replicate 29 2

abbrev pub phone_script : List Bytes
phone_script = m1_frame ∷ m3_frame ∷ payload_frame ∷ []
