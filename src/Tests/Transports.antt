-- ===== src/Tests/Transports.antt =====
-- Runs of the transport, alone and with the session on top.
use smart_lock_firmware.Common.{
  bytes_eq, iterate, Bool, ◌+◌, ◌-◌, ◌%◌, ◌^◌, ℕ, ◌≡◌, ◌≢◌, ◌↔◌, ◌≤◌, refl, Option, none, some,
  List, Bytes, length, replicate, leb, arith,
}
use smart_lock_firmware.Session.Crypto.{session_crypto_ed25519_verify, session_crypto_hkdf_sha256}
use smart_lock_firmware.Session.Handlers.{find_peer}
use smart_lock_firmware.Session.Channel.{session_on_apdu}
use smart_lock_firmware.Transport.States.{
  handshake_step, run_activated, run_handshake, run_idle, run_secure_session, secure_step,
}
use smart_lock_firmware.Transport.Run.{session_step, transport_run_session}
use smart_lock_firmware.Transport.Machine.{
  invoke_erase, TransportState, Handle, Env, Outcome, ticks_left, deadline_passed,
}
use smart_lock_firmware.Transport.Apdu.{TransportErr, Capdu, parsed, parse_capdu}
use smart_lock_firmware.Transport.Apdu.Codec.{capdu_bytes, IsWellFormed, parse_capdu_iff}
use smart_lock_firmware.Transport.Deadline.{deadline_wraps}
use smart_lock_firmware.Transport.Termination.{Drains, transport_run_session-returns}
use smart_lock_firmware.Session.State.{session_init}
use smart_lock_firmware.Session.Erase.{IsClean, session_init-IsClean}
use smart_lock_firmware.Stack.{World, stack_env}
use smart_lock_firmware.Stack.Wiped.{Agrees, transport_run_session-wipes}
use smart_lock_firmware.Tests.Platform.{
  script_link, session_env, next_frame-drains, phone_script, m1_frame,
}

abbrev the_stack : Env (World (List Bytes) ℕ)
the_stack = stack_env script_link session_env

abbrev start : World (List Bytes) ℕ
start = record { link = phone_script; session = session_init; context = 0 }

abbrev idle_handle : Handle
idle_handle = record { state = TransportState.idle; session_just_ended = Bool.false }

abbrev frames_left : World (List Bytes) ℕ → ℕ
frames_left w = length w.link

drains : Drains the_stack frames_left
unfolding invoke_erase
drains = record {
  receive = λ t w. next_frame-drains w.link;
  activate = λ t w. omega arith;
  send = λ b t w. omega arith;
  link_status = λ w. omega arith;
  ticks = λ w. omega arith;
  delay = λ t w. omega arith;
  apdu = λ c w. omega arith;
  erase = λ w. omega arith;
}

abbrev or_start : Option (Outcome (World (List Bytes) ℕ)) → Outcome (World (List Bytes) ℕ)
or_start none = record { err = TransportErr.internal; handle = idle_handle; world = start }
or_start (some o) = o

-- The outcome of the whole run of the phone.
abbrev end : Outcome (World (List Bytes) ℕ)
end = or_start (transport_run_session the_stack 20 idle_handle start)

run_ends : transport_run_session the_stack 20 idle_handle start ≡ some end
unfolding transport_run_session iterate session_step run_idle run_activated session_on_apdu
    run_handshake handshake_step session_init find_peer session_crypto_ed25519_verify bytes_eq
    session_crypto_hkdf_sha256 run_secure_session secure_step
run_ends = refl

-- The run was a whole session: established, answered, ended, and reported.
end_counts : (end.world.context ≡ 3) × (end.err ≡ TransportErr.ok)
unfolding transport_run_session iterate session_step run_idle run_activated session_on_apdu
    run_handshake handshake_step session_init find_peer session_crypto_ed25519_verify bytes_eq
    session_crypto_hkdf_sha256 run_secure_session secure_step
end_counts = (refl, refl)

transport_run_session-returns_example :
    (o : Outcome (World (List Bytes) ℕ)) × (transport_run_session the_stack 20 idle_handle start
      ≡ some o)
transport_run_session-returns_example =
    transport_run_session-returns the_stack frames_left drains 20 idle_handle start (omega arith)

transport_run_session-wipes_example :
    Agrees end.handle.state end.world
    × (end.err ≢ TransportErr.bus_fatal → IsClean end.world.session)
transport_run_session-wipes_example =
    transport_run_session-wipes script_link session_env 20 idle_handle start end
      session_init-IsClean run_ends

abbrev m1_command : Capdu
m1_command = record { cla = 0x80; ins = 0x10; p1 = 0; p2 = 0; lc = 64; payload = replicate 64 1 }

parse_capdu_iff_example :
    (parse_capdu m1_frame ≡ parsed m1_command)
    ↔ ((m1_frame ≡ capdu_bytes m1_command) × IsWellFormed m1_command)
parse_capdu_iff_example = parse_capdu_iff m1_frame m1_command

-- The counter wraps between the start and the deadline.
deadline_wraps_example :
    (deadline_passed ((4294967290 + 100) % 2 ^ 32) ((4294967290 + 60) % 2 ^ 32) ≡ leb 100 60)
    × (60 ≤ 100 → ticks_left ((4294967290 + 100) % 2 ^ 32) ((4294967290 + 60) % 2 ^ 32) ≡ 100 - 60)
deadline_wraps_example = deadline_wraps 4294967290 100 60 (omega arith) (omega arith) (omega arith)
