-- ===== src/Stack.antt =====
-- The session layer plugged into the transport, as components/comm_module/src/comm_module.c does:
-- `on_apdu = session_on_apdu`, `on_erase = session_on_erase`, `user_ctx` the session.
pub mod Wiped
pub mod Board
use smart_lock_firmware.Common.{ℕ, Option, some, [], Bytes}
use smart_lock_firmware.Transport.Apdu.{Rapdu}
use smart_lock_firmware.Transport.Machine.{LliErr, LinkStatus}
use smart_lock_firmware.Transport.Machine
use smart_lock_firmware.Session.State.{Session, session_on_erase}
use smart_lock_firmware.Session.State
use smart_lock_firmware.Session.Channel.{session_on_apdu}

-- The link layer and the clock under the transport, over a link state `L`, with the transport's
-- timeouts.
pub record Link (L : Type 0) : Type 0 where
  pub lli_activate : ℕ → L → LliErr × L
  pub lli_receive_apdu : ℕ → L → LliErr × Bytes × L
  pub lli_send_apdu : Bytes → ℕ → L → LliErr × L
  pub lli_get_link_status : L → LinkStatus × L
  pub lli_abort : L → LliErr × L
  pub tick_count : L → ℕ × L
  pub delay_ms : ℕ → L → L
  pub ms_to_ticks : ℕ → ℕ
  pub tick_period_ms : ℕ
  pub handshake_timeout_ms : ℕ
  pub activate_timeout_ms : ℕ
  pub apdu_timeout_ms : ℕ

pub record World (L C : Type 0) : Type 0 where
  pub link : L
  pub session : Session
  pub context : C

-- The response structure on the transport's stack before the handler fills it.
abbrev pub blank_rapdu : Rapdu
blank_rapdu = record { payload = []; len = 0; sw1 = 0; sw2 = 0 }

module _ {L C : Type 0} (link : Link L) (env : State.Env C) where
  abbrev pub stack_env : Machine.Env (World L C)
  stack_env = record {
    lli_activate = λ t w. let (e, l) = link.lli_activate t w.link in (e, record w { link = l });
    lli_receive_apdu =
        λ t w. let (e, b, l) = link.lli_receive_apdu t w.link in (e, b, record w { link = l });
    lli_send_apdu =
        λ b t w. let (e, l) = link.lli_send_apdu b t w.link in (e, record w { link = l });
    lli_get_link_status =
        λ w. let (s, l) = link.lli_get_link_status w.link in (s, record w { link = l });
    lli_abort = λ w. let (e, l) = link.lli_abort w.link in (e, record w { link = l });
    tick_count = λ w. let (n, l) = link.tick_count w.link in (n, record w { link = l });
    delay_ms = λ t w. record w { link = link.delay_ms t w.link };
    ms_to_ticks = link.ms_to_ticks;
    tick_period_ms = link.tick_period_ms;
    on_apdu = λ capdu w.
        let o = session_on_apdu env w.session capdu blank_rapdu w.context in
        (o.err, o.rapdu, record w { session = o.session; context = o.context });
    on_erase = some (λ w.
        let (s, c) = session_on_erase env w.session w.context in
        record w { session = s; context = c });
    handshake_timeout_ms = link.handshake_timeout_ms;
    activate_timeout_ms = link.activate_timeout_ms;
    apdu_timeout_ms = link.apdu_timeout_ms;
  }
