-- ===== src/Transport/Run.antt =====
-- `transport_run_session` and the rest of the public operations of
-- components/transport/src/transport.c.
use smart_lock_firmware.Common.{
  ℕ, ◌≡◌, ap, Bool, true, false, not, Option, none, some, if◌then◌else◌, Next, again, stop, iterate,
}
use smart_lock_firmware.Transport.Apdu.{TransportErr}
use smart_lock_firmware.Transport.Machine.{
  LliErr, LinkStatus, TransportState, Handle, Env, Outcome, invoke_erase, fail,
}
use smart_lock_firmware.Transport.States.{
  run_idle, run_activated, run_handshake, run_secure_session,
}

-- `transport_init`, given whether both arguments are there, whether `calloc` succeeds, and what
-- `lli_init` returns.
unfoldable pub transport_init : Bool → Bool → LliErr → TransportErr × Option Handle
transport_init args allocated lli = elim lli [
  | LliErr.ok ↦
      if not args
      then (TransportErr.invalid_apdu, none)
      else if not allocated
      then (TransportErr.internal, none)
      else (
        TransportErr.ok,
        some (record { state = TransportState.idle; session_just_ended = false }),
      )
  | _ ↦ (if not args then TransportErr.invalid_apdu else TransportErr.internal, none)
]

abbrev pub join {ℓ} : {A : Type ℓ} → Option (Option A) → Option A
join none = none
join (some o) = o

pub join-eq_some {ℓ} :
    {A : Type ℓ} (o : Option (Option A)) (a : A) → join o ≡ some a → o ≡ some (some a)
join-eq_some none a h = cc
join-eq_some (some o) a h = ap some h

module _ {W : Type 0} (env : Env W) where
  -- A handler that fails ends the call; after any other the loop looks at the new state.
  unfoldable pub advance : Outcome W → Next (Handle × W) (Option (Outcome W))
  advance o = elim o.err [ TransportErr.ok ↦ again (o.handle, o.world) | _ ↦ stop (some o) ]

  unfoldable pub advance? : Option (Outcome W) → Next (Handle × W) (Option (Outcome W))
  unfolding advance
  advance? none = stop none
  advance? (some o) = advance o

  -- One round of the `switch`. `fuel` is for the loops of the handlers.
  unfoldable pub session_step : ℕ → Handle × W → Next (Handle × W) (Option (Outcome W))
  unfolding advance?
  session_step fuel (h, w) = elim h.state [
    | TransportState.idle ↦ advance (run_idle env h w)
    | TransportState.activated ↦ advance (run_activated env h w)
    | TransportState.handshake ↦ advance? (run_handshake env fuel h w)
    | TransportState.secure_session ↦ advance? (run_secure_session env fuel h w)
    | TransportState.released ↦ stop (
        some (
          fail TransportErr.ok (record h { state = TransportState.idle; session_just_ended = true })
            (env.lli_abort w).1))
  ]

  unfoldable pub transport_run_session : ℕ → Handle → W → Option (Outcome W)
  transport_run_session fuel h w =
      join (iterate fuel (session_step fuel) (record h { state = TransportState.idle }, w))

  unfoldable pub transport_abort : Handle → W → Outcome W
  unfolding invoke_erase
  transport_abort h w =
      let w1 : W = elim h.state [
        | TransportState.idle ↦ w
        | TransportState.released ↦ w
        | _ ↦ invoke_erase env w
      ] in
      let (e, w2) = env.lli_abort w1 in
      elim e [
        | LliErr.ok ↦ fail TransportErr.ok (record h { state = TransportState.idle }) w2
        | _ ↦ fail TransportErr.internal (record h { state = TransportState.released }) w2
      ]

  unfoldable pub transport_is_session_active : Handle → W → Bool × W
  transport_is_session_active h w = elim h.state [
    | TransportState.secure_session ↦
        let (link, w1) = env.lli_get_link_status w in
        (elim link [ LinkStatus.active ↦ true | _ ↦ false ], w1)
    | _ ↦ (false, w)
  ]
