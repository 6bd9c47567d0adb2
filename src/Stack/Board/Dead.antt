-- ===== src/Stack/Board/Dead.antt =====
-- What becomes of the comm task on a board whose bus is dead.
use smart_lock_firmware.Common.{
  ℕ, suc, ◌+◌, ◌<◌, ◌≤◌, ◌≡◌, ◌≢◌, refl, ◌∙◌, true, false, some, List, [], ◌∷◌, Bool, Bytes, arith,
  iterate,
}
use smart_lock_firmware.Transport.Apdu.{TransportErr}
use smart_lock_firmware.Transport.Machine.{LliErr, TransportState, Env, Outcome}
use smart_lock_firmware.Transport.Machine
use smart_lock_firmware.Transport.States.{run_idle}
use smart_lock_firmware.Transport.Run.{transport_run_session, session_step, advance}
use smart_lock_firmware.Session.State
use smart_lock_firmware.Pn532.{EspCode}
use smart_lock_firmware.Pn532.Frame.{pn532_build_frame}
use smart_lock_firmware.Pn532.Driver.Receive.{pn532_send_command-write_fails}
use smart_lock_firmware.Pn532.Commands.{exchange, pn532_sam_configuration}
use smart_lock_firmware.Pn532.I2c.{Platform, Bus}
use smart_lock_firmware.Pn532.I2c.Write.{pn532_i2c_write}
use smart_lock_firmware.Pn532.I2c.Write.Failures.{failures, granted-Counts}
use smart_lock_firmware.Lli.{Lli, lli_err_from_esp, configure_pn532, lli_activate}
use smart_lock_firmware.Comm.Task.{TaskEnd, count_fatal}
use smart_lock_firmware.Stack.{World, stack_env}
use smart_lock_firmware.Stack.Board.{Timing, board_link, settle, comm_task_fn}

-- The frame of SAMConfiguration, which an activation writes first.
abbrev sam_frame : Bytes
sam_frame = (pn532_build_frame 0x14 (0x01 ∷ 0 ∷ 0x01 ∷ [])).1

activate_fails :
    {B : Type 0} (h : Lli B) (t : ℕ) (b b1 : B) (err : EspCode)
    → h.pn532.write sam_frame b ≡ (err, b1)
    → err ≢ EspCode.ok
    → lli_activate h t b ≡ (lli_err_from_esp err LliErr.internal, b1)
unfolding lli_activate configure_pn532 pn532_sam_configuration exchange lli_err_from_esp
activate_fails h t b b1 err w ne = ground (
  arith,
  ne,
  pn532_send_command-write_fails h.pn532 0x14 (0x01 ∷ 0 ∷ 0x01 ∷ []) b b1 err (omega arith) w ne,
)

-- The handle between two sessions.
abbrev pub rest : Machine.Handle
rest = record { state = TransportState.idle; session_just_ended = false }

module _ {W : Type 0} (env : Env W) where
  abbrev Runs : ℕ → W → TransportErr → W → Type 0
  Runs fuel w err w1 =
      transport_run_session env fuel rest w ≡ some (record { err = err; handle = rest; world = w1 })

  run_internal :
      (fuel : ℕ) (w w1 : W)
      → env.lli_activate env.activate_timeout_ms w ≡ (LliErr.internal, w1)
      → Runs (suc fuel) w TransportErr.internal w1
  unfolding transport_run_session session_step advance iterate run_idle
  run_internal fuel w w1 a = ground (arith, a)

  run_fatal :
      (fuel : ℕ) (w w1 : W)
      → env.lli_activate env.activate_timeout_ms w ≡ (LliErr.bus_fatal, w1)
      → Runs (suc fuel) w TransportErr.bus_fatal w1
  unfolding transport_run_session session_step advance iterate run_idle
  run_fatal fuel w w1 a = ground (arith, a)

  task_internal :
      (later : List Bool) (fuel n : ℕ) (w w1 : W)
      → Runs fuel w TransportErr.internal w1
      → comm_task_fn env (false ∷ later) fuel rest w n ≡ comm_task_fn env later fuel rest w1 0
  unfolding comm_task_fn count_fatal settle
  task_internal later fuel n w w1 r = rw (r, comm_task_fn) refl

  task_fatal :
      (later : List Bool) (fuel n : ℕ) (w w1 : W)
      → Runs fuel w TransportErr.bus_fatal w1
      → n + 1 < 3
      → comm_task_fn env (false ∷ later) fuel rest w n
        ≡ comm_task_fn env later fuel rest (env.delay_ms 100 w1) (n + 1)
  unfolding comm_task_fn count_fatal settle
  task_fatal later fuel n w w1 r few = ground (arith, r, few)

  task_gives_up :
      (later : List Bool) (fuel : ℕ) (w w1 : W)
      → Runs fuel w TransportErr.bus_fatal w1
      → comm_task_fn env (false ∷ later) fuel rest w 2 ≡ some (TaskEnd.gave_up, rest, w1)
  unfolding comm_task_fn count_fatal
  task_gives_up later fuel w w1 r = rw (r, comm_task_fn) refl

module _ {P C : Type 0} (io : Platform P) (timing : Timing P) (h : Lli (Bus P)) (app : State.Env C)
    (over : h.pn532.write ≡ pn532_i2c_write io)
    (grants : (timeout_ms : ℕ) (p : P) → (io.mutex_take timeout_ms p).0 ≡ true)
    (fails : (frame : Bytes) (b : Bus P) → (pn532_i2c_write io frame b).0 ≢ EspCode.ok) where
  abbrev env : Env (World (Bus P) C)
  env = stack_env (board_link io timing h) app

  -- The bus of a world has failed `n` recoveries in a row.
  abbrev Failed : ℕ → World (Bus P) C → Type 0
  Failed n w = failures w.link ≡ n

  abbrev next : World (Bus P) C → World (Bus P) C
  next w = record w { link = (pn532_i2c_write io sam_frame w.link).1 }

  activate :
      (w : World (Bus P) C)
      → env.lli_activate env.activate_timeout_ms w
        ≡ (lli_err_from_esp (pn532_i2c_write io sam_frame w.link).0 LliErr.internal, next w)
  unfolding board_link
  activate w =
      let (err, b1) = pn532_i2c_write io sam_frame w.link in
      rw
        (activate_fails h timing.activate_timeout_ms w.link b1 err (rw over refl)
          (fails sam_frame w.link))
        refl

  early :
      (fuel n : ℕ) (w : World (Bus P) C)
      → Failed n w
      → n < 2
      → Failed (n + 1) (next w) × Runs env (suc fuel) w TransportErr.internal (next w)
  unfolding lli_err_from_esp
  early fuel n w at few =
      let counted = granted-Counts io sam_frame w.link grants (omega (arith, at, few)) in
      let answer : (pn532_i2c_write io sam_frame w.link).0 ≡ EspCode.timeout =
        (ground (arith, counted, at, few, fails sam_frame w.link)) in
      (
        ground (arith, counted, at, few, fails sam_frame w.link),
        run_internal env fuel w (next w) (rw (activate w, answer) refl),
      )

  late :
      (fuel : ℕ) (w : World (Bus P) C)
      → 2 ≤ failures w.link
      → failures w.link ≤ 3
      → Failed 3 (next w) × Runs env (suc fuel) w TransportErr.bus_fatal (next w)
  unfolding lli_err_from_esp
  late fuel w two most =
      let counted = granted-Counts io sam_frame w.link grants most in
      let answer : (pn532_i2c_write io sam_frame w.link).0 ≡ EspCode.invalid_state =
        (ground (arith, counted, two, fails sam_frame w.link)) in
      (
        ground (arith, counted, two, fails sam_frame w.link),
        run_fatal env fuel w (next w) (rw (activate w, answer) refl),
      )

  abbrev settled : World (Bus P) C → World (Bus P) C
  settled w = env.delay_ms 100 (next w)

  -- On a board whose bus never takes a frame, with its mutex free, the comm task that starts with no
  -- failed recovery gives up in the fifth session, unless it is asked to stop: two sessions fail with an
  -- internal error, which resets the count of fatal errors, and the next three with the fatal one.
  pub comm_task_fn-gives_up :
      (later : List Bool) (fuel : ℕ) (w : World (Bus P) C)
      → failures w.link ≡ 0
      → (w' : World (Bus P) C) × (comm_task_fn
            (stack_env (board_link io timing h) app)
            (false ∷ false ∷ false ∷ false ∷ false ∷ later)
            (suc fuel)
            rest
            w
            0
          ≡ some (TaskEnd.gave_up, rest, w'))
  unfolding board_link
  comm_task_fn-gives_up later fuel w healthy =
      let w1 = next w in
      let w2 = next w1 in
      let w3 = settled w2 in
      let w4 = settled w3 in
      let (f1, r1) = early fuel 0 w healthy (omega arith) in
      let (f2, r2) = early fuel 1 w1 f1 (omega arith) in
      let (f3, r3) = late fuel w2 (omega (arith, f2)) (omega (arith, f2)) in
      let (f4, r4) = late fuel w3 (omega (arith, f3)) (omega (arith, f3)) in
      let (f5, r5) = late fuel w4 (omega (arith, f4)) (omega (arith, f4)) in
      (
        next w4,
        task_internal env (false ∷ false ∷ false ∷ false ∷ later) (suc fuel) 0 w w1 r1
            ∙ task_internal env (false ∷ false ∷ false ∷ later) (suc fuel) 0 w1 w2 r2
            ∙ task_fatal env (false ∷ false ∷ later) (suc fuel) 0 w2 (next w2) r3 (omega arith)
            ∙ task_fatal env (false ∷ later) (suc fuel) 1 w3 (next w3) r4 (omega arith)
            ∙ task_gives_up env later (suc fuel) w4 (next w4) r5,
      )
