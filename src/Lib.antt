-- ===== src/Lib.antt =====
-- A verification of the smart lock's firmware: the NFC session from the link to the bolt.
--
-- A phone exchanges APDUs with the lock. The transport runs the session state machine over the link
-- layer, the session layer authenticates the phone and encrypts the channel, the communication
-- module hands each command to the Application task through a mailbox, and the Application answers
-- it and drives the actuator. Keys, the lock's identity and the actuation intent are kept in flash.
--
-- The parts and their files. Names of operations are those of the C functions; a C function that is
-- long is cut into definitions, whose comments say which part they are.
-- * Transport (components/transport/src/transport.c). Transport/Apdu parses a command and prints a
--   response. Transport/Machine has the handle, the record Env of what the transport calls, and the
--   teardown sequences; Transport/States the four handlers run_idle, run_activated, run_handshake
--   and run_secure_session; Transport/Run the loop of transport_run_session and the rest of the
--   interface.
-- * Session (components/session/src/session.c, session_crypto.c). Session/Crypto is the seam to the
--   primitives, Session/State the structure, the transcript and the erase, Session/Handlers the
--   messages M1 and M3, Session/Channel the secure payloads and the provisioning window.
-- * Stack puts the session layer under the transport, as comm_module_init does; Stack/Board puts the
--   link of lli.c below it and the comm task of comm_module.c on top.
-- * Storage (components/storage/src). Storage/Hal is storage_hal.c, Storage/KeyStore and
--   Storage/Identity are key_store.c, Storage/IntentLog is intent_log.c.
-- * Comm (components/comm_module/src/comm_module.c): the mailbox and flags; Comm/Race has the two
--   tasks as interleaved steps, Comm/Task the loop of the comm task.
-- * Actuator (components/actuator): the interface, in Actuator/Stub the simulated backend, and in
--   Actuator/Unwired the two whose motors are not wired.
-- * Integrity (components/integrity/src): the dispatcher and both backends.
-- * App (components/app_module/src). App/State is the state of the Application task and what it
--   drives, App/Actuation and App/Loop are app_module.c, App/Provision is provision_mgr.c,
--   App/Dispatch is app_dispatch.c, App/Button is provision_button.c. App/Start is the start: the
--   rest of app_module.c and run_full_application of main/smart_lock_firmware.c.
-- * Pn532 (components/pn532/src), the driver of the NFC chip. Pn532/Frame builds and parses frames and
--   Pn532/Driver has the handshake, resync and retry, both pn532.c; Pn532/Commands and Pn532/Targets
--   are pn532_cmd.c; Pn532/I2c is the transport pn532_i2c.c, with the recovery of a wedged bus in
--   I2c/Recovery, the write in I2c/Write, and creation and destruction in I2c/Lifecycle.
-- * Lli (components/lli/src/lli.c) is the link layer over that driver, Lli/Init its start and end.
-- * Common has the shared names, tests and lemmas, Tests the concrete runs.
--
-- State is passed explicitly. A buffer is the list of its bytes in use, an error is a constructor
-- of the C enumeration, and a call of a platform function takes the platform's state and returns
-- it. The platform's I2C, GPIO and semaphores, the clock, the flash library, the random numbers,
-- the actuator backend and the cryptographic primitives are parameters. What is assumed of them
-- stands in the records Drains (a link has finitely many exchanges), NvsLaws (what the flash
-- library documents of successful calls), IsAtomic (a removal that fails loses no other pair) and
-- GcmLaws (what is sealed opens again), each of which has an instance in Tests.
--
-- Ticks are 32-bit numbers and wrap, a response length is one byte and wraps. The loops of the
-- transport and of the boot recovery run on fuel. For the transport, more fuel than the exchanges
-- of the phone and four rounds for the changes of state is enough, and for the boot recovery more
-- than the microseconds of its 10 seconds, where the timer advances (the record Advances). HKDF
-- runs on one unit of fuel for each byte that it has to produce, of which each block makes at
-- least one. The loops over the 64 slots and the 64 candidates are structural.
--
-- The transport takes the link layer as the parameter Link, and the link layer the state of the
-- bus as a parameter, so that each stands for itself; Stack/Board joins them. The resync of the
-- driver, its retries, and the polls and clock pulses of the I2C transport are structural in the
-- bound that the source gives them. Fetching chained data (pn532_tg_get_data) has no bound in the
-- source and runs on fuel: one round more than the 265 bytes of its buffer is enough where every
-- fragment carries a byte. A context that was freed keeps its content, and the number of times it
-- was freed is counted.
--
-- Not modelled: the mock of the link layer; the display (output only); the test harnesses of the
-- entry point; logging; monocypher, a library. Pointers that are NULL are modelled only where a
-- function can be called with one.
pub mod Common
pub mod Transport
pub mod Session
pub mod Stack
pub mod Storage
pub mod Comm
pub mod Actuator
pub mod App
pub mod Pn532
pub mod Lli
pub mod Integrity
pub mod Tests
