-- ===== src/Lib.antt =====
-- The controller of the Nightshift desk: what its parts do with bytes, frames, actions and pressure
-- samples.
--
-- The program reads T5-Link frames of a panel from a serial line, keeps a session with the panel in
-- which each UI action is carried out once, takes commands over MQTT, reads pressure samples of an
-- ESP32 from MQTT, and derives from them the mode of the desk.
--
-- The module Prelude: the shared helpers. Results models exceptions as a sum, Exec a method of an
-- object as a function from the state to a result and the state, Bytes the formats of `struct` and
-- `int.to_bytes`, Int the integers with a sign.
--
-- The module Domain: the package nightshift/domain. Commands is commands.py, Models is models.py
-- with `evolve` of the system state, Pressure is pressure.py, StateMachine is state_machine.py,
-- Events is events.py, PressureMock is pressure_mock.py.
--
-- The module Uart: the package nightshift/hardware/uart. Crc, Cobs and Framing are codec.py. Frame,
-- Text, Encode and Parse are protocol.py. Session is session.py. Reader is the buffer of
-- `_read_loop` in gateway.py, and Gateway the state of `UartGateway` and its `_dispatch`,
-- `_handle_ui_action` and `_send_ack`; of its children, Send is `send` and `send_no_wait`,
-- Heartbeat a round of `_heartbeat_loop`, Connection `_connect`, `_disconnect`, `_handshake` and a
-- round of `_connection_loop`, and ReadLoop `_read_loop` over the reads that end, with its child
-- Frames on a stream of frames.
--
-- The module Services: the package nightshift/services. Executor is executor_service.py, Tasks is
-- task_service.py, Notices is notice_service.py, Confirmations is confirmation_service.py, over a
-- database of tables as lists of rows; an UPDATE returns its `rowcount` beside the rows, and
-- AUTOINCREMENT is the last id given out. Orchestrator is orchestrator.py: its child Payload has
-- the payloads that are sent, Sync `_send_core_state`, `_publish_state` and `_full_sync`, Apply
-- `_evaluate_and_apply`, Events `_on_event`, Actions `_handle_ui_action` and the methods that
-- change the executor, the tasks and the notices, Listeners the registered listeners and
-- `_tick_loop`, and Invariant what all of them keep.
--
-- The module Mqtt: Topics is nightshift/integrations/mqtt/topics.py, Schemas `parse_command` of
-- schemas.py, CommandHandler command_handler.py with its child Dispatch for `_dispatch`, Documents
-- the builders of schemas.py, Publisher publisher.py, Client what client.py does with one state,
-- event or message, with its child RunLoop for `_run_loop` and `_connect_and_run`, Backoff the
-- waits between two connections, PressureCodec is nightshift/domain/pressure_codec.py,
-- PressureAdapter the handlers of nightshift/integrations/mqtt/pressure_adapter.py, with its child
-- RunLoop for `_run_loop`, and Json the values that `json.loads` returns.
--
-- The module Persistence: nightshift/persistence/database.py. What the system gives for a path (the
-- directory, the connection, the pragmas) is a parameter, the record Disk. A file is the names of
-- its tables and the rows of `schema_version`, and Recovery is about starts that were cut off
-- between two statements.
--
-- The module Config: nightshift/config.py and nightshift/integrations/mqtt/config.py, and the
-- arguments of the connections that are made from them; its child Broker is about the two
-- connections.
--
-- The module Tools: the directory tools. Vectors is regenerate_golden_vectors.py, with the vectors
-- in StateSpecs and PanelSpecs, and Contract is check_cross_repo_contract.py, with
-- `find_t5_contract` in Find and `main` in Run.
--
-- The module System: the gateway with the orchestrator as its callbacks. Its child Serial is about
-- any bytes of the panel, Boot is `main` of apps/backend/main.py up to the start of its tasks, and
-- World the whole program as a relation of steps: frames of the panel, messages of the broker,
-- ticks and calls in any order.
--
-- The module Examples: the theorems applied at concrete inputs.
--
-- The components meet in Uart.Gateway. Uart.Reader cuts the stream at zero bytes and hands each
-- piece to `receive`, which unstuffs it (Uart.Framing), parses it (Uart.Frame) and dispatches the
-- frame; a UI action is parsed (Uart.Parse), looked up in the session (Uart.Session) and given to
-- the handler, a callback over the state of the rest of the program. The orchestrator is such a
-- handler (System), and the MQTT commands reach it by the same methods (Mqtt.CommandHandler).
--
-- What other tasks do while a method waits is a parameter: `wait` of the gateway, `meanwhile` of an
-- arrival or a tick, `told` of an arrival, the calls of the client's listeners while its message is
-- handled, and the Environment of the orchestrator, whose sends and listeners may change the
-- orchestrator. What the serial port, the broker and the stop event do over time is a list: of
-- reads, or of rounds of a loop with the messages that arrive in each. A theorem says what it
-- assumes of them.
--
-- An exception is a value of the type Error: a function that may raise returns a Result, and a
-- method returns its result together with the state, which keeps what was changed before the
-- exception. Bytes are lists of numbers, and a hypothesis says where a number has to be below 256.
-- A string that crosses the wire is a list of code points. The decoder of COBS runs on as many
-- steps as it has bytes, and the reader on as many rounds as its buffer has bytes; that the former
-- is enough is proved, and the latter follows from each round taking a byte at least. Times are
-- numbers of milliseconds, and a difference of times is compared as a sum, so that nothing is cut
-- off at 0.
--
-- SHA-256, `json.loads`, `json.dumps`, the parser of YAML, `int` and `float` on a text, the
-- environment of the process, the file system of the tools, and the decoder of UTF-8 in
-- `parse_command` are parameters. A request has at most four attempts, the default of
-- `max_retries`. The waits of the MQTT loops are whole seconds, since 1 is doubled up to 30.
--
-- Not modelled: the event loop with the creation and the cancellation of tasks, which `start` and
-- `stop` of the parts consist of, locks and sleeps; the libraries of the database and of MQTT,
-- beyond what their calls return; the text of a JSON document; the messages for a person in replies
-- and logs; what a handler of UI actions sends over the gateway that calls it; and
-- tools/verify_wiring.py, which runs shell commands on the board.
pub mod Prelude
pub mod Uart
pub mod Domain
pub mod Services
pub mod Mqtt
pub mod Persistence
pub mod Config
pub mod Tools
pub mod System
pub mod Examples
