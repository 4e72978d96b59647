-- ===== src/Lib.antt =====
-- The management program of an S-band antenna (s_band_antenna_mgmt), which runs on the board between
-- the phased array's FPGA and the base band unit (BBU). This library models its communication core
-- and its alarms, as far as they are pure computation on the program's own state.
--
-- The parts, and how they interact:
--
-- - Ring (s_band_antenna_mgmt/src/rBuf.c): the byte ring between the serial port and the parser.
--   `RBuf` is RBUF; `put`, `get`, `remove`, `n_bytes`, `is_full` and `clear` are rBufPut, rBufGet,
--   rBufRemove, rBufNBytes, rBufIsFull and rBufClear. Ring.Contents has the bytes that a ring holds.
-- - Finder (s_band_antenna_mgmt/src/pkfinder.c): `find` is pkfinderFind, `parse` is pkfinderParse,
--   which takes packets out of a Ring and passes them to a callback. The callback is a parameter with
--   a state of its own; Finder.Parse.Keeps is what a client shows of it.
-- - Rs422 (s_band_antenna_mgmt/src/rs422_protocol.c): the frames of the firmware line: `checksum`,
--   `encode_frame`, `decode_frame`, `build_file_data`, and in Rs422.Commands the commands.
-- - Uart (s_band_antenna_mgmt/src/uart_rs422_client.c): `recv_frame` is the loop of
--   uart_rs422_recv_frame over the events that the operating system reports; it stores chunks in a
--   Ring, runs the Finder, and its callback `check_and_process` checks the frames of Rs422.
--   `send_and_wait` is the transaction above it.
-- - Alarm (s_band_antenna_mgmt/src/alarm_manager.c): the table of alarms with `trigger` and `clear`,
--   in Alarm.Pending the operations on the whole table, in Alarm.Edges the checks that turn readings
--   into alarms, in Alarm.Grace the grace period and the periodic check, in Alarm.Readings and Outcome
--   which alarms are active behind it.
-- - Pool, Cpri, Fpga (s_band_antenna_mgmt/src/cpri_protocol.c, s_band_antenna_mgmt/src/fpga_protocol.c):
--   the static pools of payload buffers, the messages to the BBU, and the frames and packed
--   frequencies of the FPGA.
-- - Heartbeat (s_band_antenna_mgmt/src/heartbeat.c): the manager of the heartbeats; `send_paau` sends a
--   message of Cpri.
-- - Shell (s_band_antenna_mgmt/src/shell_util.c): the checks `shell_safe_name`, `shell_safe_relpath`
--   and `shell_safe_tar_member`; in Shell.Paths, where an accepted path leads.
-- - Package (s_band_antenna_mgmt/src/firmware_package.c): the metadata of a firmware package and the
--   check of its digest. `Host` stands for the files and SHA-256.
-- - Inject (s_band_antenna_mgmt/src/fpga_firmware_injector.c): the thread that loads firmware. Its
--   surroundings are the interface Inject.Interface, which Inject.Serial fills with the client of
--   Uart. Inject.Task has the state; Inject.Opening, Packets and Thread have the handlers, built on
--   the frames of Rs422 and the metadata of Package; Inject.Delivery, Position, Transfer and Completion
--   carry what holds in each state through the handlers and the loop, Inject.Polling shows that the
--   polling ends.
-- - Watchdog (s_band_antenna_mgmt/src/fpga_watchdog.c): the pin that is toggled for the FPGA's
--   hardware watchdog, with the calls of the alarm manager that its thread makes.
-- - FpgaUart (s_band_antenna_mgmt/src/uart_client.c): the frames in the byte stream from the FPGA.
-- - Transparent (s_band_antenna_mgmt/src/transparent_msg.c): messages whose content goes to the FPGA
--   as it is, with the answer, which Cpri encodes.
-- - Dispatch (s_band_antenna_mgmt/src/msg_handler.c): which messages are accepted and which handler
--   they reach; the handlers are names.
-- - Stream (s_band_antenna_mgmt/src/main.c and tcp_client.c): the messages in the byte stream of the
--   TCP link, which are decoded with Cpri.
-- - Cell (s_band_antenna_mgmt/src/cell_config.c): the cells and their frequencies, the control of the
--   transmitter, the elements of a configuration with their answers (Cell.Request), and the queue of
--   requests (Cell.Jobs). The antenna is an interface. Cell.Apply and Cell.Frequency have the
--   operations; Cell.Lookup, Consistent, Keeps, Upkeep and Invariant are about the tables, Carried
--   and Transmit about the transmitter, Established and Answer about what is answered.
-- - Send (s_band_antenna_mgmt/src/uart_client.c and tcp_client.c): the loops that write all bytes.
-- - Handler (s_band_antenna_mgmt/src/fpga_handler.c): the commands to the FPGA, as frames of Fpga that
--   Send writes.
-- - AlarmQuery (s_band_antenna_mgmt/src/alarm_query.c): the answers to a query of the table of Alarm.
-- - MessageRing (s_band_antenna_mgmt/src/rng.c): the ring of messages of one length, against a bounded
--   queue in MessageRing.Refine, and the two buffers that change places.
-- - Base: tests on native numbers, lists with native indices, copies into arrays, machine words,
--   error results, and facts on bit operations.
--
-- State is passed in and out. A C array or a buffer with its length is a list of numbers; a property
-- that needs the numbers to be bytes says so (`AreBytes`). Sums and differences of a uint32_t are
-- `add32` and `sub32`, with their wrap-around. A null pointer where the program only checks for it is
-- left out; where a message may have no payload it is `none`. Log output, waits and locks are left
-- out: a critical section is one step, and what other threads do between two of them is the argument
-- `other`.
--
-- Fuel: `parse` runs the loop of pkfinderParse on fuel, since its progress depends on the finder's
-- configuration. Each round that goes on passes at least one byte, so that fuel above the number of
-- bytes is enough; `take_chunk` gives 5121 for a parse buffer of 5120. `check_segments`, `file_lines`,
-- FpgaUart.process, Stream.process, `parse_ies`, `answer_ies` and `busy_ies` have fuel for every byte,
-- since each round takes one. `poll_start` has 303 rounds, each of which waits a second of at most 300,
-- unless an abort is asked for. `wait_change` and `wait_back` share the 50 rounds of a wait of 5
-- seconds. The loops of Send follow the list of what the system does. `thread_loop` takes its fuel as an
-- argument. All other loops are structural.
--
-- Not modelled: opening and configuring devices, sockets and files, the clock, the log, and the parts
-- of the program above these (the version manager, the other handlers of the BBU's messages and the
-- start-up of the main program), which are input and output to a large part.
pub mod Base
pub mod Ring
pub mod Finder
pub mod Rs422
pub mod Uart
pub mod Alarm
pub mod Pool
pub mod Cpri
pub mod Fpga
pub mod Heartbeat
pub mod Shell
pub mod Package
pub mod Inject
pub mod Watchdog
pub mod FpgaUart
pub mod Transparent
pub mod Dispatch
pub mod Stream
pub mod Cell
pub mod Send
pub mod Handler
pub mod AlarmQuery
pub mod MessageRing
