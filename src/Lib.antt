-- ===== src/Lib.antt =====
-- 8B reads, changes and writes the profiles and macros of 8BitDo controllers over their USB config
-- interface. This is the verification library of its core crate, crates/controller-core.
--
-- The program's parts, from the wire up, and the files that model them:
--
-- Protocol: crates/controller-core/src/protocol. A packet is a list of 64 bytes.
--   Protocol/Bytes: bytes.rs, bounds-checked fields of a buffer.
--   Protocol/Crc16: crc16.rs, the checksum in data packets.
--   Protocol/Framing: framing.rs, how a packet goes on the wire in each current mode, and which
--     report read back is its reply.
--   Protocol/Text: text.rs, names as UTF-16BE fields.
--   Protocol/WireWrite: wire_write.rs, the write packets and the checks of their responses.
--   Protocol/Wire: wire.rs, the read packets and the responses that carry data.
--   Protocol/Layout: how a pad reads a data packet, an independent description from the protocol's
--     documents; the builders are proved against it.
-- Model: crates/controller-core/src/model.
--   Model/Mode, Model/Slot, Model/MacroSlot: ids.rs.
--   Model/Macros: macros.rs, the types of a macro.
--   Model/Glide: glide.rs, gliding steps expanded to short ones and folded back.
-- Transport: crates/controller-core/src/transport.
--   Transport/WriteInput: write_input.rs, input checks and the chunk plan of a blob.
--   Transport/Session: session.rs, an open node: pause, send, wait for the reply, resume.
--   Transport/Commands: what the commands below call on `&mut Session`, as a record of operations.
--   Transport/HidrawWrite: hidraw_write.rs, profile and macro writes on a session.
--   Transport/HidrawRead: hidraw_device.rs, profile and macro reads on a session.
-- Service: crates/controller-core/src/service, error.rs and model/outcome.rs.
--   Service/Device: the traits `DeviceIo` and `Model` as records, which the rest takes.
--   Service/Outcome: error categories and the outcome of a write.
--   Service/Readback: readback.rs, the bank before a write, and whether the write may go on.
--   Service/Rollback: rollback.rs, the backup written back, or else saved.
-- Orchestrator: crates/controller-core/src/orchestrator.
--   Orchestrator/Write: write.rs, the job that every profile write runs in; Write/Banks, Write/Jobs
--     and Write/Success are about its bank, its end and its report.
-- Devices/Pro3: crates/controller-core/src/devices/pro3, the codec of the Pro 3.
--   Devices/Pro3, its modes, commands and slots: mod.rs.
--   Devices/Pro3/Tables: tables.rs, offsets and the codes of the buttons in each mode.
--   Devices/Pro3/Settings: settings.rs, the typed settings.
--   Devices/Pro3/Macros: macros.rs, step streams and descriptors, both ways.
--   Devices/Pro3/Profile, Devices/Pro3/Reading, Devices/Pro3/Defaults: profile.rs, the decoder, first
--     the buttons, then the settings and `map_profile`, and the default profile.
--   Devices/Pro3/Compile, Devices/Pro3/Blob: profile.rs, the compiler, first the codes of buttons,
--     then `compile_profile` section by section.
--   Devices/Pro3/Edit: edit.rs, the other writes to a blob; Edit/Sequence has them as commands.
-- Shared: numbers, lists, tests, bits and the crate's error type (error.rs).
--
-- How the parts interact: a write checks its input (WriteInput), cuts it in chunks, builds a packet
-- for each (WireWrite), sends it on the session, which frames it (Framing), waits for the report
-- that replies, and gives it back in normal layout for the check (WireWrite again). A read goes the
-- same way with Wire. A write job reads the bank back, asks, builds the new bank from it, and runs
-- slot select, write and apply between `begin_write` and `end_write`; a write that fails goes to the
-- rollback, which sends no slot select of its own. A call on `&mut Session` is a function from the
-- session's state to a result and the state after it, so that an error keeps what was sent before it.
--
-- Numbers are native; a width is written out where the code wraps, saturates or checks. The model
-- of a pad is the packet's effect on a flash, stated as a hypothesis (Transport/HidrawWrite/Flash
-- and Transport/HidrawRead), and so is the effect of a device on its banks (Orchestrator/Write/Banks):
-- a full write counts after a slot select in the same write job, and nothing is asked of one without.
-- The firmware is not in the repository; the tests have a pad and a device for which this holds. The
-- node and the clock are a record of operations (`Node`).
--
-- Loops are structural, but for these: `read_from` runs on the blob's size, and each pass moves on
-- by at least one byte; `fold_loop` runs on the number of steps, and each pass takes at least one;
-- `wait` runs on the reply budget in nanoseconds, which is enough where each poll moves the clock on
-- by one at least; that is assumed (Transport/Session/Waiting), as `Instant` promises no more than
-- not to go back.
--
-- A blob is a list of bytes. The codec computes percentages in double precision, exactly up to one
-- rounding that a byte cannot reach, so that they are quotients here; a vibration level is the bits
-- of its single-precision number.
--
-- Not modelled: the texts of messages and the log; the firmware version as text; opening a session
-- and flipping its mode; reading macros through the services; the upload, macro, batch and patch
-- orchestrators; the codec of the Ultimate; the JSON of settings, profiles and macros, and the
-- descriptions of the models; the operating system's calls; the command line and the desktop program.
pub mod Shared
pub mod Protocol
pub mod Model
pub mod Devices
pub mod Transport
pub mod Service
pub mod Orchestrator
