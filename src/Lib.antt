-- ===== src/Lib.antt =====
-- Firmingo: the host tools that check, compose and install firmware for boards that speak FMGO. The tools are
-- Python; the firmware of the boards (C++) is the environment of the models and is not modelled.
--
-- The parts, and the files that model them:
-- - Uf2 (experiments/managed_sketch/build_composite.py): the check of a resident's UF2 image
--   (`checked_resident_bytes`, Uf2) and of a capsule (`checked_capsule`, Uf2/Capsule). Uf2/Memory is an
--   independent description of what an image writes, byte by byte; Uf2/Resident and Uf2/Bound hold the proofs.
-- - Uf2/Compose (experiments/managed_sketch/compose_initial.py, `compose`): resident and capsule in one image.
--   The blocks are byte strings, and the writes of `struct.pack_into` are `splice`s of them.
-- - Uf2/Compare (experiments/managed_sketch/export_resident.py, `check_uf2`) and Elf (the same file,
--   `resident_elf`, with Elf/Symbols for the symbol tables and Elf/Load for the segments): the interface table
--   and the flash bytes of an ELF file, and their comparison with a UF2 image; Elf/Accepted joins the two.
-- - Fmgo (tools/session_smoke.py): frames (`frame`, `decode_header`, Fmgo/Frame), exact reads against a
--   deadline (`Probe._exact`, Fmgo/Stream), and requests (`Probe.request_frame`, `Probe.upload_chunk`,
--   Fmgo/Request). The socket is a list of turns: the clock, and a segment, a close or a timeout. Fmgo/Echo is
--   `Probe.echo`, over rounds of the clock, of what `send` takes and of what `recv` gives. Fmgo/Hello is the
--   start and the end of a session (`Probe.__init__`, `Probe.finish`), and Fmgo/Smoke the channel that is
--   handed over (`smoke`, and `main` of experiments/managed_sketch/smoke.py). Fmgo/Burst is the burst of
--   tools/ncm_burst.py (`send_invalid_burst`), and Fmgo/Burst/Check its `main`.
-- - Upload (experiments/managed_sketch/fmgo_upload.py): `snapshot` (Upload/Snapshot), `reconcile` and
--   `transfer` (Upload/Transfer) over a session whose answers are given in order (Upload/Session), an
--   abstraction of the session of Fmgo in which every call returns or raises. Upload/Trace and Upload/Plan
--   compare what is sent with the documented sequence.
-- - Checkpoint (experiments/managed_sketch/checkpoint_flash.py, `transfer`): an upload with a journal. `World`
--   holds what the device and the disk will answer, and the events: what was saved and what was sent.
-- - Soak (tools/soak.py, `diagnostics`): readings of a device's counters, each against the one before it; Soak/Run is `run`,
--   with one record of answers for each round of its loop, and errors that leave the report as it was reached.
-- - Attach (tools/attach.py, `run`, `diagnostics_ready`): the cycles of unplugging and reconnecting a board,
--   over one record of observations for the preflight and one for each cycle, and the report that is saved.
--   Attach/Wait is `wait_for`, over samples of the clock and of the answer; the observations of `run` stand for
--   its results.
-- - Uart (tools/uart_peer_smoke.py, `pattern` and, in Uart/Peer, `PicoPeer._line`; tools/uart_smoke.py,
--   `validate_channel`): the test bytes of the UART checks, the lines of the test peer, and the channel that a
--   device describes. Uart/Rig holds the calls of the board and of the peer, over lists of their answers, and
--   Uart/Rig/Transfer the transfers in both directions; Uart/Text the texts between them. Over these,
--   Uart/Smoke, Uart/Matrix and Uart/Overrun are `run` of tools/uart_peer_smoke.py, tools/uart_format_matrix.py
--   and tools/uart_overrun.py. Python's comparisons of decoded values are a parameter there, a `Comparison`.
--   Uart/Loopback is `smoke` of tools/uart_smoke.py.
-- - Records (tools/smoke.py, `compare_bytes`, `verify_record` and the loop of `source`): numbered records.
-- - Stateful (experiments/managed_sketch/build_stateful_proof.py): the class `Elf` (Stateful/Reader),
--   `resident_contract` and `upload_facts` (Stateful/Contract), and `module_capsule` (Stateful/Module);
--   `compose` of experiments/managed_sketch/compose_stateful_initial.py is in Stateful/Compose. The long
--   functions are cut into stages (`read_api`, `check_arena`, `finish_contract`; `check_parts`, `pack_parts`)
--   in the order of the code.
-- - Python: the values that JSON documents decode to. Common: bytes, lists, errors, actions on a state.
--
-- How the code is modelled. A byte is a number, a byte string a list of them. A function that raises returns a
-- `Result` with one constructor for each `raise`; a method that also changes its object is a `Run`, which keeps
-- the state that was reached when it raises. SHA-256, its hexadecimal form and `json.loads` are parameters. The
-- integers of the code are unbounded and never negative where they are modelled by ℕ: a JSON integer below zero
-- is a value of its own.
--
-- Bounds. `pieces` has the length of the data as its fuel, which is enough because a piece takes at least one
-- byte (`join-pieces` has no other condition). `parse` of Fmgo/Echo has the length of the bytes as its fuel.
-- The polls of `reconcile` run over the results of its deadline test; when the list ends the deadline has
-- passed, which is how the loop ends.
--
-- Not modelled: command lines, files, processes, git, compilers, serial ports and the text that is printed.
-- These are I/O around the modelled functions. Also left out are export_stateful.py, `compiler_contract` and
-- `verified_resident` of export_resident.py, `selected_usb` of tools/attach.py, and the build scripts; the manifest
-- says why for each part.
pub mod Common
pub mod Python
pub mod Upload
pub mod Uf2
pub mod Fmgo
pub mod Elf
pub mod Stateful
pub mod Checkpoint
pub mod Attach
pub mod Soak
pub mod Uart
pub mod Records
