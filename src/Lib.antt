-- ===== src/Lib.antt =====
-- A model of the KV260 signature verification daemon (tools/kv260_sigv_daemon), which parses Solana
-- transactions, hands their signatures to an FPGA over memory-mapped registers and answers over HTTP.
--
-- The parts, and the files that model them:
--
-- - Prelude: what a Rust call comes to (a value, an error, a panic), lists measured by native
--   numbers, bit masks, the formatting of numbers.
-- - ServiceError: error.rs. `ErrorKind` and `ServiceError`, with a function for each kind.
-- - Parser: parser.rs. `encode_compact_u16`, `decode_compact_u16` (Compact); `take` and the two
--   functions that skip (Reader); `parse_message` (Message); `parse_transaction` (Transaction). The
--   wire format is described on its own, as languages of byte strings, in Grammar and in
--   Compact.Decode; Skips, Instructions, Arrays, Message and Transaction compare the code with it.
-- - StdText: the functions of Rust's standard library on texts and paths that accelerator.rs and
--   main.rs call.
-- - Accelerator: accelerator.rs. The operating system and the device are the record `Host`, whose
--   calls change a world; any device is allowed. LittleEndian, Words and Mmio are
--   `MappedRegion` and `UioInterrupt`, Layout the search for the regions, Device the registers, Batch
--   and Status the two operations of `MappedAccelerator`, SingleFlight the guard that lets one request
--   through at a time, both as one thread sees it and as steps of many threads (its Runs are the
--   steps that threads make one after the other). To the threads an inner call is two steps: it reads
--   the world when it begins and writes it when it ends. Keeps has the rules by which steps keep an
--   invariant of the world, which Audit, Trace and Batch.Ending use; a step that writes nothing needs
--   less of the host than one that writes, and only polling sleeps. Audit is a host that watches the accesses to its mappings. Trace is a
--   host that lists the writes, each with its file and its address there: Steps and Batch compare the
--   list with the writes of a batch, written out on their own, and Image the memory that they leave.
--   A word in the memory of the device has its lowest byte first. Mirrors has the rules by which a
--   step does the same on a host that watches another one, so that what Audit and Trace find out
--   holds of the batch on the host that they watch.
-- - Api: api.rs. Build goes from a request to a batch, Handlers from a body to a response. The crates
--   that decode JSON, base64 and hexadecimal are the record `Crates`.
-- - Main: main.rs, and `build_router` of api.rs. Args has the options of `serve` and their numbers,
--   Router the routes, Serve the life of the server, from `serve` to the end of its loop. The file
--   system, the listener and the runtime are the record `Runtime`; what `select!` yields is a list of
--   events, and a run that is at the end of the list still serves.
--
-- A number of every width is a natural number, with the wrap-around written out where the code can
-- wrap. A duration is a count of milliseconds, and so is an `Instant`, which has a largest value:
-- the sum of an `Instant` and a duration panics past it. Slices hold at most `isize::MAX` bytes, as in
-- Rust; an index or a slice out of range is a panic.
--
-- Loops run on structure, but for three. The loops of `encode_compact_u16` and `decode_compact_u16`
-- have three rounds, which use up 16 bits. The loops of `write_bytes_as_u32_words` have one round more
-- than the region has bytes, and move by four bytes each. The polling loop of `poll_until_complete`
-- takes its bound as an argument, past which its outcome is a panic. Each round sleeps for ten
-- milliseconds, so one round more than there are tens of milliseconds to the deadline is enough.
--
-- The unit tests of parser.rs, accelerator.rs and api.rs, and the accelerators that they use, are
-- functions into Bool in the UnitTests of each part.
--
-- Not modelled: what clap makes of the words of the command line, what axum and hyper do between a
-- connection and a handler, the bytes of a JSON response, the FPGA design and the host tools. The copy
-- of the daemon below petalinux/ is the same code.
pub mod Prelude
pub mod ServiceError
pub mod Parser
pub mod StdText
pub mod Accelerator
pub mod Api
pub mod Main
