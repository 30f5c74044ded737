-- ===== src/Lib.antt =====
-- yeet-yoink is a server for temporary files: `POST /yeet` stores the body of a request under a
-- random id for five minutes, `GET /yoink/:id` hands it out while the lease lasts.
--
-- The parts and how they meet. The handler of /yeet (bins/server/src/handlers/yeet.rs) asks the
-- backbone (crates/backbone/src/backbone.rs) for a new file. The backbone makes a temporary file
-- and a FileRecord (file_record.rs) whose lifetime handler it spawns, enters the record in its
-- table, and returns a FileWriterGuard (file_writer_guard.rs) over a FileWriter (file_writer.rs).
-- The handler writes the body through the guard, which hashes and counts it, and finalizes the
-- guard. The guard then tells the lifetime handler, through a oneshot channel, whether the write
-- succeeded. The lifetime handler persists the summary, announces the file through the command
-- channel, waits for the end of the lease, and asks the command loop to remove the entry.
--
-- The handler of /yoink (yoink.rs) asks the backbone for a reader, and turns the summary into
-- headers. A file that is announced reaches the backend registry
-- (bins/server/src/backend_registry.rs), whose event loop hands it to each backend, such as
-- Memcached (crates/backend-memcache), which reads the file back through the FileAccessorBridge.
-- A middleware (bins/server/src/services/metrics.rs) counts the HTTP calls.
--
-- At the start, `main` (bins/server/src/main.rs) loads the configuration, registers the backends,
-- makes the backbone and serves HTTP on each address until the servers stop; one signal, or one
-- server that stops, shuts all of them down.
--
-- The files:
-- - Common: names of the libraries passed on; tests, lists, results, words, texts and
--   dictionaries.
-- - Crates: the third-party crates (md5, sha2, shared-files, async-tempfile, shortguid, hex,
--   axum, chrono, tokio's oneshot) as interfaces, with what a theorem may assume of them as
--   records of laws.
-- - Distribution: crates/file-distribution/src (hash.rs, file_hashes.rs, write_summary.rs,
--   file_provider.rs, file_reader.rs as Distribution.Readers, and protobuf.rs as
--   Distribution.Metadata).
-- - Backend: crates/backend-traits/src, the command to the backends and what a backend is.
-- - Backend.Memcache: crates/backend-memcache/src/backend.rs, and Config: crates/app-config/src,
--   with AppConfig::load in Config.Load.
-- - Metrics: transfer.rs and http.rs of crates/metrics/src, and what they register in
--   Metrics.Registered.
-- - Backbone.Writer, Backbone.Guard, Backbone.Record, Backbone.Reader, Backbone.Table:
--   file_writer.rs, file_writer_guard.rs, file_record.rs, file_reader.rs and backbone.rs of
--   crates/backbone/src, one function for each method of the same name. `lifetime_handler` is a
--   state machine: a Phase is where the task waits, an Answer what ends the wait, and `turn` the
--   code from one wait to the next.
-- - Backbone.System: the tasks at run time. A Step is one call of `new_file`, one turn of a
--   lifetime handler, or one round of the command loop, and Reach is any interleaving of them.
-- - Backbone.World: the guards and their clients at run time with the rest. Each lifetime has its
--   upload, a guard with the bytes that its client has handed to `write`, whether or not the file
--   took them. The client writes, syncs, and drops or finalizes the guard while the handlers and
--   the command loop go on, and a handler hears only what its own guard has sent. Any client of
--   this kind is allowed, and Server.Uploads reads the handler of /yeet as one, and
--   Server.Uploads.Bodies what that client hands over.
-- - Backbone.Contract: what the backbone promises of an id, as a status that is absent,
--   uploading, stored or failed, with the changes it may go through.
-- - Backbone.Accessor: file_accessor.rs of crates/backbone/src.
-- - Server.Yeet, Server.Yoink and Server.Http: yeet.rs, yoink.rs and mod.rs of
--   bins/server/src/handlers. Server.Calls: bins/server/src/services/metrics.rs. Server.Registry:
--   bins/server/src/backend_registry.rs.
-- - Server.Serve and Server.Main: `serve_requests` and `main` of bins/server/src/main.rs.
--   Server.Health and Server.Routes: the other endpoints. Server.Commands: commands.rs and
--   logging.rs.
-- - Server.Handover: the world of the backbone and the event loop of the registry together, with
--   one Memcached (Server.Registry.Alone shows that other backends make no difference). The event
--   loop takes the commands in the order in which the backbone has passed them on, and the
--   command loop waits while 64 of them are in the channel.
-- - Server.Integrity: the digests in the headers of a download, and the upload behind them.
-- - Server.Exchange and Server.Delivery: an upload and the downloads of its file, and its way to
--   Memcached, through all of the above.
-- - Tests: stand-ins for the crates, runs on concrete input, and examples of the theorems.
--
-- Conventions. Bytes and all numbers are natural numbers; a usize or u64 has 64 bits, and its
-- sums wrap as in a release build. Instants and durations are nanoseconds. The clock, the disk, a
-- new id and a new oneshot channel are arguments. The command channel is a queue of at most 1024
-- commands; a send to it waits for room and cannot fail, since the command loop keeps its
-- receiver until every sender is gone. A round of the command loop includes the wait for room in
-- the channel to the backends. The two fields `sent` and `tracked` of FileWriterGuard are no
-- state of the source but list the calls of `Sender::send` and `track_bytes_transferred`, as the
-- last component of `do_yeet` lists those of `track_transfer`. A panic of the source is none
-- where the model has it: an empty path, a poisoned lock, a pool without a connection. While an
-- event of the registry is handled, the file provider answers as the event says. A path is its
-- bytes, and a Rust string otherwise a text. Until every address is bound no server runs, and a
-- server stops without an error only after its shutdown receiver got a value, as hyper documents.
-- A lock is taken and released within one step, except where the lifetime handler waits for it.
--
-- Fuel. The inner loop of `do_yeet` calls `write` until a chunk is used up, and a write may take
-- nothing. Its model takes fuel and returns none if that runs out; fuel of the length of the
-- longest chunk is enough if a write of some bytes takes at least one.
--
-- Not modelled: routing, header parsing and the http types of axum; what is logged; `join`, which
-- waits for a task to end; the rendezvous at the end of `main`; how clap, which ends the program
-- on arguments that it rejects, config, tracing, prometheus and prost do what the source asks of
-- them. The feature memcache, which is on by default, is taken to be on.
pub mod Backbone
pub mod Backend
pub mod Common
pub mod Config
pub mod Crates
pub mod Distribution
pub mod Metrics
pub mod Server
pub mod Tests
