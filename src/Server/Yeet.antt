-- ===== src/Server/Yeet.antt =====
-- bins/server/src/handlers/yeet.rs: storing a file.
pub mod Covers
pub mod Writes
pub mod Short
pub mod Streams
pub mod Outcome
pub mod Stored
pub mod Feeds
pub mod Total
use yeet_yoink.Common.{
  ℕ, zero, suc, ◌+◌, String, ◌<>◌, List, [], ◌∷◌, Option, none, some, Result, ok, err, drop,
}
use yeet_yoink.Crates.{Crates, IoError}
use yeet_yoink.Distribution.{WriteSummary, FileHashes}
use yeet_yoink.Backbone.Guard.{FileWriterGuard}
use yeet_yoink.Backbone.Guard
use yeet_yoink.Backbone.Writer.{FinalizationError, no_sync, finalization_text, synchronization_text}
use yeet_yoink.Backbone.Table.{
  Backbone, NewFile, NewFileError, failed_creating_file, failed_creating_writer,
  internal_error_may_retry, new_file,
}
use yeet_yoink.Metrics.Transfer.{TransferMethod}
use yeet_yoink.Server.Http.{
  Problem, Hashes, SuccessfulUploadResponse, Response, expiration_as_rfc1123,
}

pub data YeetBody (K : Crates) : Type 0 where
  text : String → YeetBody K
  json : SuccessfulUploadResponse K → YeetBody K
  problem : Problem → YeetBody K

module _ (K : Crates) where
  abbrev internal_server_error : YeetBody K → Response (YeetBody K)
  internal_server_error body = record { status = 500; headers = []; body = body }

  abbrev file_problem : String → List (String × String) → Response (YeetBody K)
  file_problem detail values = internal_server_error (
      problem (record {
        title = "File not found";
        detail = detail;
        problem_instance = none;
        values = values;
      }))

  unfoldable pub map_new_file_error_to_response : NewFileError K → Response (YeetBody K)
  map_new_file_error_to_response (failed_creating_file id e) =
      file_problem ("Failed to create temporary file: " <> K.tempfile_error_text e)
        (("id", K.guid_text id) ∷ ("error", K.tempfile_error_text e) ∷ [])
  map_new_file_error_to_response (failed_creating_writer id e) =
      file_problem ("Failed to create a writer for the temporary file: " <> K.tempfile_error_text e)
        (("id", K.guid_text id) ∷ ("error", K.tempfile_error_text e) ∷ [])
  map_new_file_error_to_response (internal_error_may_retry id) =
      file_problem "Failed to create temporary file - ID already in use"
        (("id", K.guid_text id) ∷ [])

  -- The inner loop, `while data.has_remaining()`, over the bytes that are left. A write of nothing
  -- is tried again; `none` means that the fuel ran out.
  unfoldable pub write_data :
      ℕ → FileWriterGuard K → List ℕ → Option (Result IoError (Unit {0}) × FileWriterGuard K)
  write_data f g [] = some (ok tt, g)
  write_data zero g (x ∷ data_left) = none
  write_data (suc f) g (x ∷ data_left) =
      let (outcome, g') = Guard.write K g (x ∷ data_left) in
      elim outcome [ err e ↦ some (err e, g') | ok n ↦ write_data f g' (drop n (x ∷ data_left)) ]

  -- One chunk of the body: write all of it, and sync. The text is that of the response to a failure.
  unfoldable pub take_chunk :
      ℕ → FileWriterGuard K → List ℕ → Option (Result String (Unit {0}) × FileWriterGuard K)
  take_chunk f g chunk = elim (write_data f g chunk) [
    | none ↦ none
    | some (err e, g') ↦ some (err ("Failed to write to temporary file: " <> e.message), g')
    | some (ok _, g') ↦ elim (Guard.sync_data K g') [
      | none ↦ none
      | some (err e, g'') ↦
          some (err ("Failed to flush data to temporary file: " <> synchronization_text e), g'')
      | some (ok _, g'') ↦ some (ok tt, g'')
    ]
  ]

  -- The outer loop, over the stream of the body.
  unfoldable pub take_stream :
      ℕ
      → FileWriterGuard K
      → List (Result K.BodyError (List ℕ))
      → Option (Result String (Unit {0}) × FileWriterGuard K)
  take_stream f g [] = some (ok tt, g)
  take_stream f g (err e ∷ stream) =
      some (err ("Failed to obtain data from the read stream: " <> K.body_error_text e), g)
  take_stream f g (ok chunk ∷ stream) = elim (take_chunk f g chunk) [
    | none ↦ none
    | some (err e, g') ↦ some (err e, g')
    | some (ok _, g') ↦ take_stream f g' stream
  ]

  -- The clock at the completion of the write, and both clocks when the response is made.
  pub record Clocks : Type 0 where
    pub completed : ℕ
    pub instant_now : ℕ
    pub system_now : ℕ

  -- `From<&FileHashes>`
  abbrev hex_hashes : FileHashes → Hashes
  hex_hashes h = record { md5 = K.hex_encode h.md5; sha256 = K.hex_encode h.sha256 }

  abbrev pub created : K.ShortGuid → WriteSummary → Clocks → Response (YeetBody K)
  created id s clocks = record {
    status = 201;
    headers =
        ("expires", expiration_as_rfc1123 K s.expires clocks.instant_now clocks.system_now)
        ∷ ("yy-id", K.guid_text id)
        ∷ [];
    body =
        json
          (record { id = id; file_size_bytes = s.file_size_bytes; hashes = hex_hashes s.hashes });
  }

  -- The part of `do_yeet` behind `new_file`: the response, and the guard at its end. A guard that is
  -- not finalized is dropped.
  unfoldable pub store :
      ℕ
      → K.ShortGuid
      → FileWriterGuard K
      → List (Result K.BodyError (List ℕ))
      → Clocks
      → Option (Response (YeetBody K) × FileWriterGuard K)
  store f id g stream clocks = elim (take_stream f g stream) [
    | none ↦ none
    | some (err message, g') ↦ some (internal_server_error (text message), Guard.drop_guard K g')
    | some (ok _, g') ↦
        let (outcome, g'') = Guard.finalize K g' no_sync clocks.completed in
        elim outcome [
          | err e ↦ some (
            internal_server_error
                (text ("Failed to complete writing to temporary file: " <> finalization_text e)),
            g'',
          )
          | ok s ↦ some (created id s clocks, g'')
        ]
  ]

  -- `do_yeet`: the response, the guard at its end if there was one, the backbone, and the transfers
  -- that were tracked. The id of the file is the random one, and `tx` the sender that `new_file` makes.
  unfoldable pub do_yeet :
      ℕ
      → Backbone K
      → K.Disk
      → NewFile K
      → K.OneshotSender
      → ℕ
      → List (Result K.BodyError (List ℕ))
      → Clocks
      → Option
          (Response (YeetBody K) × Option (FileWriterGuard K) × Backbone K × List TransferMethod)
  do_yeet f b disk request tx now stream clocks =
      let tracked = TransferMethod.store ∷ [] in
      let (opened, b') = new_file K b disk request tx now in
      elim opened [
        | err e ↦ some (map_new_file_error_to_response e, none, b', tracked)
        | ok g ↦ elim (store f request.id g stream clocks) [
          | none ↦ none
          | some (response, g') ↦ some (response, some g', b', tracked)
        ]
      ]
