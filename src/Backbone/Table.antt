-- ===== src/Backbone/Table.antt =====
-- crates/backbone/src/backbone.rs: the files that are open, and the command loop.
pub mod Opens
use yeet_yoink.Common.{
  ℕ, ◌*◌, Bool, String, List, [], ◌∷◌, ◌++◌, Option, none, some, Result, ok, err, map_err, length,
  get_elem?, if◌then◌else◌,
}
use yeet_yoink.Common.Dict.{Dict, lookup, insert, erase}
use yeet_yoink.Crates.{Crates}
use yeet_yoink.Distribution.{GetFileReaderError, unknown_file}
use yeet_yoink.Backend.{BackendCommandSender, distribute_file, send}
use yeet_yoink.Backbone.Guard.{FileWriterGuard}
use yeet_yoink.Backbone.Guard
use yeet_yoink.Backbone.Writer
use yeet_yoink.Backbone.Reader.{FileReader}
use yeet_yoink.Backbone.Reader
use yeet_yoink.Backbone.Record.{
  FileRecord, Lifetime, Inner, BackboneCommand, remove_writer, ready_for_distribution, new_record,
  get_reader, get_summary,
}

-- `TEMPORAL_LEASE`, five minutes in nanoseconds.
abbrev pub temporal_lease : ℕ
temporal_lease = 5 * 60 * 1_000_000_000

pub data NewFileError (K : Crates) : Type 0 where
  failed_creating_file : K.ShortGuid → K.TempfileError → NewFileError K
  failed_creating_writer : K.ShortGuid → K.TempfileError → NewFileError K
  internal_error_may_retry : K.ShortGuid → NewFileError K

module _ (K : Crates) where
  -- The open files, the lifetimes that were spawned so far, the commands in the channel, oldest
  -- first, and the channel to the backends.
  pub record Backbone : Type 0 where
    pub open_files : Dict K.ShortGuid (FileRecord K)
    pub lifetimes : List (Lifetime K)
    pub commands : List (BackboneCommand K)
    pub backend_sender : BackendCommandSender K

  abbrev pub new : Bool → Backbone
  new listens = record {
    open_files = [];
    lifetimes = [];
    commands = [];
    backend_sender = record { passed = []; listens = listens };
  }

  abbrev create_new_temporary_file : K.Disk → K.ShortGuid → Result (NewFileError K) K.TempFile
  create_new_temporary_file disk id =
      map_err (failed_creating_file id) (K.new_with_uuid disk (K.uuid_of id))

  abbrev create_writer_for_file :
      K.Disk → K.ShortGuid → K.TempFile → Result (NewFileError K) K.Writer
  create_writer_for_file disk id file =
      map_err (failed_creating_writer id) (K.open_writer disk file)

  -- What a client of `new_file` gives: the id and the request's headers.
  pub record NewFile : Type 0 where
    pub id : K.ShortGuid
    pub expected_size : Option ℕ
    pub content_type : Option K.ContentType
    pub content_md5 : Option (List ℕ)
    pub file_name : Option String

  abbrev pub NewFileResult : Type 0
  NewFileResult = Result (NewFileError K) (FileWriterGuard K)

  -- The part of `new_file` under the lock.
  unfoldable pub register :
      Backbone → NewFile → K.TempFile → K.Writer → K.OneshotSender → ℕ → NewFileResult × Backbone
  register b f file writer tx now = elim (lookup K.guid_eq f.id b.open_files) [
    | some _ ↦ (err (internal_error_may_retry f.id), b)
    | none ↦
        let (r, t) =
          new_record K (length b.lifetimes) f.id file temporal_lease f.content_type now in
        (
          ok (
              Guard.new K (Writer.new K writer f.file_name) tx temporal_lease f.expected_size
                f.content_md5),
          record b {
            open_files = insert K.guid_eq f.id r b.open_files;
            lifetimes = b.lifetimes ++ t ∷ [];
          },
        )
  ]

  -- `tx` is the sender of a new oneshot channel, whose receiver the lifetime handler takes.
  unfoldable pub new_file :
      Backbone → K.Disk → NewFile → K.OneshotSender → ℕ → NewFileResult × Backbone
  unfolding register
  new_file b disk f tx now = elim (create_new_temporary_file disk f.id) [
    | err e ↦ (err e, b)
    | ok file ↦ elim (create_writer_for_file disk f.id file) [
      | err e ↦ (err e, b)
      | ok writer ↦ register b f file writer tx now
    ]
  ]

  unfoldable pub open_entry :
      K.Disk → FileRecord K → Inner K → Result (GetFileReaderError K) (FileReader K)
  open_entry disk r inner = elim (get_reader K disk r inner) [
    | err e ↦ err e
    | ok reader ↦
        ok
          (Reader.new K reader r.content_type r.created r.expiration_duration (get_summary K inner))
  ]

  -- `none` if the entry's shared state were not there.
  unfoldable pub get_file :
      Backbone → K.Disk → K.ShortGuid → Option (Result (GetFileReaderError K) (FileReader K))
  unfolding open_entry
  get_file b disk id = elim (lookup K.guid_eq id b.open_files) [
    | none ↦ some (err (unknown_file id))
    | some r ↦ elim (get_elem? b.lifetimes r.inner) [
      | none ↦ none
      | some t ↦ some (open_entry disk r t.inner)
    ]
  ]

  -- A round of `command_loop`, for the command that it received.
  unfoldable pub handle_command : Backbone → BackboneCommand K → Backbone
  unfolding send
  handle_command b (remove_writer id) = record b { open_files = erase K.guid_eq id b.open_files }
  handle_command b (ready_for_distribution id summary) = record b {
    backend_sender = (send b.backend_sender (distribute_file id summary)).1;
  }
