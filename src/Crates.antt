-- ===== src/Crates.antt =====
-- The third-party crates that the program calls, as interfaces: types, functions, and the
-- documented behaviour that a property may assume of them. Bytes are numbers.
use yeet_yoink.Common.{
  ℕ, ◌≤◌, ◌≡◌, String, List, [], ◌++◌, Bool, Option, Result, ok, err, Eq, length, take,
}

-- The crates md5 and sha2.
pub record Digests : Type 1 where
  pub Md5Context : Type 0
  pub md5_new : Md5Context
  pub md5_consume : Md5Context → List ℕ → Md5Context
  pub md5_compute : Md5Context → List ℕ
  pub ShaContext : Type 0
  pub sha_new : ShaContext
  pub sha_update : ShaContext → List ℕ → ShaContext
  -- The digest is written into the buffer that is passed.
  pub sha_finalize_into : ShaContext → List ℕ → List ℕ

-- Both digests are of a stream: it does not matter how it is cut into chunks.
pub record IsStreaming (D : Digests) : Type 0 where
  pub md5_consume-nil : (c : D.Md5Context) → D.md5_consume c [] ≡ c
  pub md5_consume-append :
      (c : D.Md5Context) (xs ys : List ℕ)
      → D.md5_consume c (xs ++ ys) ≡ D.md5_consume (D.md5_consume c xs) ys
  pub sha_update-nil : (c : D.ShaContext) → D.sha_update c [] ≡ c
  pub sha_update-append :
      (c : D.ShaContext) (xs ys : List ℕ)
      → D.sha_update c (xs ++ ys) ≡ D.sha_update (D.sha_update c xs) ys

-- `std::io::ErrorKind`: the kinds that the source names, and the others.
pub data ErrorKind : Type 0 where
  broken_pipe unexpected_eof other : ErrorKind
  unlisted : ℕ → ErrorKind

-- `std::io::Error`, as built by `Error::new`.
pub record IoError : Type 0 where
  pub kind : ErrorKind
  pub message : String

-- `shared_files::FileSize`: the source asks only whether the size is exact.
pub data FileSize : Type 0 where
  exactly : ℕ → FileSize
  not_exact : FileSize

-- `std::task::Poll`
pub data Poll {ℓ} (A : Type ℓ) : Type ℓ where
  pending : Poll A
  ready : A → Poll A

-- The crates shared-files and async-tempfile. A call's outcome may depend on the disk; a writer
-- and a reader carry theirs along.
pub record SharedFiles : Type 1 where
  pub Disk : Type 0
  pub Uuid : Type 0
  pub TempfileError : Type 0
  pub CompleteWritingError : Type 0
  pub TempFile : Type 0
  pub Writer : Type 0
  pub Reader : Type 0
  -- `SharedTemporaryFile::new_with_uuid`, `writer` and `reader`.
  pub new_with_uuid : Disk → Uuid → Result TempfileError TempFile
  pub open_writer : Disk → TempFile → Result TempfileError Writer
  pub open_reader : Disk → TempFile → Result TempfileError Reader
  -- `SharedTemporaryFileWriter::write`, `sync_data`, `complete` and `complete_no_sync`.
  pub write : Writer → List ℕ → Result IoError ℕ × Writer
  pub sync_data : Writer → Result CompleteWritingError (Unit {0}) × Writer
  pub complete : Writer → Result CompleteWritingError (Unit {0})
  pub complete_no_sync : Writer → Result CompleteWritingError (Unit {0})
  -- `SharedTemporaryFileReader::file_size`, and `poll_read` from the bytes that the buffer holds to
  -- those that it holds then.
  pub file_size : Reader → FileSize
  pub poll_read : Reader → List ℕ → Poll (Result IoError (Unit {0})) × List ℕ × Reader

-- A write takes a front part of the chunk and appends it to the file; a failed write and a sync
-- add nothing.
pub record IsAppending (F : SharedFiles) : Type 0 where
  pub written : F.Writer → List ℕ
  pub write_ok :
      (w : F.Writer) (chunk : List ℕ) (n : ℕ)
      → (F.write w chunk).0 ≡ ok n
      → (n ≤ length chunk) × (written (F.write w chunk).1 ≡ written w ++ take n chunk)
  pub write_err :
      (w : F.Writer) (chunk : List ℕ) (e : IoError)
      → (F.write w chunk).0 ≡ err e
      → written (F.write w chunk).1 ≡ written w
  pub sync_keeps : (w : F.Writer) → written (F.sync_data w).1 ≡ written w

-- A write of some bytes takes at least one of them.
pub record IsProgressing (F : SharedFiles) : Type 0 where
  pub write_progress : (w : F.Writer) (chunk : List ℕ) → (F.write w chunk).0 ≡ ok 0 → chunk ≡ []

-- The file of a new id is empty.
pub record IsFresh (F : SharedFiles) (A : IsAppending F) : Type 0 where
  pub written_new :
      (disk : F.Disk) (u : F.Uuid) (file : F.TempFile) (w : F.Writer)
      → F.new_with_uuid disk u ≡ ok file
      → F.open_writer disk file ≡ ok w
      → A.written w ≡ []

-- The crates shortguid, hex, base64, percent-encoding, mime-db, axum, chrono and tokio's oneshot
-- channel, with the two above.
pub record Crates : Type 1 where
  pub digests : Digests
  pub open digests use *
  pub files : SharedFiles
  pub open files use *
  pub ShortGuid : Type 0
  pub guid_eq : Eq ShortGuid
  pub guid_text : ShortGuid → String
  pub uuid_of : ShortGuid → Uuid
  pub hex_encode : List ℕ → String
  pub base64_encode : List ℕ → String
  -- `CONTROLS`, an `AsciiSet`, and `utf8_percent_encode` for such a set of ASCII codes.
  pub controls : ℕ → Bool
  pub utf8_percent_encode : (ℕ → Bool) → String → String
  -- `mime_db::extension`
  pub extension : String → Option String
  -- `axum::headers::ContentType` and its `to_string`.
  pub ContentType : Type 0
  pub content_type_text : ContentType → String
  -- `Display` of async_tempfile's error and of the error of a request body's stream.
  pub tempfile_error_text : TempfileError → String
  pub BodyError : Type 0
  pub body_error_text : BodyError → String
  -- chrono's format `%a, %d %b %Y %H:%M:%S GMT` of a time, in nanoseconds.
  pub rfc1123 : ℕ → String
  -- `oneshot::Sender`, and whether its receiver is still there when it sends.
  pub OneshotSender : Type 0
  pub delivers : OneshotSender → Bool
