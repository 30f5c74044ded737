-- ===== src/Backbone/Writer.antt =====
-- crates/backbone/src/file_writer.rs: the write accessor for a temporary file.
pub mod Hashes
use yeet_yoink.Common.{
  ℕ, ◌+◌, String, List, Option, Result, ok, err, map_err, add_word, length, decimal, ◌<>◌,
}
use yeet_yoink.Crates.{Crates, ErrorKind, IoError, broken_pipe}
use yeet_yoink.Distribution.{WriteSummary}
use yeet_yoink.Distribution.Hash.{
  HashMd5, HashSha256, md5_new, md5_update, md5_finalize, sha256_new, sha256_update,
  sha256_finalize,
}

pub data CompletionMode : Type 0 where
  sync no_sync : CompletionMode

-- `err_broken_pipe`
abbrev pub err_broken_pipe {ℓ} : {A : Type ℓ} → Result IoError A
err_broken_pipe = err (record { kind = broken_pipe; message = "Writer closed" })

pub data FinalizationError (K : Crates) : Type 0 where
  file_sync_failed : K.CompleteWritingError → FinalizationError K
  backbone_communication_failed : FinalizationError K
  invalid_file_length : ℕ → ℕ → FinalizationError K
  integrity_check_failed : String → String → FinalizationError K

-- `SynchronizationError::FileSyncFailed`
pub data SynchronizationError (K : Crates) : Type 0 where
  sync_failed : K.CompleteWritingError → SynchronizationError K

-- `Display`, as derived from the `#[error]` attributes.
unfoldable pub finalization_text : {K : Crates} → FinalizationError K → String
finalization_text (file_sync_failed e) = "Syncing the file to disk failed"
finalization_text backbone_communication_failed = "Failed to communicate to the backbone"
finalization_text (invalid_file_length a b) =
    "Invalid file length: expected " <> decimal a <> ", got " <> decimal b
finalization_text (integrity_check_failed a b) =
    "Integrity check failed: expected MD5 " <> a <> ", got MD5 " <> b

abbrev pub synchronization_text : {K : Crates} → SynchronizationError K → String
synchronization_text (sync_failed e) = "Syncing the file to disk failed"

module _ (K : Crates) where
  pub record FileWriter : Type 0 where
    pub inner : K.Writer
    pub md5 : HashMd5 K.digests
    pub sha256 : HashSha256 K.digests
    pub file_name : Option String
    pub file_size : ℕ

  abbrev pub new : K.Writer → Option String → FileWriter
  new inner file_name = record {
    inner = inner;
    md5 = md5_new K.digests;
    sha256 = sha256_new K.digests;
    file_name = file_name;
    file_size = 0;
  }

  unfoldable pub update_state : FileWriter → List ℕ → FileWriter
  update_state w buf = record w {
    md5 = md5_update K.digests w.md5 buf;
    sha256 = sha256_update K.digests w.sha256 buf;
    file_size = add_word w.file_size (length buf);
  }

  unfoldable pub write : FileWriter → List ℕ → Result IoError ℕ × FileWriter
  unfolding update_state
  write w chunk =
      let w' = update_state w chunk in
      let (outcome, inner') = K.write w'.inner chunk in (outcome, record w' { inner = inner' })

  unfoldable pub sync_data : FileWriter → Result (SynchronizationError K) (Unit {0}) × FileWriter
  sync_data w =
      let (outcome, inner') = K.sync_data w.inner in
      (map_err sync_failed outcome, record w { inner = inner' })

  -- The call of `complete` or `complete_no_sync`.
  abbrev pub complete : CompletionMode → K.Writer → Result K.CompleteWritingError (Unit {0})
  complete sync w = K.complete w
  complete no_sync w = K.complete_no_sync w

  abbrev pub summary : FileWriter → ℕ → WriteSummary
  summary w expires = record {
    expires = expires;
    hashes = record {
      md5 = md5_finalize K.digests w.md5;
      sha256 = sha256_finalize K.digests w.sha256;
    };
    file_name = w.file_name;
    file_size_bytes = w.file_size;
  }

  -- `now` is the clock's reading after the writer has completed.
  unfoldable pub finalize :
      FileWriter → CompletionMode → ℕ → ℕ → Result (FinalizationError K) WriteSummary
  finalize w mode expiration now = elim (complete mode w.inner) [
    | err e ↦ err (file_sync_failed e)
    | ok _ ↦ ok (summary w (now + expiration))
  ]
