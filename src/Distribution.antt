-- ===== src/Distribution.antt =====
-- crates/file-distribution: the hashes of a file, the summary of a write, and the errors of access.
pub mod Hash
pub mod Metadata
pub mod Readers
use yeet_yoink.Common.{ℕ, String, ◌<>◌, List, Option}
use yeet_yoink.Crates.{Crates}

-- `FileHashes`
pub record FileHashes : Type 0 where
  pub md5 : List ℕ
  pub sha256 : List ℕ

-- `Display`, given the hexadecimal text of a digest.
abbrev pub file_hashes_text : (List ℕ → String) → FileHashes → String
file_hashes_text lower_hex h = "MD5 " <> lower_hex h.md5 <> ", SHA256 " <> lower_hex h.sha256

-- `WriteSummary`. An instant is a number of nanoseconds.
pub record WriteSummary : Type 0 where
  pub expires : ℕ
  pub hashes : FileHashes
  pub file_name : Option String
  pub file_size_bytes : ℕ

-- `GetFileReaderError` and `FileAccessorError`
pub data GetFileReaderError (K : Crates) : Type 0 where
  unknown_file : K.ShortGuid → GetFileReaderError K
  file_expired : K.ShortGuid → GetFileReaderError K
  file_error : K.ShortGuid → K.TempfileError → GetFileReaderError K

pub data FileAccessorError (K : Crates) : Type 0 where
  backbone_unavailable : FileAccessorError K
  failed_to_lock : FileAccessorError K
  get_reader_error : GetFileReaderError K → FileAccessorError K
