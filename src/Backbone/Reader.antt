-- ===== src/Backbone/Reader.antt =====
-- crates/backbone/src/file_reader.rs: the read accessor for a temporary file.
pub mod Counts
use yeet_yoink.Common.{ℕ, ◌+◌, ◌-◌, String, List, Option, none, some, Result, length}
use yeet_yoink.Crates.{Crates, FileSize, IoError, Poll, pending, ready}
use yeet_yoink.Distribution.{WriteSummary}
use yeet_yoink.Distribution.Readers.{FileReaderTrait}
use mathlib.Core.Option

module _ (K : Crates) where
  pub record FileReader : Type 0 where
    pub inner : K.Reader
    pub content_type : Option String
    pub created : ℕ
    pub expiration_duration : ℕ
    pub summary : Option WriteSummary

  abbrev pub new : K.Reader → Option K.ContentType → ℕ → ℕ → Option WriteSummary → FileReader
  new reader content_type created expiration_duration summary = record {
    inner = reader;
    content_type = Option.map K.content_type_text content_type;
    created = created;
    expiration_duration = expiration_duration;
    summary = summary;
  }

  abbrev pub expiration_date : FileReader → ℕ
  expiration_date r = r.created + r.expiration_duration

  abbrev pub file_size : FileReader → FileSize
  file_size r = K.file_size r.inner

  -- Instants subtract to zero at least.
  abbrev pub file_age : FileReader → ℕ → ℕ
  file_age r now = now - r.created

  -- The result of `poll_read`: the poll, the bytes that the buffer holds, the reader, and the bytes
  -- that were counted as fetched, if any were.
  unfoldable pub poll_read :
      FileReader → List ℕ → Poll (Result IoError (Unit {0})) × List ℕ × FileReader × Option ℕ
  poll_read r buf =
      let (polled, filled, inner') = K.poll_read r.inner buf in
      let r' = record r { inner = inner' } in
      elim polled [
        | ready read ↦ (ready read, filled, r', some (length filled))
        | pending ↦ (pending, filled, r', none)
      ]

  -- `FileReaderTrait` for `FileReader`.
  abbrev pub file_reader : FileReaderTrait FileReader
  unfolding poll_read
  file_reader = record {
    summary = λ r. r.summary;
    expiration_date = expiration_date;
    file_size = file_size;
    file_age = file_age;
    content_type = λ r. r.content_type;
    poll_read = λ r buf. let (polled, filled, r', _) = poll_read r buf in (polled, filled, r');
  }
