-- ===== src/Distribution/Readers.antt =====
-- crates/file-distribution/src/file_reader.rs: what a reader offers, and the box around one.
use yeet_yoink.Common.{ℕ, String, List, Option, Result}
use yeet_yoink.Crates.{FileSize, IoError, Poll}
use yeet_yoink.Distribution.{WriteSummary}

-- `FileReaderTrait`, with the `poll_read` of `AsyncRead`: the poll, the bytes that the buffer holds
-- and the reader afterwards. `file_age` takes the clock.
pub record FileReaderTrait (R : Type 0) : Type 0 where
  pub summary : R → Option WriteSummary
  pub expiration_date : R → ℕ
  pub file_size : R → FileSize
  pub file_age : R → ℕ → ℕ
  pub content_type : R → Option String
  pub poll_read : R → List ℕ → Poll (Result IoError (Unit {0})) × List ℕ × R

-- `BoxedFileReader`, for the type of the reader inside.
pub record BoxedFileReader (R : Type 0) : Type 0 where
  pub inner : R

-- `BoxedFileReader::new`
abbrev pub new_boxed : {R : Type 0} → R → BoxedFileReader R
new_boxed value = record { inner = value }

module _ {R : Type 0} (T : FileReaderTrait R) where
  abbrev boxed_poll_read :
      BoxedFileReader R → List ℕ → Poll (Result IoError (Unit {0})) × List ℕ × BoxedFileReader R
  boxed_poll_read r buf =
      let (polled, filled, inner) = T.poll_read r.inner buf in (polled, filled, new_boxed inner)

  -- The box passes each call on.
  abbrev pub boxed_file_reader : FileReaderTrait (BoxedFileReader R)
  boxed_file_reader = record {
    summary = λ r. T.summary r.inner;
    expiration_date = λ r. T.expiration_date r.inner;
    file_size = λ r. T.file_size r.inner;
    file_age = λ r. T.file_age r.inner;
    content_type = λ r. T.content_type r.inner;
    poll_read = boxed_poll_read;
  }
