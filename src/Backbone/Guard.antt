-- ===== src/Backbone/Guard.antt =====
-- crates/backbone/src/file_writer_guard.rs: the guard that tells the backbone how a write ended.
pub mod Signal
pub mod Life
pub mod Accept
pub mod Bytes
pub mod Calls
use yeet_yoink.Common.{
  ℕ, String, List, [], ◌∷◌, ◌++◌, Option, none, some, Result, ok, err, add_word, ltb, ◌==◌,
  bytes_eq, if◌then◌else◌,
}
use yeet_yoink.Crates.{Crates, IoError, unexpected_eof}
use yeet_yoink.Distribution.{WriteSummary}
use yeet_yoink.Backbone.Writer.{
  FileWriter, CompletionMode, FinalizationError, backbone_communication_failed, invalid_file_length,
  integrity_check_failed, err_broken_pipe,
}
use yeet_yoink.Backbone.Writer

pub data WriteResult : Type 0 where
  success : WriteSummary → WriteResult
  failed : WriteResult

abbrev pub too_many_bytes : IoError
too_many_bytes = record {
  kind = unexpected_eof;
  message = "Attempted to write more bytes than announced";
}

module _ (K : Crates) where
  -- The last two fields are no fields of the source. They list the calls that the guard has made so
  -- far: `Sender::send`, and `track_bytes_transferred` for stored bytes, oldest first.
  pub record FileWriterGuard : Type 0 where
    pub inner : Option (FileWriter K)
    pub sender : Option K.OneshotSender
    pub expiration : ℕ
    pub file_size : ℕ
    pub expected_size : Option ℕ
    pub expected_content_md5 : Option (List ℕ)
    pub sent : List WriteResult
    pub tracked : List ℕ

  abbrev pub new : FileWriter K → K.OneshotSender → ℕ → Option ℕ → Option (List ℕ) → FileWriterGuard
  new writer sender expiration expected_size content_md5 = record {
    inner = some writer;
    sender = some sender;
    expiration = expiration;
    file_size = 0;
    expected_size = expected_size;
    expected_content_md5 = content_md5;
    sent = [];
    tracked = [];
  }

  unfoldable pub fail_if_not_already_closed : FileWriterGuard → FileWriterGuard
  fail_if_not_already_closed g = elim g.sender [
    | none ↦ g
    | some _ ↦ record g { sender = none; sent = g.sent ++ failed ∷ [] }
  ]

  -- `Drop`
  unfoldable pub drop_guard : FileWriterGuard → FileWriterGuard
  unfolding fail_if_not_already_closed
  drop_guard g = fail_if_not_already_closed g

  -- The part of `write` behind the successful write of `n` bytes.
  count_written : FileWriterGuard → ℕ → Result IoError ℕ × FileWriterGuard
  unfolding fail_if_not_already_closed
  count_written g n =
      let g' = record g { file_size = add_word g.file_size n; tracked = g.tracked ++ n ∷ [] } in
      elim g.expected_size [
        | none ↦ (ok n, g')
        | some expected ↦
            if ltb expected g'.file_size
            then (err too_many_bytes, fail_if_not_already_closed g')
            else (ok n, g')
      ]

  unfoldable pub write : FileWriterGuard → List ℕ → Result IoError ℕ × FileWriterGuard
  unfolding count_written
  write g chunk = elim g.inner [
    | none ↦ (err_broken_pipe, g)
    | some writer ↦
        let (outcome, writer') = Writer.write K writer chunk in
        let g' = record g { inner = some writer' } in
        elim outcome [ err e ↦ (err e, g') | ok n ↦ count_written g' n ]
  ]

  -- `sync_data`, by way of `Deref`; `none` is its panic on a closed guard.
  unfoldable pub sync_data :
      FileWriterGuard → Option (Result (Writer.SynchronizationError K) (Unit {0}) × FileWriterGuard)
  sync_data g = elim g.inner [
    | none ↦ none
    | some writer ↦
        let (outcome, writer') = Writer.sync_data K writer in
        some (outcome, record g { inner = some writer' })
  ]

  unfoldable pub try_signal_success :
      FileWriterGuard → WriteSummary → Result (FinalizationError K) (Unit {0}) × FileWriterGuard
  try_signal_success g s = elim g.sender [
    | none ↦ (err backbone_communication_failed, g)
    | some tx ↦ (
      if K.delivers tx then ok tt else err backbone_communication_failed,
      record g { sender = none; sent = g.sent ++ success s ∷ [] },
    )
  ]

  abbrev Finalized : Type 0
  Finalized = Result (FinalizationError K) WriteSummary × FileWriterGuard

  signal : FileWriterGuard → WriteSummary → Finalized
  unfolding try_signal_success
  signal g s =
      let (outcome, g') = try_signal_success g s in
      elim outcome [ ok _ ↦ (ok s, g') | err e ↦ (err e, g') ]

  verify_integrity : FileWriterGuard → WriteSummary → Finalized
  unfolding signal fail_if_not_already_closed
  verify_integrity g s = elim g.expected_content_md5 [
    | none ↦ signal g s
    | some md5 ↦ if bytes_eq md5 s.hashes.md5 then signal g s else (
      err (integrity_check_failed (K.hex_encode md5) (K.hex_encode s.hashes.md5)),
      fail_if_not_already_closed g,
    )
  ]

  verify_length : FileWriterGuard → WriteSummary → Finalized
  unfolding verify_integrity fail_if_not_already_closed
  verify_length g s = elim g.expected_size [
    | none ↦ verify_integrity g s
    | some expected ↦
        if g.file_size == expected
        then verify_integrity g s
        else (err (invalid_file_length g.file_size expected), fail_if_not_already_closed g)
  ]

  -- The body of `finalize`.
  finalize_body : FileWriterGuard → CompletionMode → ℕ → Finalized
  unfolding verify_length
  finalize_body g mode now = elim g.inner [
    | none ↦ (err backbone_communication_failed, g)
    | some writer ↦
        let g' = record g { inner = none } in
        elim (Writer.finalize K writer mode g.expiration now) [
          | err e ↦ (err e, g')
          | ok s ↦ verify_length g' s
        ]
  ]

  -- `finalize` takes the guard by value, so it is dropped at the end, on every path.
  unfoldable pub finalize : FileWriterGuard → CompletionMode → ℕ → Finalized
  unfolding finalize_body drop_guard
  finalize g mode now = let (outcome, g') = finalize_body g mode now in (outcome, drop_guard g')
