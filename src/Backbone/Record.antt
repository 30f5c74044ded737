-- ===== src/Backbone/Record.antt =====
-- crates/backbone/src/file_record.rs: the entry of a file, and the task that controls its lifetime.
use yeet_yoink.Common.{
  ℕ, ◌+◌, Bool, true, false, List, [], ◌∷◌, Option, none, some, Result, ok, err, map_err, leb,
  if◌then◌else◌,
}
use yeet_yoink.Crates.{Crates}
use yeet_yoink.Distribution.{WriteSummary, GetFileReaderError, file_expired, file_error}
use yeet_yoink.Backbone.Guard.{WriteResult, success, failed}

-- `BackboneCommand` of backbone.rs
pub data BackboneCommand (K : Crates) : Type 0 where
  remove_writer : K.ShortGuid → BackboneCommand K
  ready_for_distribution : K.ShortGuid → WriteSummary → BackboneCommand K

-- Where `lifetime_handler` waits.
pub data Phase : Type 0 where
  -- for the result of the write
  awaiting_result : Phase
  -- for the lock, in `close_file`
  closing : Phase
  -- for the lock, to persist the summary
  persisting : WriteSummary → Phase
  -- for room in the channel, to announce the file
  announcing : WriteSummary → Phase
  -- until the instant at which the lease ends
  leasing : ℕ → Phase
  -- for room in the channel, in `remove_writer`
  removing : Phase
  finished : Phase

-- What a wait of the handler ends with: the oneshot's value or its closing, the lock, the channel's
-- acceptance (`false` if it is closed), or the end of a sleep. The last two carry the clock.
pub data Answer : Type 0 where
  received : Result (Unit {0}) WriteResult → Answer
  locked : Answer
  sent : Bool → ℕ → Answer
  slept : ℕ → Answer

module _ (K : Crates) where
  pub record Inner : Type 0 where
    pub file : Option K.TempFile
    pub summary : Option WriteSummary

  -- `inner` names the `Inner` that the record shares with its lifetime handler.
  pub record FileRecord : Type 0 where
    pub id : K.ShortGuid
    pub content_type : Option K.ContentType
    pub created : ℕ
    pub expiration_duration : ℕ
    pub inner : ℕ

  -- A shared `Inner` and the lifetime handler that was spawned with it.
  pub record Lifetime : Type 0 where
    pub id : K.ShortGuid
    pub inner : Inner
    pub duration : ℕ
    pub phase : Phase

  -- `FileRecord::new`; `at` is the place of the new lifetime.
  abbrev pub new_record :
      ℕ → K.ShortGuid → K.TempFile → ℕ → Option K.ContentType → ℕ → FileRecord × Lifetime
  new_record at id file duration content_type created = (
    record {
      id = id;
      content_type = content_type;
      created = created;
      expiration_duration = duration;
      inner = at;
    },
    record {
      id = id;
      inner = record { file = some file; summary = none };
      duration = duration;
      phase = awaiting_result;
    },
  )

  unfoldable pub get_reader : K.Disk → FileRecord → Inner → Result (GetFileReaderError K) K.Reader
  get_reader disk r inner = elim inner.file [
    | none ↦ err (file_expired r.id)
    | some file ↦ map_err (file_error r.id) (K.open_reader disk file)
  ]

  abbrev pub get_summary : Inner → Option WriteSummary
  get_summary inner = inner.summary

  abbrev close_file : Inner → Inner
  close_file inner = record inner { file = none }

  abbrev pub Turn : Type 0
  Turn = Option (Lifetime × List (BackboneCommand K))

  abbrev go_to : Lifetime → Phase → Turn
  go_to t p = some (record t { phase = p }, [])

  -- From one wait of `lifetime_handler` to the next, with the commands sent; `none` if the handler
  -- does not wait for that.
  unfoldable pub turn : Lifetime → Phase → Answer → Turn
  turn t awaiting_result (received (ok (success s))) = go_to t (persisting s)
  turn t awaiting_result (received (ok failed)) = go_to t closing
  turn t awaiting_result (received (err _)) = go_to t closing
  turn t closing locked = some (record t { inner = close_file t.inner; phase = removing }, [])
  turn t (persisting s) locked =
      some (record t { inner = record t.inner { summary = some s }; phase = announcing s }, [])
  turn t (announcing s) (sent true now) =
      some (record t { phase = leasing (now + t.duration) }, ready_for_distribution t.id s ∷ [])
  turn t (announcing s) (sent false now) = go_to t finished
  turn t (leasing deadline) (slept now) = if leb deadline now then go_to t removing else none
  turn t removing (sent true now) = some (record t { phase = finished }, remove_writer t.id ∷ [])
  turn t removing (sent false now) = go_to t finished
  turn t _ _ = none

  unfoldable pub lifetime_handler : Lifetime → Answer → Turn
  unfolding turn
  lifetime_handler t a = turn t t.phase a
