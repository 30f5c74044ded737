-- ===== src/Backbone/Contract.antt =====
-- What the backbone promises of an id, whatever its table, handlers and channel look like: the
-- contract that crates/backbone/src/backbone.rs and file_record.rs implement.
pub mod Changes
pub mod Refines
pub mod Answers
use yeet_yoink.Common.{Option, none, some, get_elem?}
use yeet_yoink.Common.Dict.{lookup}
use yeet_yoink.Crates.{Crates}
use yeet_yoink.Distribution.{WriteSummary}
use yeet_yoink.Backbone.Record.{Inner}
use yeet_yoink.Backbone.Table.{Backbone}

pub data Status (K : Crates) : Type 0 where
  absent failed : Status K
  uploading : K.TempFile → Status K
  stored : K.TempFile → WriteSummary → Status K

-- The changes that an id can go through.
pub data Moves (K : Crates) : Status K → Status K → Type 0 where
  stays : {p : Status K} → Moves K p p
  opens : {file : K.TempFile} → Moves K absent (uploading file)
  stores : {file : K.TempFile} {s : WriteSummary} → Moves K (uploading file) (stored file s)
  fails : {file : K.TempFile} → Moves K (uploading file) failed
  expires : {file : K.TempFile} {s : WriteSummary} → Moves K (stored file s) absent
  forgets : Moves K failed absent

module _ (K : Crates) where
  abbrev pub parts_status : Option K.TempFile → Option WriteSummary → Status K
  parts_status none summary = failed
  parts_status (some file) none = uploading file
  parts_status (some file) (some s) = stored file s

  abbrev pub inner_status : Inner K → Status K
  inner_status inner = parts_status inner.file inner.summary

  unfoldable pub status : Backbone K → K.ShortGuid → Status K
  status b id = elim (lookup K.guid_eq id b.open_files) [
    | none ↦ absent
    | some r ↦ elim (get_elem? b.lifetimes r.inner) [
      | none ↦ absent
      | some t ↦ inner_status t.inner
    ]
  ]
