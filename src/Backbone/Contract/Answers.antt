-- ===== src/Backbone/Contract/Answers.antt =====
-- What `get_file` tells of an id is its status in the contract.
use mathlib.Core.Path.{subst}
use yeet_yoink.Common.{
  ◌≡◌, refl, sym, ◌∙◌, ◌⊎◌, inl, inr, Bool, Option, none, some, ok, err, arith, Result-cases,
}
use yeet_yoink.Crates.{Crates}
use yeet_yoink.Distribution.{WriteSummary, unknown_file, file_expired, file_error}
use yeet_yoink.Backbone.Reader.{FileReader}
use yeet_yoink.Backbone.Reader
use yeet_yoink.Backbone.Record.{Lifetime, FileRecord, get_reader}
use yeet_yoink.Backbone.Table.{Backbone, new, get_file, open_entry}
use yeet_yoink.Backbone.System.{Reach}
use yeet_yoink.Backbone.System.Access.{Entry-cases}
use yeet_yoink.Backbone.Contract.{Status, absent, failed, uploading, stored, parts_status, status}
use yeet_yoink.Backbone.Contract.Changes.{status-none, status-some}

module _ (K : Crates) where
  module _ (b : Backbone K) (disk : K.Disk) (id : K.ShortGuid) where
    -- The reader that the disk opens for this file, with this summary, or the disk's error.
    abbrev pub Reads : K.TempFile → Option WriteSummary → Type 0
    Reads file summary =
        ((reader : K.Reader) × (f : FileReader K) × (K.open_reader disk file ≡ ok reader)
          × (get_file K b disk id ≡ some (ok f))
          × (f.inner ≡ reader)
          × (f.summary ≡ summary))
        ⊎ ((e : K.TempfileError) × (K.open_reader disk file ≡ err e)
            × (get_file K b disk id ≡ some (err (file_error id e))))

    abbrev pub Meets : Status K → Type 0
    Meets absent = get_file K b disk id ≡ some (err (unknown_file id))
    Meets failed = get_file K b disk id ≡ some (err (file_expired id))
    Meets (uploading file) = Reads file none
    Meets (stored file s) = Reads file (some s)

    module _ (r : FileRecord K) (t : Lifetime K) (same : r.id ≡ id)
        (found : get_file K b disk id ≡ some (open_entry K disk r t.inner)) where
      entry-Reads :
          (file : K.TempFile) (summary : Option WriteSummary)
          → t.inner.file ≡ some file
          → t.inner.summary ≡ summary
          → Reads file summary
      unfolding open_entry get_reader
      entry-Reads file summary e g = elim (Result-cases (K.open_reader disk file)) [
        | inl (reader, h) ↦ inl (
          reader,
          Reader.new K reader r.content_type r.created r.expiration_duration t.inner.summary,
          h,
          found ∙ ground (arith, e, h),
          refl,
          g,
        )
        | inr (x, h) ↦ inr (x, h, found ∙ ground (arith, e, h, same))
      ]

      entry-Meets :
          (file : Option K.TempFile) (summary : Option WriteSummary)
          → t.inner.file ≡ file
          → t.inner.summary ≡ summary
          → Meets (parts_status K file summary)
      unfolding open_entry get_reader
      entry-Meets none summary e g = found ∙ ground (arith, e, same)
      entry-Meets (some file) none e g = entry-Reads file none e g
      entry-Meets (some file) (some s) e g = entry-Reads file (some s) e g

  -- In a reachable state the answer of `get_file` is decided by the status of the id and by the disk:
  -- unknown if absent, expired if failed, and otherwise the reader that the disk opens for its file,
  -- without a summary while it is uploading and with its summary once it is stored. If the disk
  -- opens none, the answer is the disk's error.
  pub get_file-Meets :
      {listens : Bool} {b : Backbone K}
      → Reach K (new K listens) b
      → (disk : K.Disk) (id : K.ShortGuid) → Meets b disk id (status K b id)
  get_file-Meets {b = b} reach disk id = elim (Entry-cases K reach disk id) [
    | inl (e, f) ↦ subst (Meets b disk id) (sym (status-none K b id e)) f
    | inr (r, t, e, at, same, f) ↦
        subst (Meets b disk id) (sym (status-some K b id r t e at))
          (entry-Meets b disk id r t same f t.inner.file t.inner.summary refl refl)
  ]
