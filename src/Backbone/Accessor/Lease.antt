-- ===== src/Backbone/Accessor/Lease.antt =====
-- What a backend gets through the bridge while a file is leased.
use mathlib.Core.Path.{subst}
use yeet_yoink.Common.{
  ℕ, ◌≡◌, refl, ap, ◌∙◌, ◌⊎◌, inl, inr, Bool, Option, none, some, Result, ok, err, arith, get_elem?,
}
use yeet_yoink.Crates.{Crates}
use yeet_yoink.Distribution.{
  WriteSummary, FileAccessorError, GetFileReaderError, file_error, get_reader_error,
}
use yeet_yoink.Backbone.Reader.{FileReader}
use yeet_yoink.Backbone.Record.{Lifetime, leasing}
use yeet_yoink.Backbone.Table.{Backbone, new}
use yeet_yoink.Backbone.Table
use yeet_yoink.Backbone.Accessor.{FileAccessorBridge, Living, set_backbone, get_backbone, get_file}
use yeet_yoink.Backbone.System.{Reach}
use yeet_yoink.Backbone.System.Access.{Serves, get_file-Serves}

module _ (K : Crates) where
  abbrev pub through :
      Option (Result (GetFileReaderError K) (FileReader K))
      → Option (Result (FileAccessorError K) (FileReader K))
  through none = none
  through (some (err e)) = some (err (get_reader_error e))
  through (some (ok file)) = some (ok file)

  pub get_file-through :
      (f f' : FileAccessorBridge K) (place : ℕ) (living : Living K) (b : Backbone K) (disk : K.Disk)
      (id : K.ShortGuid)
      → set_backbone K f place ≡ some f'
      → living place ≡ some b
      → get_file K f' living disk id ≡ through (Table.get_file K b disk id)
  unfolding set_backbone get_backbone get_file
  get_file-through f f' place living b disk id h lives = ground arith

  -- Once the bridge was given a backbone that is still alive and in a reachable state, a backend gets
  -- a file that is leased, with the summary of its write: either the reader that the disk opens, or
  -- the disk's error as the accessor's.
  get_file-leased :
      (f f' : FileAccessorBridge K) (place : ℕ) (living : Living K) {listens : Bool}
      {b : Backbone K} (disk : K.Disk) (i : ℕ) (t : Lifetime K) (deadline : ℕ)
      → set_backbone K f place ≡ some f'
      → living place ≡ some b
      → Reach K (new K listens) b
      → get_elem? b.lifetimes i ≡ some t
      → t.phase ≡ leasing deadline
      → (file : K.TempFile) × (s : WriteSummary) × (t.inner.file ≡ some file)
        × (((reader : K.Reader) × (r : FileReader K) × (K.open_reader disk file ≡ ok reader)
              × (get_file K f' living disk t.id ≡ some (ok r))
              × (r.inner ≡ reader)
              × (r.summary ≡ some s))
            ⊎ ((e : K.TempfileError) × (K.open_reader disk file ≡ err e)
                × (get_file K f' living disk t.id
                    ≡ some (err (get_reader_error (file_error t.id e))))))
  get_file-leased f f' place living {b = b} disk i t deadline set lives reach k leased =
      let same = get_file-through f f' place living b disk t.id set lives in
      let (s, (file, e, outcome)) =
        subst (Serves K b disk t) leased (get_file-Serves K reach disk i t k (rw leased refl)) in
      (
        file,
        s,
        e,
        elim outcome [
          | inl (reader, r, opened, found, is_reader, has_summary) ↦
              inl (reader, r, opened, same ∙ ap through found, is_reader, has_summary)
          | inr (x, broken, found) ↦ inr (x, broken, same ∙ ap through found)
        ],
      )
