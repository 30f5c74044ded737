-- ===== src/Backbone/System/Access.antt =====
-- What `get_file` answers in a reachable state.
use yeet_yoink.Common.{
  ℕ, ◌≡◌, refl, ap, ◌∙◌, ◌≢◌, ◌↔◌, ◌⊎◌, inl, inr, Bool, Option-cases, Option, none, some, ok, err,
  arith, get_elem?, Result-cases,
}
use yeet_yoink.Common.Dict.{lookup}
use yeet_yoink.Crates.{Crates}
use yeet_yoink.Distribution.{WriteSummary, unknown_file, file_expired, file_error}
use yeet_yoink.Backbone.Reader.{FileReader}
use yeet_yoink.Backbone.Reader
use yeet_yoink.Backbone.Record.{
  Lifetime, FileRecord, Inner, Phase, awaiting_result, closing, persisting, announcing, leasing,
  removing, finished, get_reader,
}
use yeet_yoink.Backbone.Table.{Backbone, new, get_file, open_entry}
use yeet_yoink.Backbone.System.{Reach}
use yeet_yoink.Backbone.System.Duties.{alive, duties, Reach-duties}
use yeet_yoink.Backbone.System.Each.{Fits, Reach-Fits}
use yeet_yoink.Backbone.System.Links.{Reach-Owned}
use yeet_yoink.Backbone.System.Entries.{Reach-Linked}

module _ (K : Crates) where
  pub Entry-cases :
      {listens : Bool} {b : Backbone K}
      → Reach K (new K listens) b
      → (disk : K.Disk) (id : K.ShortGuid)
      → ((lookup K.guid_eq id b.open_files ≡ none)
          × (get_file K b disk id ≡ some (err (unknown_file id))))
        ⊎ ((r : FileRecord K) × (t : Lifetime K) × (lookup K.guid_eq id b.open_files ≡ some r)
            × (get_elem? b.lifetimes r.inner ≡ some t)
            × (r.id ≡ id)
            × (get_file K b disk id ≡ some (open_entry K disk r t.inner)))
  unfolding get_file
  Entry-cases {b} reach disk id = elim (Option-cases (lookup K.guid_eq id b.open_files)) [
    | inl e ↦ inl (e, ground arith)
    | inr (r, e) ↦
        let (t, at, _, same) = Reach-Linked K reach id r e in inr (r, t, e, at, same, ground arith)
  ]

  pub open_entry-known :
      (disk : K.Disk) (r : FileRecord K) (inner : Inner K) (id : K.ShortGuid)
      → open_entry K disk r inner ≢ err (unknown_file id)
  unfolding open_entry get_reader
  open_entry-known disk r inner id h = elim (Option-cases inner.file) [
    | inl e ↦ ground arith
    | inr (file, e) ↦ elim (Result-cases (K.open_reader disk file)) [
      | inl (x, f) ↦ ground arith
      | inr (x, f) ↦ ground arith
    ]
  ]

  -- In a reachable state `get_file` reports an id as unknown exactly if nothing is left to do for
  -- it: no lifetime handler of it runs, and no removal of it is on its way. It never meets an entry
  -- whose shared state is missing.
  pub get_file-unknown_iff :
      {listens : Bool} {b : Backbone K}
      → Reach K (new K listens) b
      → (disk : K.Disk) (id : K.ShortGuid)
      → (get_file K b disk id ≢ none)
        × ((get_file K b disk id ≡ some (err (unknown_file id))) ↔ (duties K id b ≡ 0))
  get_file-unknown_iff {b} reach disk id = elim (Entry-cases reach disk id) [
    | inl (e, f) ↦ (λ x. ground arith, (λ _. Reach-duties K id reach ∙ rw e refl, λ _. f))
    | inr (r, t, e, at, same, f) ↦ (
      λ x. ground arith,
      (
        λ x. absurd (open_entry-known disk r t.inner id (ground arith)),
        λ x. absurd (ground (arith, Reach-duties K id reach)),
      ),
    )
  ]

  module _ (b : Backbone K) (disk : K.Disk) (t : Lifetime K) where
    -- The reader of the file that the disk opens, or its error, is the answer.
    abbrev pub IsReadable : Option WriteSummary → Type 0
    IsReadable summary =
        (file : K.TempFile) × (t.inner.file ≡ some file)
        × (((reader : K.Reader) × (f : FileReader K) × (K.open_reader disk file ≡ ok reader)
              × (get_file K b disk t.id ≡ some (ok f))
              × (f.inner ≡ reader)
              × (f.summary ≡ summary))
            ⊎ ((e : K.TempfileError) × (K.open_reader disk file ≡ err e)
                × (get_file K b disk t.id ≡ some (err (file_error t.id e)))))

    abbrev pub Serves : Phase → Type 0
    Serves (announcing s) = IsReadable (some s)
    Serves (leasing deadline) = (s : WriteSummary) × IsReadable (some s)
    Serves removing =
        ((t.inner.summary ≡ none) × (get_file K b disk t.id ≡ some (err (file_expired t.id))))
        ⊎ ((s : WriteSummary) × (t.inner.summary ≡ some s) × IsReadable (some s))
    Serves finished = Unit
    Serves _ = IsReadable none

  entry-IsReadable :
      (b : Backbone K) (disk : K.Disk) (t : Lifetime K) (r : FileRecord K) (file : K.TempFile)
      (summary : Option WriteSummary)
      → r.id ≡ t.id
      → get_file K b disk t.id ≡ some (open_entry K disk r t.inner)
      → t.inner.file ≡ some file
      → t.inner.summary ≡ summary
      → IsReadable b disk t summary
  unfolding open_entry get_reader
  entry-IsReadable b disk t r file summary same e f g =
      elim (Result-cases (K.open_reader disk file)) [
        | inl (reader, h) ↦ (
          file,
          f,
          inl (
            reader,
            Reader.new K reader r.content_type r.created r.expiration_duration t.inner.summary,
            h,
            e ∙ ground (arith, f, h),
            refl,
            g,
          ),
        )
        | inr (x, h) ↦ (file, f, inr (x, h, e ∙ ground (arith, f, h, same)))
      ]

  entry-is_expired :
      (disk : K.Disk) (t : Lifetime K) (r : FileRecord K)
      → r.id ≡ t.id
      → t.inner.file ≡ none
      → open_entry K disk r t.inner ≡ err (file_expired t.id)
  unfolding open_entry get_reader
  entry-is_expired disk t r same f = ground arith

  entry-Serves :
      (b : Backbone K) (disk : K.Disk) (t : Lifetime K) (r : FileRecord K) (p : Phase)
      → r.id ≡ t.id
      → get_file K b disk t.id ≡ some (open_entry K disk r t.inner)
      → Fits K p t.inner
      → Serves b disk t p
  entry-Serves b disk t r awaiting_result same e (file, f, g) =
      entry-IsReadable b disk t r file none same e f g
  entry-Serves b disk t r closing same e (file, f, g) =
      entry-IsReadable b disk t r file none same e f g
  entry-Serves b disk t r (persisting s) same e (file, f, g) =
      entry-IsReadable b disk t r file none same e f g
  entry-Serves b disk t r (announcing s) same e (file, f, g) =
      entry-IsReadable b disk t r file (some s) same e f g
  entry-Serves b disk t r (leasing deadline) same e (file, s, f, g) =
      (s, entry-IsReadable b disk t r file (some s) same e f g)
  entry-Serves b disk t r removing same e (inl (f, g)) =
      inl (g, e ∙ ap some (entry-is_expired disk t r same f))
  entry-Serves b disk t r removing same e (inr (file, s, f, g)) =
      inr (s, g, entry-IsReadable b disk t r file (some s) same e f g)
  entry-Serves b disk t r finished same e f = tt

  -- In a reachable state `get_file` serves each file whose lifetime handler runs as its wait says: a
  -- reader without a summary until the write has succeeded, one with the summary from then to the
  -- end of the lease and on to the removal, and `FileExpired` once a failed write has closed it.
  -- If the reader cannot be opened the answer is `FileError`.
  pub get_file-Serves :
      {listens : Bool} {b : Backbone K}
      → Reach K (new K listens) b
      → (disk : K.Disk) (i : ℕ) (t : Lifetime K) → get_elem? b.lifetimes i ≡ some t
      → alive t.phase ≡ 1
      → Serves b disk t t.phase
  get_file-Serves {b} reach disk i t k live =
      let (r, found, at) = Reach-Owned K reach i t k live in
      elim (Entry-cases reach disk t.id) [
        | inl (e, _) ↦ absurd (ground arith)
        | inr (r', t', e, at', same, f) ↦
            let one : r' ≡ r = ground (arith, found, e) in
            let here : t' ≡ t = ground (arith, at', one, at, k) in
            entry-Serves b disk t r' t.phase same
              (f ∙ ap (λ (l : Lifetime K). some (open_entry K disk r' l.inner)) here)
              (Reach-Fits K reach i t k)
      ]
