-- ===== src/Backbone/Table/Opens.antt =====
-- What `new_file` hands out.
use yeet_yoink.Common.{ℕ, ◌≡◌, inl, inr, ok, err, arith, Result-cases, Option-cases}
use yeet_yoink.Common.Dict.{lookup}
use yeet_yoink.Crates.{Crates}
use yeet_yoink.Backbone.Guard.{FileWriterGuard}
use yeet_yoink.Backbone.Guard
use yeet_yoink.Backbone.Writer
use yeet_yoink.Backbone.Table.{Backbone, NewFile, NewFileError, temporal_lease, new_file}
use yeet_yoink.Backbone.System.{registered}

module _ (K : Crates) (b : Backbone K) (disk : K.Disk) (f : NewFile K) (tx : K.OneshotSender)
    (now : ℕ) where
  -- A new guard over a new writer of a new file.
  pub record Opened (g : FileWriterGuard K) : Type 0 where
    pub file : K.TempFile
    pub writer : K.Writer
    pub created : K.new_with_uuid disk (K.uuid_of f.id) ≡ ok file
    pub opened : K.open_writer disk file ≡ ok writer
    pub is_new :
        g
        ≡ Guard.new K
            (Writer.new K writer f.file_name)
            tx
            temporal_lease
            f.expected_size
            f.content_md5

  pub new_file-Opened : (g : FileWriterGuard K) → (new_file K b disk f tx now).0 ≡ ok g → Opened g
  unfolding new_file
  new_file-Opened g h = elim (Result-cases (K.new_with_uuid disk (K.uuid_of f.id))) [
    | inr (e, x) ↦ absurd (ground arith)
    | inl (file, x) ↦ elim (Result-cases (K.open_writer disk file)) [
      | inr (e, y) ↦ absurd (ground arith)
      | inl (w, y) ↦ elim (Option-cases (lookup K.guid_eq f.id b.open_files)) [
        | inr (r, z) ↦ absurd (ground arith)
        | inl z ↦ record { file = file; writer = w; created = x; opened = y; is_new = ground arith }
      ]
    ]
  ]

  -- With a guard goes a new entry and a new lifetime.
  pub new_file-registered :
      (g : FileWriterGuard K)
      → (new_file K b disk f tx now).0 ≡ ok g
      → (file : K.TempFile) × (K.new_with_uuid disk (K.uuid_of f.id) ≡ ok file)
        × ((new_file K b disk f tx now).1 ≡ registered K b f file now)
  unfolding new_file
  new_file-registered g h = elim (Result-cases (K.new_with_uuid disk (K.uuid_of f.id))) [
    | inr (e, x) ↦ absurd (ground arith)
    | inl (file, x) ↦ elim (Result-cases (K.open_writer disk file)) [
      | inr (e, y) ↦ absurd (ground arith)
      | inl (w, y) ↦ elim (Option-cases (lookup K.guid_eq f.id b.open_files)) [
        | inr (r, z) ↦ absurd (ground arith)
        | inl z ↦ (file, x, ground arith)
      ]
    ]
  ]

  -- Without a guard the backbone is as it was.
  pub new_file-refused :
      (e : NewFileError K)
      → (new_file K b disk f tx now).0 ≡ err e
      → (new_file K b disk f tx now).1 ≡ b
  unfolding new_file
  new_file-refused e h = elim (Result-cases (K.new_with_uuid disk (K.uuid_of f.id))) [
    | inr (x, i) ↦ ground arith
    | inl (file, i) ↦ elim (Result-cases (K.open_writer disk file)) [
      | inr (x, j) ↦ ground arith
      | inl (w, j) ↦ elim (Option-cases (lookup K.guid_eq f.id b.open_files)) [
        | inr (r, k) ↦ ground arith
        | inl k ↦ absurd (ground arith)
      ]
    ]
  ]
