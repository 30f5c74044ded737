-- ===== src/Backbone/Accessor.antt =====
-- crates/backbone/src/file_accessor.rs: how the backends reach the backbone.
pub mod Lease
use yeet_yoink.Common.{ℕ, Bool, true, false, Option, none, some, Result, ok, err, if◌then◌else◌}
use yeet_yoink.Crates.{Crates}
use yeet_yoink.Distribution.{FileAccessorError, get_reader_error}
use yeet_yoink.Backbone.Reader.{FileReader}
use yeet_yoink.Backbone.Table.{Backbone}
use yeet_yoink.Backbone.Table

pub data GetBackboneError : Type 0 where
  backbone_unavailable failed_to_lock : GetBackboneError

module _ (K : Crates) where
  -- The weak reference as the place that it points to, if it was set; and whether the lock is
  -- poisoned.
  pub record FileAccessorBridge : Type 0 where
    pub backbone : Option ℕ
    pub is_poisoned : Bool

  -- `Default`
  abbrev pub new : FileAccessorBridge
  new = record { backbone = none; is_poisoned = false }

  -- `none` is the panic on a poisoned lock.
  unfoldable pub set_backbone : FileAccessorBridge → ℕ → Option FileAccessorBridge
  set_backbone f backbone =
      if f.is_poisoned then none else some (record f { backbone = some backbone })

  -- The backbones that are alive, by their places: `upgrade` finds those.
  abbrev pub Living : Type 0
  Living = ℕ → Option (Backbone K)

  unfoldable pub get_backbone : FileAccessorBridge → Living → Result GetBackboneError (Backbone K)
  get_backbone f living =
      if f.is_poisoned then err GetBackboneError.failed_to_lock else elim f.backbone [
        | none ↦ err GetBackboneError.backbone_unavailable
        | some place ↦ elim (living place) [
          | none ↦ err GetBackboneError.backbone_unavailable
          | some b ↦ ok b
        ]
      ]

  unfoldable pub get_file :
      FileAccessorBridge
      → Living
      → K.Disk
      → K.ShortGuid
      → Option (Result (FileAccessorError K) (FileReader K))
  get_file f living disk id = elim (get_backbone f living) [
    | err GetBackboneError.backbone_unavailable ↦ some (err FileAccessorError.backbone_unavailable)
    | err GetBackboneError.failed_to_lock ↦ some (err FileAccessorError.failed_to_lock)
    | ok b ↦ elim (Table.get_file K b disk id) [
      | none ↦ none
      | some (err e) ↦ some (err (get_reader_error e))
      | some (ok file) ↦ some (ok file)
    ]
  ]
