-- ===== src/Backbone/Guard/Signal.antt =====
-- What the backbone hears from a guard.
use yeet_yoink.Common.{
  ℕ, ◌≡◌, ◌⊎◌, List, [], ◌∷◌, none, some, Result, ok, err, true, arith, inl, inr, Option-cases,
}
use yeet_yoink.Crates.{Crates}
use yeet_yoink.Distribution.{WriteSummary}
use yeet_yoink.Backbone.Writer.{CompletionMode, FinalizationError, SynchronizationError}
use yeet_yoink.Backbone.Guard.{
  FileWriterGuard, WriteResult, success, failed, fail_if_not_already_closed, count_written, write,
  finalize, sync_data,
}

module _ (K : Crates) where
  -- Before `finalize` a guard holds its sender and has sent nothing, or it has sent one failure.
  abbrev pub IsUnfinished : FileWriterGuard K → Type 0
  IsUnfinished g =
      ((tx : K.OneshotSender) × (g.sender ≡ some tx) × (g.sent ≡ []))
      ⊎ ((g.sender ≡ none) × (g.sent ≡ failed ∷ []))

  fail-IsUnfinished :
      (g : FileWriterGuard K) → IsUnfinished g → IsUnfinished (fail_if_not_already_closed K g)
  unfolding fail_if_not_already_closed
  fail-IsUnfinished g (inl (tx, e, f)) = ground arith
  fail-IsUnfinished g (inr (e, f)) = ground arith

  count_written-IsUnfinished :
      (g : FileWriterGuard K) (n : ℕ) → IsUnfinished g → IsUnfinished (count_written K g n).1
  unfolding count_written
  count_written-IsUnfinished g n u = ground arith

  pub write-IsUnfinished :
      (g : FileWriterGuard K) (chunk : List ℕ) → IsUnfinished g → IsUnfinished (write K g chunk).1
  unfolding write
  write-IsUnfinished g chunk u = ground arith

  pub sync_data-IsUnfinished :
      (g g' : FileWriterGuard K) {r : Result (SynchronizationError K) (Unit {0})}
      → IsUnfinished g
      → sync_data K g ≡ some (r, g')
      → IsUnfinished g'
  unfolding sync_data
  sync_data-IsUnfinished g g' u h = elim (Option-cases g.inner) [
    | inl e ↦ absurd (ground arith)
    | inr (w, e) ↦ ground arith
  ]

  -- The result that fits an outcome.
  abbrev pub verdict : Result (FinalizationError K) WriteSummary → WriteResult
  verdict (ok s) = success s
  verdict (err e) = failed

  pub finalize-sent :
      ((tx : K.OneshotSender) → K.delivers tx ≡ true)
      → (g : FileWriterGuard K) (mode : CompletionMode) (now : ℕ) → IsUnfinished g
      → (finalize K g mode now).1.sent ≡ verdict (finalize K g mode now).0 ∷ []
  unfolding finalize
  finalize-sent alive g mode now (inl (tx, e, f)) = ground (arith, alive tx)
  finalize-sent alive g mode now (inr (e, f)) = ground arith
