-- ===== src/Backbone/Guard/Life.antt =====
-- A guard from its creation to its end: any calls, then a drop or `finalize`.
use yeet_yoink.Common.{
  ℕ, ◌≡◌, refl, ap, ◌∙◌, ◌≢◌, List, [], ◌∷◌, ◌++◌, Result, Option, none, some, ok, err, true, arith,
  inl,
}
use yeet_yoink.Crates.{Crates}
use yeet_yoink.Distribution.{WriteSummary}
use yeet_yoink.Backbone.Writer.{FileWriter, CompletionMode, SynchronizationError}
use yeet_yoink.Backbone.Guard.{
  FileWriterGuard, WriteResult, failed, new, write, sync_data, finalize, drop_guard,
}
use yeet_yoink.Backbone.Guard.Signal.{IsUnfinished, verdict, write-IsUnfinished, finalize-sent}

pub data GuardCall : Type 0 where
  writes : List ℕ → GuardCall
  syncs : GuardCall

pub data Ending : Type 0 where
  drops : Ending
  finalizes : CompletionMode → ℕ → Ending

module _ (K : Crates) where
  unfoldable pub call : FileWriterGuard K → GuardCall → FileWriterGuard K
  call g (writes chunk) = (write K g chunk).1
  call g syncs = elim (sync_data K g) [ none ↦ g | some (_, g') ↦ g' ]

  unfoldable pub calls : FileWriterGuard K → List GuardCall → FileWriterGuard K
  unfolding call
  calls g [] = g
  calls g (c ∷ cs) = calls (call g c) cs

  -- Some calls take the one guard to the other.
  abbrev pub Reaches : FileWriterGuard K → FileWriterGuard K → Type 0
  Reaches g g' = (cs : List GuardCall) × (calls g cs ≡ g')

  pub calls-append :
      (g : FileWriterGuard K) (cs ds : List GuardCall) → calls g (cs ++ ds) ≡ calls (calls g cs) ds
  unfolding calls
  calls-append g [] ds = refl
  calls-append g (c ∷ cs) ds = calls-append (call g c) cs ds

  pub Reaches-trans : (g g' g'' : FileWriterGuard K) → Reaches g g' → Reaches g' g'' → Reaches g g''
  Reaches-trans g g' g'' (cs, e) (ds, f) =
      (cs ++ ds, calls-append g cs ds ∙ ap (λ x. calls x ds) e ∙ f)

  pub sync_data-Reaches :
      (g g' : FileWriterGuard K) {r : Result (SynchronizationError K) (Unit {0})}
      → sync_data K g ≡ some (r, g')
      → Reaches g g'
  unfolding calls call
  sync_data-Reaches g g' h = (syncs ∷ [], ground arith)

  unfoldable pub finish : FileWriterGuard K → Ending → FileWriterGuard K
  finish g drops = drop_guard K g
  finish g (finalizes mode now) = (finalize K g mode now).1

  -- What the client gets from its `finalize`.
  unfoldable pub summary_of : FileWriterGuard K → Ending → Option WriteSummary
  summary_of g drops = none
  summary_of g (finalizes mode now) = elim (finalize K g mode now).0 [
    | ok s ↦ some s
    | err e ↦ none
  ]

  -- What the backbone has to hear: the outcome of `finalize`, or a failure.
  unfoldable pub told : FileWriterGuard K → Ending → WriteResult
  told g drops = failed
  told g (finalizes mode now) = verdict K (finalize K g mode now).0

  call-IsUnfinished :
      (g : FileWriterGuard K) (c : GuardCall) → IsUnfinished K g → IsUnfinished K (call g c)
  unfolding call sync_data
  call-IsUnfinished g (writes chunk) u = write-IsUnfinished K g chunk u
  call-IsUnfinished g syncs u = ground arith

  pub calls-IsUnfinished :
      (g : FileWriterGuard K) (cs : List GuardCall) → IsUnfinished K g → IsUnfinished K (calls g cs)
  unfolding calls
  calls-IsUnfinished g [] u = u
  calls-IsUnfinished g (c ∷ cs) u = calls-IsUnfinished (call g c) cs (call-IsUnfinished g c u)

  finish-sent :
      ((tx : K.OneshotSender) → K.delivers tx ≡ true)
      → (g : FileWriterGuard K) (e : Ending) → IsUnfinished K g
      → (finish g e).sent ≡ told g e ∷ []
  unfolding finish told drop_guard
  finish-sent alive g drops u = ground arith
  finish-sent alive g (finalizes mode now) u = finalize-sent K alive g mode now u

  -- A guard that is created by `new`, takes any writes and syncs, and is then dropped or finalized,
  -- has sent the backbone exactly one message, provided that the receiver is there: `Success` with
  -- the summary that `finalize` returns, and `Failed` if `finalize` fails or was never called.
  pub life-sent :
      ((tx : K.OneshotSender) → K.delivers tx ≡ true)
      → (writer : FileWriter K) (tx : K.OneshotSender) (expiration : ℕ) (size : Option ℕ)
      → (md5 : Option (List ℕ)) (cs : List GuardCall) (e : Ending)
      → let g = calls (new K writer tx expiration size md5) cs in (finish g e).sent ≡ told g e ∷ []
  life-sent alive writer tx expiration size md5 cs e =
      finish-sent alive _ e (calls-IsUnfinished _ cs (inl (tx, refl, refl)))

  call-closed : (g : FileWriterGuard K) (c : GuardCall) → g.sender ≡ none → (call g c).sender ≡ none
  unfolding call write sync_data
  call-closed g (writes chunk) h = ground arith
  call-closed g syncs h = ground arith

  -- Once a guard has given its sender away, no further writes or syncs let `finalize` succeed.
  closed-never_ok :
      (g : FileWriterGuard K) (cs : List GuardCall) (mode : CompletionMode) (now : ℕ)
      → (s : WriteSummary) → g.sender ≡ none
      → (finalize K (calls g cs) mode now).0 ≢ ok s
  unfolding calls finalize
  closed-never_ok g [] mode now s h = ground arith
  closed-never_ok g (c ∷ cs) mode now s h =
      closed-never_ok (call g c) cs mode now s (call-closed g c h)
