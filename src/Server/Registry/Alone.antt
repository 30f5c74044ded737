-- ===== src/Server/Registry/Alone.antt =====
-- The backends do not get in each other's way.
use mathlib.Core.Path.{fun_ext}
use mathlib.Core.Option
use yeet_yoink.Common.{
  ◌≡◌, refl, sym, ap, ◌∙◌, inl, inr, List, [], ◌∷◌, Option, none, some, Result, traverse,
  traverse-traverse, traverse-some, and_then-ext, and_then, Option-cases,
}
use yeet_yoink.Crates.{Crates}
use yeet_yoink.Distribution.{WriteSummary}
use yeet_yoink.Backend.{Backend, BackendCommand, distribute_file, DistributionError, FileProvider}
use yeet_yoink.Server.Registry.{Event, distribute_one, handle_events}

module _ (K : Crates) (S : Type 0) where
  abbrev pub Distribute : Type 0
  Distribute =
      S
      → K.ShortGuid
      → WriteSummary
      → FileProvider K
      → Option (Result (DistributionError K) (Unit {0}) × S)

  -- What the calls of `distribute_file` of one backend make of its state. Each is made, whether the
  -- one before it has succeeded or failed; `none` if one panics.
  unfoldable pub left_with : Distribute → List (Event K S) → S → Option S
  left_with distribute [] s = some s
  left_with distribute (e ∷ events) s = elim e.command [
    | distribute_file id summary ↦ elim (distribute s id summary e.provider) [
      | none ↦ none
      | some (_, s') ↦ left_with distribute events s'
    ]
  ]

  abbrev pub with_state : Backend K S → S → Backend K S
  with_state b s = record b { state = s }

  -- The backend after all events, had it been the only one.
  abbrev pub after_all : List (Event K S) → Backend K S → Option (Backend K S)
  after_all events b = Option.map (with_state b) (left_with b.distribute events b.state)

  after_all-event :
      (c : BackendCommand K) (p : FileProvider K) (events : List (Event K S)) (b : Backend K S)
      → let e : Event K S = record { command = c; provider = p } in
        and_then (distribute_one K S e b) (after_all events) ≡ after_all (e ∷ events) b
  unfolding distribute_one left_with
  after_all-event (distribute_file id summary) p events b =
      elim (Option-cases (b.distribute b.state id summary p)) [
        | inl x ↦ rw (distribute_one, left_with, x) refl
        | inr ((r, s), x) ↦ rw (distribute_one, left_with, x) refl
      ]

  -- The event loop leaves every backend with the state that its own calls make, one for each command
  -- and in their order: no state of another backend reaches it, and an error that a call returns,
  -- its own or another's, ends nothing. Only a panic does: the loop ends if any backend panics.
  pub handle_events-after_all :
      (backends : List (Backend K S)) (events : List (Event K S))
      → handle_events K S backends events ≡ traverse (after_all events) backends
  unfolding handle_events left_with
  handle_events-after_all backends [] = sym (traverse-some backends)
  handle_events-after_all backends (e ∷ events) =
      and_then-ext (traverse (distribute_one K S e) backends)
        (λ backends'. handle_events K S backends' events) (traverse (after_all events))
        (λ backends'. handle_events-after_all backends' events)
      ∙ traverse-traverse (distribute_one K S e) (after_all events) backends
      ∙ ap (λ f. traverse f backends) (fun_ext (λ b. after_all-event e.command e.provider events b))
