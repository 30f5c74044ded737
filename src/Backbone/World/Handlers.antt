-- ===== src/Backbone/World/Handlers.antt =====
-- What a lifetime handler does with the message of its own guard.
use mathlib.Core.Path.{subst}
use yeet_yoink.Common.{
  ℕ, zero, suc, ◌≡◌, refl, inl, inr, true, false, List, [], ◌∷◌, ◌++◌, Option, none, some, ok, err,
  arith, leb, get_elem?, Bool-cases,
}
use yeet_yoink.Crates.{Crates}
use yeet_yoink.Distribution.{WriteSummary}
use yeet_yoink.Backbone.Guard.{success, failed}
use yeet_yoink.Backbone.Record.{
  Lifetime, Phase, awaiting_result, closing, persisting, announcing, leasing, removing, finished,
  Answer, received, locked, sent, slept, lifetime_handler, turn, Turn, BackboneCommand,
  remove_writer, ready_for_distribution,
}
use yeet_yoink.Backend.{BackendCommand, distribute_file}

-- Each announcement of a file has `W`.
module _ (K : Crates) (W : K.ShortGuid → WriteSummary → Type 0) where
  abbrev pub InCommands : List (BackboneCommand K) → Type 0
  InCommands [] = Unit
  InCommands (ready_for_distribution id s ∷ cs) = W id s × InCommands cs
  InCommands (remove_writer id ∷ cs) = InCommands cs

  pub InCommands-append :
      (cs ds : List (BackboneCommand K)) → InCommands cs → InCommands ds → InCommands (cs ++ ds)
  InCommands-append [] ds h k = k
  InCommands-append (ready_for_distribution id s ∷ cs) ds (x, h) k =
      (x, InCommands-append cs ds h k)
  InCommands-append (remove_writer id ∷ cs) ds h k = InCommands-append cs ds h k

  abbrev pub AtBackend : List (BackendCommand K) → Type 0
  AtBackend [] = Unit
  AtBackend (distribute_file id s ∷ cs) = W id s × AtBackend cs

  pub AtBackend-append :
      (cs ds : List (BackendCommand K)) → AtBackend cs → AtBackend ds → AtBackend (cs ++ ds)
  AtBackend-append [] ds h k = k
  AtBackend-append (distribute_file id s ∷ cs) ds (x, h) k = (x, AtBackend-append cs ds h k)

  pub AtBackend-get :
      (cs : List (BackendCommand K)) (j : ℕ) (id : K.ShortGuid) (s : WriteSummary)
      → AtBackend cs
      → get_elem? cs j ≡ some (distribute_file id s)
      → W id s
  AtBackend-get [] j id s h e = cc
  AtBackend-get (distribute_file id' s' ∷ cs) zero id s (x, h) e =
      let a : id' ≡ id = ground arith in
      let b : s' ≡ s = ground arith in subst (λ z. W z s) a (subst (W id') b x)
  AtBackend-get (distribute_file id' s' ∷ cs) (suc j) id s (x, h) e = AtBackend-get cs j id s h e

module _ (K : Crates) (V W : K.ShortGuid → WriteSummary → Type 0)
    (implies : (id : K.ShortGuid) (s : WriteSummary) → V id s → W id s) where
  pub InCommands-map : (cs : List (BackboneCommand K)) → InCommands K V cs → InCommands K W cs
  InCommands-map [] h = tt
  InCommands-map (ready_for_distribution id s ∷ cs) (x, h) = (implies id s x, InCommands-map cs h)
  InCommands-map (remove_writer id ∷ cs) h = InCommands-map cs h

  pub AtBackend-map : (cs : List (BackendCommand K)) → AtBackend K V cs → AtBackend K W cs
  AtBackend-map [] h = tt
  AtBackend-map (distribute_file id s ∷ cs) (x, h) = (implies id s x, AtBackend-map cs h)

module _ (K : Crates) (P : WriteSummary → Type 0) where
  -- Each summary that a handler keeps, is about to keep, or announces has `P`.
  abbrev Persists : Phase → Type 0
  Persists (persisting s) = P s
  Persists (announcing s) = P s
  Persists _ = Unit

  abbrev Kept : Option WriteSummary → Type 0
  Kept none = Unit
  Kept (some s) = P s

  abbrev pub Backs : Lifetime K → Type 0
  Backs t = Persists t.phase × Kept t.inner.summary

  -- A message that the handler would take has `P`.
  abbrev pub Brings : Answer → Type 0
  Brings (received (ok (success s))) = P s
  Brings _ = Unit

  -- So has each summary that the handler sends, under its own id.
  abbrev pub Sends : K.ShortGuid → List (BackboneCommand K) → Type 0
  Sends own cs = InCommands K (λ id s. (id ≡ own) × P s) cs

  abbrev TurnBacks : K.ShortGuid → Turn K → Type 0
  TurnBacks own none = Unit
  TurnBacks own (some (t, cs)) = Backs t × Sends own cs

  turn-TurnBacks :
      (t : Lifetime K) (p : Phase) (a : Answer)
      → Brings a
      → Persists p
      → Kept t.inner.summary
      → TurnBacks t.id (turn K t p a)
  unfolding turn
  turn-TurnBacks t awaiting_result (received (ok (success s))) x y k = ((x, k), tt)
  turn-TurnBacks t awaiting_result (received (ok failed)) x y k = ((tt, k), tt)
  turn-TurnBacks t awaiting_result (received (err e)) x y k = ((tt, k), tt)
  turn-TurnBacks t awaiting_result _ x y k = tt
  turn-TurnBacks t closing locked x y k = ((tt, k), tt)
  turn-TurnBacks t closing _ x y k = tt
  turn-TurnBacks t (persisting s) locked x y k = ((y, y), tt)
  turn-TurnBacks t (persisting s) _ x y k = tt
  turn-TurnBacks t (announcing s) (sent true now) x y k = ((tt, k), ((refl, y), tt))
  turn-TurnBacks t (announcing s) (sent false now) x y k = ((tt, k), tt)
  turn-TurnBacks t (announcing s) _ x y k = tt
  turn-TurnBacks t (leasing deadline) (slept now) x y k = elim (Bool-cases (leb deadline now)) [
    | inl e ↦ rw e ((tt, k), tt)
    | inr e ↦ rw e tt
  ]
  turn-TurnBacks t (leasing deadline) _ x y k = tt
  turn-TurnBacks t removing (sent true now) x y k = ((tt, k), tt)
  turn-TurnBacks t removing (sent false now) x y k = ((tt, k), tt)
  turn-TurnBacks t removing _ x y k = tt
  turn-TurnBacks t finished _ x y k = tt

  pub lifetime_handler-Backs :
      (t t' : Lifetime K) (a : Answer) (cs : List (BackboneCommand K))
      → lifetime_handler K t a ≡ some (t', cs)
      → Brings a
      → Backs t
      → Backs t' × Sends t.id cs
  unfolding lifetime_handler
  lifetime_handler-Backs t t' a cs h x (y, k) =
      subst (TurnBacks t.id) h (turn-TurnBacks t t.phase a x y k)

  pub Backs-summary : (t : Lifetime K) (s : WriteSummary) → Backs t → t.inner.summary ≡ some s → P s
  Backs-summary t s (_, k) h = subst Kept h k

module _ (K : Crates) (P Q : WriteSummary → Type 0) (implies : (s : WriteSummary) → P s → Q s) where
  persists : (p : Phase) → Persists K P p → Persists K Q p
  persists (persisting s) h = implies s h
  persists (announcing s) h = implies s h
  persists _ h = tt

  kept : (o : Option WriteSummary) → Kept K P o → Kept K Q o
  kept none h = tt
  kept (some s) h = implies s h

  pub Backs-map : (t : Lifetime K) → Backs K P t → Backs K Q t
  Backs-map t (y, k) = (persists t.phase y, kept t.inner.summary k)

module _ (K : Crates) where
  -- What the first wait of a handler ends with.
  abbrev pub Arrives : Answer → Type 0
  Arrives (received r) = Unit
  Arrives _ = ⊥

  pub turn-Arrives :
      (t t' : Lifetime K) (a : Answer) (cs : List (BackboneCommand K))
      → turn K t awaiting_result a ≡ some (t', cs)
      → Arrives a
  unfolding turn
  turn-Arrives t t' (received r) cs h = tt
  turn-Arrives t t' locked cs h = cc
  turn-Arrives t t' (sent x now) cs h = cc
  turn-Arrives t t' (slept now) cs h = cc
