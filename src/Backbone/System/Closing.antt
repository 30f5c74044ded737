-- ===== src/Backbone/System/Closing.antt =====
-- Every open file can be closed: the handlers and the command loop get there by themselves.
use mathlib.Core.Path.{subst}
use yeet_yoink.Common.{
  ℕ, zero, suc, ◌≤◌, ◌≡◌, refl, sym, ◌≢◌, ◌⊎◌, inl, inr, Bool, Bool-cases, Option-cases, true, List,
  [], ◌∷◌, ◌++◌, some, ok, err, arith, total, get_elem?, get_elem?-set_self, set, ◌==◌, Result,
}
use yeet_yoink.Common.Dict.{lookup}
use yeet_yoink.Crates.{Crates}
use yeet_yoink.Backbone.Guard.{WriteResult, success, failed}
use yeet_yoink.Backbone.Record.{
  Lifetime, Phase, awaiting_result, closing, persisting, announcing, leasing, removing, finished,
  Answer, received, locked, sent, slept, lifetime_handler, turn, BackboneCommand, remove_writer,
}
use yeet_yoink.Backbone.Table.{Backbone, new}
use yeet_yoink.Backbone.System.{run_handler, Permits, Reach}
use yeet_yoink.Backbone.System.Duties.{alive, runs, Reach-duties}
use yeet_yoink.Backbone.System.Progress.{waits_left, turn-waits_left}
use yeet_yoink.Backbone.System.Quiet.{
  Given, Quiet, stay, then_handler, Quiet-trans, IsClosed, flush, empty,
}

module _ (K : Crates) where
  alive_cases : (p : Phase) → (alive p ≡ 0) ⊎ (alive p ≡ 1)
  alive_cases finished = inl refl
  alive_cases _ = inr refl

  -- What ends the wait, given the result of the write.
  pub answer_for : Result (Unit {0}) WriteResult → Phase → Answer
  answer_for r awaiting_result = received r
  answer_for r closing = locked
  answer_for r (persisting s) = locked
  answer_for r (announcing s) = sent true 0
  answer_for r (leasing deadline) = slept deadline
  answer_for r removing = sent true 0
  answer_for r finished = locked

  abbrev pub Goes : Lifetime K → Phase → Answer → Type 0
  Goes t p a =
      (t' : Lifetime K) × (cs : List (BackboneCommand K)) × (turn K t p a ≡ some (t', cs))
      × (t'.id ≡ t.id)
      × ((alive t'.phase ≡ 1) ⊎ ((t'.phase ≡ finished) × (cs ≡ remove_writer t.id ∷ [])))

  pub turn-Goes :
      (r : Result (Unit {0}) WriteResult) (t : Lifetime K) (p : Phase)
      → alive p ≡ 1
      → Goes t p (answer_for r p)
  unfolding turn answer_for
  turn-Goes (ok (success s)) t awaiting_result live =
      (record t { phase = persisting s }, [], refl, refl, inl refl)
  turn-Goes (ok failed) t awaiting_result live =
      (record t { phase = closing }, [], refl, refl, inl refl)
  turn-Goes (err e) t awaiting_result live =
      (record t { phase = closing }, [], refl, refl, inl refl)
  turn-Goes r t closing live = (_, _, refl, refl, inl refl)
  turn-Goes r t (persisting s) live = (_, _, refl, refl, inl refl)
  turn-Goes r t (announcing s) live = (_, _, refl, refl, inl refl)
  turn-Goes r t (leasing deadline) live =
      (record t { phase = removing }, [], ground arith, refl, inl refl)
  turn-Goes r t removing live = (_, _, refl, refl, inr (refl, refl))
  turn-Goes r t finished live = cc

  answer-Given : (r : Result (Unit {0}) WriteResult) (p : Phase) → Given r (answer_for r p)
  unfolding answer_for
  answer-Given r awaiting_result = refl
  answer-Given r closing = tt
  answer-Given r (persisting s) = tt
  answer-Given r (announcing s) = tt
  answer-Given r (leasing deadline) = tt
  answer-Given r removing = tt
  answer-Given r finished = tt

  answer-Permits :
      (r : Result (Unit {0}) WriteResult) (b : Backbone K) (p : Phase)
      → b.commands ≡ []
      → Permits K b (answer_for r p)
  unfolding answer_for
  answer-Permits r b awaiting_result e = tt
  answer-Permits r b closing e = tt
  answer-Permits r b (persisting s) e = tt
  answer-Permits r b (announcing s) e = (refl, rw e (omega arith))
  answer-Permits r b (leasing deadline) e = tt
  answer-Permits r b removing e = (refl, rw e (omega arith))
  answer-Permits r b finished e = tt

  abbrev pub moved : Backbone K → ℕ → Lifetime K → List (BackboneCommand K) → Backbone K
  moved b i t cs = record b { lifetimes = set b.lifetimes i t; commands = b.commands ++ cs }

  pub turn-Quiet :
      (r : Result (Unit {0}) WriteResult) (b : Backbone K) (i : ℕ) (t t' : Lifetime K)
      (cs : List (BackboneCommand K))
      → b.commands ≡ []
      → get_elem? b.lifetimes i ≡ some t
      → turn K t t.phase (answer_for r t.phase) ≡ some (t', cs)
      → Quiet K r b (moved b i t' cs)
  unfolding run_handler lifetime_handler
  turn-Quiet r b i t t' cs e k h =
      then_handler stay i (answer_for r t.phase) (answer-Given r t.phase)
        (answer-Permits r b t.phase e) (ground arith)

  alive-waits_left : (p : Phase) → alive p ≡ 1 → waits_left p ≢ 0
  unfolding waits_left
  alive-waits_left awaiting_result h e = omega arith
  alive-waits_left _ h e = ground arith

  close :
      (r : Result (Unit {0}) WriteResult) (n : ℕ) (b : Backbone K) (i : ℕ) (t : Lifetime K)
      → waits_left t.phase ≤ n
      → get_elem? b.lifetimes i ≡ some t
      → alive t.phase ≡ 1
      → (c : Backbone K) × Quiet K r b c × IsClosed K t.id c
  close r zero b i t bound k live = absurd (alive-waits_left t.phase live (omega arith))
  close r (suc n) b i t bound k live =
      let (b1, r1, e1, same) = empty K r b b.commands refl in
      let (t', cs, h, ids, outcome) = turn-Goes r t t.phase live in
      let k1 : get_elem? b1.lifetimes i ≡ some t = rw same k in
      let r2 : Quiet K r b (moved b1 i t' cs) =
        Quiet-trans K r r1 (turn-Quiet r b1 i t t' cs e1 k1 h) in
      elim outcome [
        | inl live' ↦
            let (c, r3, shut) =
              close r n (moved b1 i t' cs) i t'
                (omega (arith, turn-waits_left K t t.phase (answer_for r t.phase) h))
                (get_elem?-set_self b1.lifetimes i t' k1) live' in
            (c, Quiet-trans K r r2 r3, subst (λ id. IsClosed K id c) ids shut)
        | inr (_, removal) ↦
            let (c, r3, _, shut) =
              flush K r t.id (moved b1 i t' cs) (b1.commands ++ cs) refl
                (inr (rw (e1, removal) (ground (arith, K.guid_eq.beq_iff t.id t.id)))) in
            (c, Quiet-trans K r r2 r3, shut)
      ]

  find_alive :
      (id : K.ShortGuid) (ts : List (Lifetime K))
      → total (runs K id) ts ≢ 0
      → (i : ℕ) × (t : Lifetime K) × (get_elem? ts i ≡ some t) × (t.id ≡ id) × (alive t.phase ≡ 1)
  find_alive id [] h = absurd (h refl)
  find_alive id (t ∷ ts) h = elim (Bool-cases (K.guid_eq.beq id t.id)) [
    | inr differ ↦
        let (i, u, k, e, live) = find_alive id ts (ground arith) in (suc i, u, k, e, live)
    | inl same ↦ elim (alive_cases t.phase) [
      | inr live ↦ (0, t, refl, sym ((K.guid_eq.beq_iff id t.id).0 same), live)
      | inl dead ↦
          let (i, u, k, e, live) = find_alive id ts (ground arith) in (suc i, u, k, e, live)
    ]
  ]

  -- From every reachable state, for every id and whatever result the writes end with, handlers and
  -- command loop alone can run on to a state in which the id is not open.
  pub Reach-closes :
      {listens : Bool} {b : Backbone K}
      → Reach K (new K listens) b
      → (r : Result (Unit {0}) WriteResult) (id : K.ShortGuid)
      → (c : Backbone K) × Quiet K r b c × IsClosed K id c
  Reach-closes {b} reach r id = elim (Option-cases (lookup K.guid_eq id b.open_files)) [
    | inl shut ↦ (b, stay, shut)
    | inr (x, open_now) ↦ elim (Bool-cases (total (runs K id) b.lifetimes == 0)) [
      | inr runs_on ↦
          let (i, t, k, e, live) = find_alive id b.lifetimes (ground arith) in
          let (c, steps, shut) = close r (waits_left t.phase) b i t (omega arith) k live in
          (c, steps, subst (λ id. IsClosed K id c) e shut)
      | inl none_runs ↦
          let (c, steps, _, shut) =
            flush K r id b b.commands refl (inr (ground (arith, Reach-duties K id reach))) in
          (c, steps, shut)
    ]
  ]
