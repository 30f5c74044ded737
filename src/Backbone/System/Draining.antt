-- ===== src/Backbone/System/Draining.antt =====
-- The backbone can come to rest: every handler finished, the channel empty, no file open. Then the
-- command loop, whose channel has lost its last sender, ends.
use yeet_yoink.Common.{
  ℕ, zero, suc, ◌≤◌, ◌≡◌, refl, ◌≢◌, inl, inr, Bool, Bool-cases, Option-cases, List, [], ◌∷◌, ap,
  some, arith, total, total-set, total-ge_elem, get_elem?, ◌==◌, Result,
}
use yeet_yoink.Common.Dict.{lookup}
use yeet_yoink.Crates.{Crates}
use yeet_yoink.Backbone.Guard.{WriteResult}
use yeet_yoink.Backbone.Record.{Lifetime, Phase, awaiting_result, finished}
use yeet_yoink.Backbone.Table.{Backbone, new}
use yeet_yoink.Backbone.System.{Reach, next, handler_step, loop_step}
use yeet_yoink.Backbone.System.Duties.{alive, runs, removes, duties, entries, Reach-duties}
use yeet_yoink.Backbone.System.Progress.{waits_left, turn-waits_left}
use yeet_yoink.Backbone.System.Quiet.{
  Quiet, stay, then_handler, then_loop, Quiet-trans, IsClosed, empty,
}
use yeet_yoink.Backbone.System.Closing.{answer_for, turn-Goes, turn-Quiet, moved}

module _ (K : Crates) where
  abbrev pending : Lifetime K → ℕ
  pending t = waits_left t.phase

  pub record IsAtRest (b : Backbone K) : Type 0 where
    pub all_finished :
        (i : ℕ) (t : Lifetime K) → get_elem? b.lifetimes i ≡ some t → t.phase ≡ finished
    pub no_commands : b.commands ≡ []
    pub all_closed : (id : K.ShortGuid) → IsClosed K id b

  Quiet-Reach :
      {listens : Bool} {r : Result (Unit {0}) WriteResult} {b c : Backbone K}
      → Reach K (new K listens) b
      → Quiet K r b c
      → Reach K (new K listens) c
  Quiet-Reach reach stay = reach
  Quiet-Reach reach (then_handler q i a g p e) = next (Quiet-Reach reach q) (handler_step i a p e)
  Quiet-Reach reach (then_loop q command rest e) =
      next (Quiet-Reach reach q) (loop_step command rest e refl)

  no_waits : (p : Phase) → waits_left p ≡ 0 → p ≡ finished
  unfolding waits_left
  no_waits finished e = refl
  no_waits awaiting_result e = absurd (omega arith)
  no_waits _ e = ground arith

  some_waits : (p : Phase) → waits_left p ≢ 0 → alive p ≡ 1
  unfolding waits_left
  some_waits finished n = absurd (n refl)
  some_waits _ n = refl

  find_waiting :
      (ts : List (Lifetime K))
      → total pending ts ≢ 0
      → (i : ℕ) × (t : Lifetime K) × (get_elem? ts i ≡ some t) × (waits_left t.phase ≢ 0)
  find_waiting [] n = absurd (n refl)
  find_waiting (t ∷ ts) n = elim (Bool-cases (waits_left t.phase == 0)) [
    | inr waits ↦ (0, t, refl, ground arith)
    | inl done ↦ let (i, u, k, m) = find_waiting ts (ground arith) in (suc i, u, k, m)
  ]

  drain :
      (r : Result (Unit {0}) WriteResult) (n : ℕ) (b : Backbone K)
      → total pending b.lifetimes ≤ n
      → (c : Backbone K) × Quiet K r b c × (c.commands ≡ []) × (total pending c.lifetimes ≡ 0)
  drain r zero b bound =
      let (b1, q, e, same) = empty K r b b.commands refl in (b1, q, e, rw same (omega arith))
  drain r (suc n) b bound =
      let (b1, q, e, same) = empty K r b b.commands refl in
      elim (Bool-cases (total pending b1.lifetimes == 0)) [
        | inl done ↦ (b1, q, e, ground arith)
        | inr more ↦
            let (i, t, k, waits) = find_waiting b1.lifetimes (ground arith) in
            let (t', cs, h, _, _) = turn-Goes K r t t.phase (some_waits t.phase waits) in
            let fewer = turn-waits_left K t t.phase (answer_for K r t.phase) h in
            let (c, q', e', rest) = drain r n (moved K b1 i t' cs) (
              omega (
                arith,
                bound,
                ap (total pending) same,
                fewer,
                total-set pending b1.lifetimes i t' k,
              )) in
            (
              c,
              Quiet-trans K r q (Quiet-trans K r (turn-Quiet K r b1 i t t' cs e k h) q'),
              e',
              rest,
            )
      ]

  runs-zero :
      (id : K.ShortGuid) (ts : List (Lifetime K)) → total pending ts ≡ 0 → total (runs K id) ts ≡ 0
  runs-zero id [] e = refl
  runs-zero id (t ∷ ts) e =
      let over : alive t.phase ≡ 0 = ap alive (no_waits t.phase (omega (arith, e))) in
      let rest : total (runs K id) ts ≡ 0 = runs-zero id ts (omega (arith, e)) in
      ground (arith, over, rest)

  rest-IsClosed :
      (c : Backbone K) (id : K.ShortGuid)
      → duties K id c ≡ entries K id c
      → c.commands ≡ []
      → total pending c.lifetimes ≡ 0
      → IsClosed K id c
  rest-IsClosed c id balance e rest = elim (Option-cases (lookup K.guid_eq id c.open_files)) [
    | inl shut ↦ shut
    | inr (x, open_now) ↦ absurd (
        ground
          (arith, balance, open_now, runs-zero id c.lifetimes rest, ap (total (removes K id)) e))
  ]

  -- From every reachable state, whatever result the writes end with, the handlers and the command
  -- loop alone can run on to a state at rest: every handler has finished, no command is left in the
  -- channel, and no file is open.
  pub Reach-IsAtRest :
      {listens : Bool} {b : Backbone K}
      → Reach K (new K listens) b
      → (r : Result (Unit {0}) WriteResult) → (c : Backbone K) × Quiet K r b c × IsAtRest c
  Reach-IsAtRest {b = b} reach r =
      let (c, q, e, rest) = drain r (total pending b.lifetimes) b (omega arith) in
      (
        c,
        q,
        record {
          all_finished = λ i t k.
              no_waits t.phase (omega (arith, rest, total-ge_elem pending c.lifetimes i k));
          no_commands = e;
          all_closed = λ id. rest-IsClosed c id (Reach-duties K id (Quiet-Reach reach q)) e rest;
        },
      )
