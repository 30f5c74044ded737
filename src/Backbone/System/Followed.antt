-- ===== src/Backbone/System/Followed.antt =====
-- One upload, followed through the steps of the backbone.
use mathlib.Core.Path.{subst}
use yeet_yoink.Common.{
  ℕ, ◌≡◌, ◌≢◌, refl, ap, sym, ◌∙◌, inl, inr, Bool-cases, true, false, List, some, none, ok, arith,
  leb, get_elem?, get_elem?-set_self, get_elem?-set_ne, get_elem?-append, set, ◌==◌, ==_iff,
}
use yeet_yoink.Crates.{Crates}
use yeet_yoink.Distribution.{WriteSummary}
use yeet_yoink.Backbone.Guard.{success}
use yeet_yoink.Backbone.Record.{
  Lifetime, Inner, Phase, awaiting_result, closing, persisting, announcing, leasing, removing,
  finished, Answer, received, locked, sent, slept, lifetime_handler, turn, Turn, BackboneCommand,
}
use yeet_yoink.Backbone.Table.{Backbone}
use yeet_yoink.Backbone.System.{
  new_file-cases, run_handler, run_handler-eq_some, Step, client_step, handler_step, loop_step,
  Reach, here, next,
}
use yeet_yoink.Backbone.System.Links.{turn-alive}
use yeet_yoink.Backbone.System.Each.{handle_command-lifetimes}

module _ (K : Crates) where
  -- What every turn of a handler keeps.
  abbrev pub IsKept : (Lifetime K → Type 0) → Type 0
  IsKept P =
      (t t' : Lifetime K) (p : Phase) (a : Answer) (cs : List (BackboneCommand K))
      → t.phase ≡ p
      → turn K t p a ≡ some (t', cs)
      → P t
      → P t'

  -- Lifetime `i` has `P`.
  abbrev pub Followed : (Lifetime K → Type 0) → ℕ → Backbone K → Type 0
  Followed P i b = (t : Lifetime K) × (get_elem? b.lifetimes i ≡ some t) × P t

  Step-Followed :
      (P : Lifetime K → Type 0) (i : ℕ) {b c : Backbone K}
      → IsKept P
      → Step K b c
      → Followed P i b
      → Followed P i c
  unfolding lifetime_handler
  Step-Followed P i {b} keeps (client_step disk f tx now e) (t, k, h) =
      elim (new_file-cases K b disk f tx now) [
        | inl same ↦ subst (Followed P i) (sym (e ∙ same)) (t, k, h)
        | inr (file, _, added) ↦
            subst (Followed P i) (sym (e ∙ added)) (t, get_elem?-append b.lifetimes _ i k, h)
      ]
  Step-Followed P i {b} keeps (handler_step j a p e) (t, k, h) =
      let (t0, t1, cs, f, g, m) = run_handler-eq_some K b j a e in
      subst (Followed P i) (sym m) (elim (Bool-cases (j == i)) [
        | inl same ↦
            let here : j ≡ i = (==_iff j i).0 same in
            let is_old : t ≡ t0 = ground (arith, k, f, here) in
            (
              t1,
              ap (λ n. get_elem? (set b.lifetimes j t1) n) (sym here)
                  ∙ get_elem?-set_self b.lifetimes j t1 f,
              keeps t0 t1 t0.phase a cs refl g (subst P is_old h),
            )
        | inr differ ↦
            (t, get_elem?-set_ne b.lifetimes j i t1 (λ x. ground (arith, x, differ)) ∙ k, h)
      ])
  Step-Followed P i {b} keeps (loop_step command rest e f) (t, k, h) =
      subst (Followed P i) (sym f)
        (t, ap (λ l. get_elem? l i) (handle_command-lifetimes K _ command) ∙ k, h)

  pub Reach-Followed :
      (P : Lifetime K → Type 0) (i : ℕ) {b c : Backbone K}
      → IsKept P
      → Reach K b c
      → Followed P i b
      → Followed P i c
  Reach-Followed P i keeps here h = h
  Reach-Followed P i keeps (next reach step) h =
      Step-Followed P i keeps step (Reach-Followed P i keeps reach h)

  module _ (id : K.ShortGuid) (file : K.TempFile) where
    -- The lifetime of the upload: as long as it waits for the result, it has its file.
    abbrev pub IsOfUpload : Lifetime K → Type 0
    IsOfUpload t = (t.id ≡ id) × (t.phase ≡ awaiting_result → t.inner.file ≡ some file)

    no_way_back :
        (t t' : Lifetime K) (p : Phase) (a : Answer) (cs : List (BackboneCommand K))
        → turn K t p a ≡ some (t', cs)
        → t'.phase ≢ awaiting_result
    unfolding turn
    no_way_back t t' awaiting_result a cs h w = ground arith
    no_way_back t t' _ a cs h w = ground arith

    pub turn-IsOfUpload : IsKept IsOfUpload
    unfolding turn
    turn-IsOfUpload t t' p a cs e h (same, holds) =
        ((turn-alive K t t' p a cs h).0 ∙ same, λ waits. absurd (no_way_back t t' p a cs h waits))

    module _ (s : WriteSummary) where
      -- The lifetime of an upload that was told of the summary `s`.
      abbrev pub Keeps : Inner K → Phase → Type 0
      Keeps inner awaiting_result = ⊥
      Keeps inner closing = ⊥
      Keeps inner (persisting s') = (s' ≡ s) × (inner.file ≡ some file)
      Keeps inner _ = (inner.file ≡ some file) × (inner.summary ≡ some s)

      abbrev pub IsTold : Lifetime K → Type 0
      IsTold t = (t.id ≡ id) × Keeps t.inner t.phase

      abbrev TurnKeeps : Turn K → Type 0
      TurnKeeps none = Unit
      TurnKeeps (some (t, cs)) = Keeps t.inner t.phase

      turn-TurnKeeps :
          (t : Lifetime K) (p : Phase) (a : Answer) → Keeps t.inner p → TurnKeeps (turn K t p a)
      unfolding turn
      turn-TurnKeeps t awaiting_result a k = absurd k
      turn-TurnKeeps t closing a k = absurd k
      turn-TurnKeeps t (persisting s') locked (e, f) = (f, ap some e)
      turn-TurnKeeps t (persisting s') _ k = tt
      turn-TurnKeeps t (announcing s') (sent true now) k = k
      turn-TurnKeeps t (announcing s') (sent false now) k = k
      turn-TurnKeeps t (announcing s') _ k = tt
      turn-TurnKeeps t (leasing deadline) (slept now) k = elim (Bool-cases (leb deadline now)) [
        | inl e ↦ rw e k
        | inr e ↦ rw e tt
      ]
      turn-TurnKeeps t (leasing deadline) _ k = tt
      turn-TurnKeeps t removing (sent true now) k = k
      turn-TurnKeeps t removing (sent false now) k = k
      turn-TurnKeeps t removing _ k = tt
      turn-TurnKeeps t finished _ k = tt

      pub turn-IsTold : IsKept IsTold
      turn-IsTold t t' p a cs e h (same, k) = (
        (turn-alive K t t' p a cs h).0 ∙ same,
        subst TurnKeeps h (turn-TurnKeeps t p a (subst (Keeps t.inner) e k)),
      )

      abbrev TurnTold : Turn K → Type 0
      TurnTold none = Unit
      TurnTold (some (t, cs)) = IsTold t

      turn-TurnTold :
          (t : Lifetime K) (p : Phase)
          → t.id ≡ id
          → (p ≡ awaiting_result → t.inner.file ≡ some file)
          → TurnTold (turn K t p (received (ok (success s))))
      unfolding turn
      turn-TurnTold t awaiting_result same holds = (same, (refl, holds refl))
      turn-TurnTold t _ same holds = tt

      -- The handler takes the message.
      pub run_handler-IsTold :
          (i : ℕ) (b c : Backbone K)
          → run_handler K b i (received (ok (success s))) ≡ some c
          → Followed IsOfUpload i b
          → Followed IsTold i c
      unfolding lifetime_handler
      run_handler-IsTold i b c h (t, k, (same, holds)) =
          let (t0, t1, cs, f, g, m) = run_handler-eq_some K b i (received (ok (success s))) h in
          let is_old : t ≡ t0 = ground (arith, k, f) in
          let told : TurnTold (turn K t0 t0.phase (received (ok (success s)))) =
            subst (λ u. TurnTold (turn K u u.phase (received (ok (success s))))) is_old
              (turn-TurnTold t t.phase same holds) in
          subst (Followed IsTold i) (sym m)
            (t1, get_elem?-set_self b.lifetimes i t1 f, subst TurnTold g told)
