-- ===== src/Backbone/System/Each.antt =====
-- What holds of each lifetime by itself: it starts out awaiting a result, and its handler moves it.
use yeet_yoink.Common.{
  ℕ, ◌≡◌, refl, ap, sym, ◌∙◌, ◌⊎◌, inl, inr, List, Bool, Bool-cases, leb, true, false, ok, err,
  none, some, arith, get_elem?, get_elem?-set, get_elem?-snoc,
}
use yeet_yoink.Crates.{Crates}
use mathlib.Core.Path.{subst}
use yeet_yoink.Distribution.{WriteSummary}
use yeet_yoink.Backbone.Guard.{success, failed}
use yeet_yoink.Backbone.Record.{
  Lifetime, Inner, Phase, awaiting_result, closing, persisting, announcing, leasing, removing,
  finished, Answer, received, locked, sent, slept, lifetime_handler, turn, Turn, BackboneCommand,
  remove_writer, ready_for_distribution,
}
use yeet_yoink.Backbone.Table.{Backbone, new, temporal_lease, handle_command}
use yeet_yoink.Backbone.System.{
  IsAccepted, new_file-cases, run_handler-eq_some, Permits-IsAccepted, Step, client_step,
  handler_step, loop_step, Reach, here, next,
}

module _ (K : Crates) where
  abbrev pub started : K.ShortGuid → K.TempFile → Lifetime K
  started id file = record {
    id = id;
    inner = record { file = some file; summary = none };
    duration = temporal_lease;
    phase = awaiting_result;
  }

  -- The command loop leaves the lifetimes alone.
  pub handle_command-lifetimes :
      (b : Backbone K) (command : BackboneCommand K)
      → (handle_command K b command).lifetimes ≡ b.lifetimes
  unfolding handle_command
  handle_command-lifetimes b (remove_writer j) = refl
  handle_command-lifetimes b (ready_for_distribution j s) = ground arith

  module _ {ℓ} (P : Lifetime K → Type ℓ)
      (at_start : (id : K.ShortGuid) (file : K.TempFile) → P (started id file))
      (on_turn : (t t' : Lifetime K) (a : Answer) (cs : List (BackboneCommand K))
        → IsAccepted a
        → lifetime_handler K t a ≡ some (t', cs)
        → P t
        → P t') where
    abbrev Each : Backbone K → Type ℓ
    Each b = (i : ℕ) (t : Lifetime K) → get_elem? b.lifetimes i ≡ some t → P t

    at :
        {c d : Backbone K} (i : ℕ) {t : Lifetime K}
        → c ≡ d
        → get_elem? c.lifetimes i ≡ some t
        → get_elem? d.lifetimes i ≡ some t
    at i e k = ap (λ (b : Backbone K). get_elem? b.lifetimes i) (sym e) ∙ k

    Step-Each : {b c : Backbone K} → Step K b c → Each b → Each c
    Step-Each {b} (client_step disk f tx now e) h i t k = elim (new_file-cases K b disk f tx now) [
      | inl same ↦ h i t (at i (e ∙ same) k)
      | inr (file, vacant, added) ↦
          elim (get_elem?-snoc b.lifetimes i (started f.id file) (at i (e ∙ added) k)) [
            | inl (_, new_one) ↦ rw new_one (at_start f.id file)
            | inr old ↦ h i t old
          ]
    ]
    Step-Each {b} {c} (handler_step j a p e) h i t k =
        let (t0, t1, cs, f, g, m) = run_handler-eq_some K b j a e in
        elim (get_elem?-set b.lifetimes j i t1 (at i m k)) [
          | inl (_, moved) ↦ rw moved (on_turn t0 t1 a cs (Permits-IsAccepted K b a p) g (h j t0 f))
          | inr (_, old) ↦ h i t old
        ]
    Step-Each {b} (loop_step command rest e f) h i t k =
        h i t (ap (λ l. get_elem? l i) (sym (handle_command-lifetimes _ command)) ∙ at i f k)

    pub Reach-Each : {listens : Bool} {b : Backbone K} → Reach K (new K listens) b → Each b
    Reach-Each here i t k = cc
    Reach-Each (next r st) i t k = Step-Each st (Reach-Each r) i t k

  -- Which parts of the shared state stand behind each wait of the handler.
  abbrev pub Fits : Phase → Inner K → Type 0
  Fits (announcing s) inner =
      (file : K.TempFile) × (inner.file ≡ some file) × (inner.summary ≡ some s)
  Fits (leasing deadline) inner =
      (file : K.TempFile) × (s : WriteSummary) × (inner.file ≡ some file) × (inner.summary ≡ some s)
  Fits removing inner =
      ((inner.file ≡ none) × (inner.summary ≡ none))
      ⊎ ((file : K.TempFile) × (s : WriteSummary) × (inner.file ≡ some file)
          × (inner.summary ≡ some s))
  Fits finished inner =
      ((inner.file ≡ none) × (inner.summary ≡ none))
      ⊎ ((file : K.TempFile) × (s : WriteSummary) × (inner.file ≡ some file)
          × (inner.summary ≡ some s))
  Fits _ inner = (file : K.TempFile) × (inner.file ≡ some file) × (inner.summary ≡ none)

  abbrev TurnFits : Turn K → Type 0
  TurnFits none = Unit
  TurnFits (some (t, cs)) = Fits t.phase t.inner

  turn-TurnFits :
      (t : Lifetime K) (p : Phase) (a : Answer)
      → IsAccepted a
      → Fits p t.inner
      → TurnFits (turn K t p a)
  unfolding turn
  turn-TurnFits t awaiting_result (received (ok (success s))) x f = f
  turn-TurnFits t awaiting_result (received (ok failed)) x f = f
  turn-TurnFits t awaiting_result (received (err e)) x f = f
  turn-TurnFits t awaiting_result _ x f = tt
  turn-TurnFits t closing locked x f = inl (refl, f.2)
  turn-TurnFits t closing _ x f = tt
  turn-TurnFits t (persisting s) locked x f = (f.0, f.1, refl)
  turn-TurnFits t (persisting s) _ x f = tt
  turn-TurnFits t (announcing s) (sent true now) x f = (f.0, s, f.1, f.2)
  turn-TurnFits t (announcing s) (sent false now) x f = cc
  turn-TurnFits t (announcing s) _ x f = tt
  turn-TurnFits t (leasing deadline) (slept now) x f = elim (Bool-cases (leb deadline now)) [
    | inl e ↦ rw e (inr f)
    | inr e ↦ rw e tt
  ]
  turn-TurnFits t (leasing deadline) _ x f = tt
  turn-TurnFits t removing (sent true now) x f = f
  turn-TurnFits t removing (sent false now) x f = f
  turn-TurnFits t removing _ x f = tt
  turn-TurnFits t finished _ x f = tt

  pub Reach-Fits :
      {listens : Bool} {b : Backbone K}
      → Reach K (new K listens) b
      → (i : ℕ) (t : Lifetime K) → get_elem? b.lifetimes i ≡ some t
      → Fits t.phase t.inner
  unfolding lifetime_handler
  Reach-Fits r i t k =
      Reach-Each (λ t. Fits t.phase t.inner) (λ id file. (file, refl, refl))
        (λ t t' a cs x h f. subst TurnFits h (turn-TurnFits t t.phase a x f)) r i t k
