-- ===== src/Backbone/Contract/Changes.antt =====
-- What a new file and a turn of a lifetime handler, of crates/backbone/src, do to the status of an id.
use mathlib.Core.Path.{subst}
use yeet_yoink.Common.{
  ℕ, ◌≡◌, refl, sym, ◌∙◌, inl, inr, Bool-cases, true, false, List, [], ◌∷◌, ◌++◌, none, some, arith,
  length, set, get_elem?, get_elem?-set_self, get_elem?-set_ne, get_elem?-append, get_elem?-last,
  ◌==◌, ==_iff, Option-cases, ok, err, leb,
}
use yeet_yoink.Common.Dict.{lookup, lookup-insert}
use yeet_yoink.Crates.{Crates}
use yeet_yoink.Backbone.Guard.{success, failed}
use yeet_yoink.Backbone.Record.{
  Lifetime, FileRecord, Inner, Phase, awaiting_result, closing, persisting, announcing, leasing,
  removing, finished, Answer, received, locked, sent, slept, lifetime_handler, turn, Turn,
  BackboneCommand, new_record,
}
use yeet_yoink.Backbone.Table.{Backbone, NewFile, temporal_lease}
use yeet_yoink.Backbone.System.{registered}
use yeet_yoink.Backbone.System.Each.{Fits}
use yeet_yoink.Backbone.System.Entries.{Linked}
use yeet_yoink.Backbone.Contract.{Status, Moves, stays, opens, stores, fails, inner_status, status}

module _ (K : Crates) where
  pub status-none :
      (b : Backbone K) (id : K.ShortGuid)
      → lookup K.guid_eq id b.open_files ≡ none
      → status K b id ≡ Status.absent
  unfolding status
  status-none b id e = ground arith

  pub status-some :
      (b : Backbone K) (id : K.ShortGuid) (r : FileRecord K) (t : Lifetime K)
      → lookup K.guid_eq id b.open_files ≡ some r
      → get_elem? b.lifetimes r.inner ≡ some t
      → status K b id ≡ inner_status K t.inner
  unfolding status
  status-some b id r t e f = ground arith

  -- Moves between statuses that are known by equations.
  pub between : {p q p' q' : Status K} → p ≡ p' → q ≡ q' → Moves K p' q' → Moves K p q
  between {p} {q} {p'} {q'} e f m =
      subst (λ x. Moves K x q) (sym e) (subst (λ x. Moves K p' x) (sym f) m)

  -- An id whose entry and whose lifetime's state are as they were stays.
  pub unmoved :
      (b c : Backbone K) (id : K.ShortGuid)
      → Linked K b
      → lookup K.guid_eq id c.open_files ≡ lookup K.guid_eq id b.open_files
      → ((r : FileRecord K) (t : Lifetime K)
          → lookup K.guid_eq id b.open_files ≡ some r
          → get_elem? b.lifetimes r.inner ≡ some t
          → get_elem? c.lifetimes r.inner ≡ some t)
      → Moves K (status K b id) (status K c id)
  unmoved b c id links same keeps = elim (Option-cases (lookup K.guid_eq id b.open_files)) [
    | inl e ↦ between (status-none b id e) (status-none c id (same ∙ e)) stays
    | inr (r, e) ↦
        let (t, at, _, _) = links id r e in
        between (status-some b id r t e at) (status-some c id r t (same ∙ e) (keeps r t e at)) stays
  ]

  pub registered-Moves :
      (b : Backbone K) (f : NewFile K) (file : K.TempFile) (now : ℕ) (id : K.ShortGuid)
      → Linked K b
      → lookup K.guid_eq f.id b.open_files ≡ none
      → Moves K (status K b id) (status K (registered K b f file now) id)
  registered-Moves b f file now id links vacant =
      let c : Backbone K = registered K b f file now in
      let (r0, t0) =
        new_record K (length b.lifetimes) f.id file temporal_lease f.content_type now in
      let looked = lookup-insert K.guid_eq id f.id r0 b.open_files in
      elim (Bool-cases (K.guid_eq.beq id f.id)) [
        | inl same ↦
            let eq : id ≡ f.id = (K.guid_eq.beq_iff id f.id).0 same in
            between (status-none b id (rw eq vacant))
              (status-some c id r0 t0 (ground (arith, looked, same))
                (get_elem?-last b.lifetimes t0))
              (opens {file = file})
        | inr differ ↦
            unmoved b c id links (ground (arith, looked, differ))
              (λ r t e at. get_elem?-append b.lifetimes (t0 ∷ []) r.inner at)
      ]

  abbrev TurnMoves : Inner K → Turn K → Type 0
  TurnMoves inner none = Unit
  TurnMoves inner (some (t, cs)) = Moves K (inner_status K inner) (inner_status K t.inner)

  turn-TurnMoves :
      (t : Lifetime K) (p : Phase) (a : Answer)
      → Fits K p t.inner
      → TurnMoves t.inner (turn K t p a)
  unfolding turn
  turn-TurnMoves t awaiting_result (received (ok (success s))) f = stays
  turn-TurnMoves t awaiting_result (received (ok failed)) f = stays
  turn-TurnMoves t awaiting_result (received (err e)) f = stays
  turn-TurnMoves t awaiting_result _ f = tt
  turn-TurnMoves t closing locked (file, e, g) =
      between {q = Status.failed} (ground arith) refl (fails {file = file})
  turn-TurnMoves t closing _ f = tt
  turn-TurnMoves t (persisting s) locked (file, e, g) =
      between (ground arith) (ground arith) (stores {file = file} {s = s})
  turn-TurnMoves t (persisting s) _ f = tt
  turn-TurnMoves t (announcing s) (sent true now) f = stays
  turn-TurnMoves t (announcing s) (sent false now) f = stays
  turn-TurnMoves t (announcing s) _ f = tt
  turn-TurnMoves t (leasing deadline) (slept now) f = elim (Bool-cases (leb deadline now)) [
    | inl e ↦ rw e stays
    | inr e ↦ rw e tt
  ]
  turn-TurnMoves t (leasing deadline) _ f = tt
  turn-TurnMoves t removing (sent true now) f = stays
  turn-TurnMoves t removing (sent false now) f = stays
  turn-TurnMoves t removing _ f = tt
  turn-TurnMoves t finished _ f = tt

  pub run_handler-Moves :
      (b : Backbone K) (j : ℕ) (t0 t1 : Lifetime K) (a : Answer) (cs : List (BackboneCommand K))
      (id : K.ShortGuid)
      → Linked K b
      → Fits K t0.phase t0.inner
      → get_elem? b.lifetimes j ≡ some t0
      → lifetime_handler K t0 a ≡ some (t1, cs)
      → Moves K
          (status K b id)
          (status K (record b { lifetimes = set b.lifetimes j t1; commands = b.commands ++ cs }) id)
  unfolding lifetime_handler
  run_handler-Moves b j t0 t1 a cs id links fits f g =
      let c : Backbone K = record b {
        lifetimes = set b.lifetimes j t1;
        commands = b.commands ++ cs;
      } in
      elim (Option-cases (lookup K.guid_eq id b.open_files)) [
        | inl e ↦ between (status-none b id e) (status-none c id e) stays
        | inr (r, e) ↦
            let (t, at, _, _) = links id r e in
            elim (Bool-cases (j == r.inner)) [
              | inl same ↦
                  let here : j ≡ r.inner = (==_iff j r.inner).0 same in
                  let at0 : get_elem? b.lifetimes r.inner ≡ some t0 = rw (← here) f in
                  let at1 : get_elem? c.lifetimes r.inner ≡ some t1 =
                    rw (← here) (get_elem?-set_self b.lifetimes j t1 f) in
                  between (status-some b id r t0 e at0) (status-some c id r t1 e at1)
                    (subst (TurnMoves t0.inner) g (turn-TurnMoves t0 t0.phase a fits))
              | inr differ ↦
                  let at1 : get_elem? c.lifetimes r.inner ≡ some t =
                    get_elem?-set_ne b.lifetimes j r.inner t1 (λ x. ground (arith, x, differ))
                    ∙ at in
                  between (status-some b id r t e at) (status-some c id r t e at1) stays
            ]
      ]
