-- ===== src/Backbone/System/Entries.antt =====
-- The entries of the table and the lifetimes that they name.
use mathlib.Core.Path.{subst}
use yeet_yoink.Common.{
  ℕ, ◌≡◌, refl, ap, sym, ◌∙◌, inl, inr, Bool, Bool-cases, List, [], ◌∷◌, ◌++◌, some, arith, length,
  set, get_elem?, get_elem?-set_self, get_elem?-set_ne, get_elem?-append, get_elem?-last, ◌==◌,
  ==_iff,
}
use yeet_yoink.Common.Dict.{lookup, lookup-insert, lookup-erase}
use yeet_yoink.Crates.{Crates}
use yeet_yoink.Backbone.Record.{
  Lifetime, FileRecord, Answer, lifetime_handler, BackboneCommand, remove_writer,
  ready_for_distribution, new_record,
}
use yeet_yoink.Backbone.Table.{Backbone, NewFile, new, temporal_lease, handle_command}
use yeet_yoink.Backbone.System.{
  registered, new_file-cases, run_handler-eq_some, Step, client_step, handler_step, loop_step,
  Reach, here, next,
}
use yeet_yoink.Backbone.System.Links.{turn-alive}

module _ (K : Crates) where
  -- The lifetime that an entry names is there, and both carry the id of the entry.
  abbrev pub Names : Backbone K → K.ShortGuid → FileRecord K → Type 0
  Names b id r =
      (t : Lifetime K) × (get_elem? b.lifetimes r.inner ≡ some t) × (t.id ≡ id) × (r.id ≡ id)

  abbrev pub Linked : Backbone K → Type 0
  Linked b =
      (id : K.ShortGuid) (r : FileRecord K)
      → lookup K.guid_eq id b.open_files ≡ some r
      → Names b id r

  registered-Linked :
      (b : Backbone K) (f : NewFile K) (file : K.TempFile) (now : ℕ)
      → Linked b
      → Linked (registered K b f file now)
  registered-Linked b f file now h id r found =
      let (r0, t0) =
        new_record K (length b.lifetimes) f.id file temporal_lease f.content_type now in
      let looked = lookup-insert K.guid_eq id f.id r0 b.open_files in
      elim (Bool-cases (K.guid_eq.beq id f.id)) [
        | inl same ↦
            let is_new : r ≡ r0 = ground (arith, found, looked, same) in
            let eq : id ≡ f.id = (K.guid_eq.beq_iff id f.id).0 same in
            rw (is_new, eq) (t0, get_elem?-last b.lifetimes t0, refl, refl)
        | inr differ ↦
            let (t, at, x, y) = h id r (ground (arith, found, looked, differ)) in
            (t, get_elem?-append b.lifetimes (t0 ∷ []) r.inner at, x, y)
      ]

  handle_command-Linked :
      (b : Backbone K) (command : BackboneCommand K) (rest : List (BackboneCommand K))
      → Linked b
      → Linked (handle_command K (record b { commands = rest }) command)
  unfolding handle_command
  handle_command-Linked b (remove_writer j) rest h id r found =
      h id r (ground (arith, found, lookup-erase K.guid_eq id j b.open_files))
  handle_command-Linked b (ready_for_distribution j s) rest h id r found = h id r found

  run_handler-Linked :
      (b : Backbone K) (j : ℕ) (t0 t1 : Lifetime K) (a : Answer) (cs : List (BackboneCommand K))
      → get_elem? b.lifetimes j ≡ some t0
      → lifetime_handler K t0 a ≡ some (t1, cs)
      → Linked b
      → Linked (record b { lifetimes = set b.lifetimes j t1; commands = b.commands ++ cs })
  unfolding lifetime_handler
  run_handler-Linked b j t0 t1 a cs f g h id r found =
      let (t, at, x, y) = h id r found in
      elim (Bool-cases (j == r.inner)) [
        | inl same ↦
            let here : j ≡ r.inner = (==_iff j r.inner).0 same in
            let (keeps, _) = turn-alive K t0 t1 t0.phase a cs g in
            let was : t0 ≡ t = ground (arith, f, at, here) in
            (
              t1,
              rw (← here) (get_elem?-set_self b.lifetimes j t1 f),
              keeps ∙ ap (λ (l : Lifetime K). l.id) was ∙ x,
              y,
            )
        | inr differ ↦ (
          t,
          get_elem?-set_ne b.lifetimes j r.inner t1 (λ e. ground (arith, e, differ)) ∙ at,
          x,
          y,
        )
      ]

  Step-Linked : {b c : Backbone K} → Step K b c → Linked b → Linked c
  Step-Linked {b} (client_step disk f tx now e) h = elim (new_file-cases K b disk f tx now) [
    | inl same ↦ subst Linked (sym (e ∙ same)) h
    | inr (file, vacant, added) ↦ subst Linked (sym (e ∙ added)) (registered-Linked b f file now h)
  ]
  Step-Linked {b} (handler_step j a p e) h =
      let (t0, t1, cs, f, g, m) = run_handler-eq_some K b j a e in
      subst Linked (sym m) (run_handler-Linked b j t0 t1 a cs f g h)
  Step-Linked {b} (loop_step command rest e f) h =
      subst Linked (sym f) (handle_command-Linked b command rest h)

  pub Reach-Linked : {listens : Bool} {b : Backbone K} → Reach K (new K listens) b → Linked b
  unfolding lookup
  Reach-Linked here id r found = cc
  Reach-Linked (next s st) id r found = Step-Linked st (Reach-Linked s) id r found
