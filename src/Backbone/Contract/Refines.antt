-- ===== src/Backbone/Contract/Refines.antt =====
-- Every step of the backbone is a change that the contract allows.
use mathlib.Core.Path.{subst}
use yeet_yoink.Common.{
  ℕ, ◌≡◌, ◌⊎◌, refl, ap, sym, ◌∙◌, inl, inr, Bool, Bool-cases, List, ◌∷◌, some, arith, get_elem?,
  Option-cases,
}
use yeet_yoink.Common.Dict.{lookup, lookup-erase}
use yeet_yoink.Crates.{Crates}
use yeet_yoink.Distribution.{WriteSummary}
use yeet_yoink.Backbone.Record.{
  Lifetime, Inner, Phase, finished, BackboneCommand, remove_writer, ready_for_distribution,
}
use yeet_yoink.Backbone.Table.{Backbone, new, handle_command}
use yeet_yoink.Backbone.System.{
  new_file-cases, run_handler-eq_some, Step, client_step, handler_step, loop_step, Reach,
}
use yeet_yoink.Backbone.System.Duties.{alive, duties, entries, Reach-duties}
use yeet_yoink.Backbone.System.Each.{Fits, Reach-Fits, handle_command-lifetimes}
use yeet_yoink.Backbone.System.Links.{no_removal_while_alive}
use yeet_yoink.Backbone.System.Entries.{Linked, Reach-Linked}
use yeet_yoink.Backbone.Contract.{
  Status, Moves, stored, stays, expires, forgets, inner_status, status,
}
use yeet_yoink.Backbone.Contract.Changes.{
  status-none, status-some, between, unmoved, registered-Moves, run_handler-Moves,
}

module _ (K : Crates) where
  -- A file whose handler has finished goes away.
  ended-Moves :
      (inner : Inner K) → Fits K finished inner → Moves K (inner_status K inner) Status.absent
  ended-Moves inner (inl (e, f)) = between K {p' = Status.failed} (ground arith) refl forgets
  ended-Moves inner (inr (file, s, e, f)) =
      between K {p' = stored file s} (ground arith) refl expires

  not_alive : (p : Phase) → (alive p ≡ 1) ⊎ (p ≡ finished)
  not_alive finished = inr refl
  not_alive _ = inl refl

  removed-Moves :
      (b : Backbone K) (rest : List (BackboneCommand K)) (j id : K.ShortGuid)
      → Linked K b
      → ((i : ℕ) (t : Lifetime K) → get_elem? b.lifetimes i ≡ some t → Fits K t.phase t.inner)
      → duties K id b ≡ entries K id b
      → b.commands ≡ remove_writer j ∷ rest
      → Moves K
          (status K b id)
          (status K (handle_command K (record b { commands = rest }) (remove_writer j)) id)
  unfolding handle_command
  removed-Moves b rest j id links fits balance e =
      let c : Backbone K = handle_command K (record b { commands = rest }) (remove_writer j) in
      let looked = lookup-erase K.guid_eq id j b.open_files in
      elim (Bool-cases (K.guid_eq.beq id j)) [
        | inr differ ↦ unmoved K b c id links (ground (arith, looked, differ)) (λ r t x at. at)
        | inl same ↦
            let gone : status K c id ≡ Status.absent =
              status-none K c id (ground (arith, looked, same)) in
            elim (Option-cases (lookup K.guid_eq id b.open_files)) [
              | inl x ↦ between K (status-none K b id x) gone stays
              | inr (r, x) ↦
                  let (t, at, t_id, _) = links id r x in
                  elim (not_alive t.phase) [
                    | inl live ↦ absurd (
                        ground (
                          arith,
                          no_removal_while_alive K b r.inner t rest (rw t_id balance) at live j e,
                          same,
                          t_id,
                        ))
                    | inr ended ↦ between K (status-some K b id r t x at) gone (
                        ended-Moves t.inner
                          (subst (λ p. Fits K p t.inner) ended (fits r.inner t at)))
                  ]
            ]
      ]

  announced-Moves :
      (b : Backbone K) (rest : List (BackboneCommand K)) (j id : K.ShortGuid) (s : WriteSummary)
      → Linked K b
      → Moves K (status K b id) (
          status K
            (handle_command K (record b { commands = rest }) (ready_for_distribution j s))
            id)
  unfolding handle_command
  announced-Moves b rest j id s links =
      let b' : Backbone K = record b { commands = rest } in
      let c : Backbone K = handle_command K b' (ready_for_distribution j s) in
      let same : c.open_files ≡ b.open_files = ground arith in
      unmoved K b c id links (ap (lookup K.guid_eq id) same) (λ r t x at.
        ap (λ l. get_elem? l r.inner) (handle_command-lifetimes K b' (ready_for_distribution j s))
        ∙ at)

  -- Every step from a reachable state moves each id as the contract allows, or leaves it: it opens for
  -- an upload, the upload is stored with a summary or fails, and only a stored or a failed file goes
  -- away. The file of an id stays the same from its opening to its end.
  pub Step-Moves :
      {listens : Bool} {b c : Backbone K}
      → Reach K (new K listens) b
      → Step K b c
      → (id : K.ShortGuid) → Moves K (status K b id) (status K c id)
  Step-Moves {b = b} {c = c} reach (client_step disk f tx now e) id =
      elim (new_file-cases K b disk f tx now) [
        | inl same ↦ subst (λ x. Moves K (status K b id) (status K x id)) (sym (e ∙ same)) stays
        | inr (file, vacant, added) ↦
            subst (λ x. Moves K (status K b id) (status K x id)) (sym (e ∙ added))
              (registered-Moves K b f file now id (Reach-Linked K reach) vacant)
      ]
  Step-Moves {b = b} reach (handler_step j a p e) id =
      let (t0, t1, cs, f, g, m) = run_handler-eq_some K b j a e in
      subst (λ x. Moves K (status K b id) (status K x id)) (sym m)
        (run_handler-Moves K b j t0 t1 a cs id (Reach-Linked K reach) (Reach-Fits K reach j t0 f) f
          g)
  Step-Moves {b = b} reach (loop_step (remove_writer j) rest e f) id =
      subst (λ x. Moves K (status K b id) (status K x id)) (sym f)
        (removed-Moves b rest j id (Reach-Linked K reach) (Reach-Fits K reach)
          (Reach-duties K id reach) e)
  Step-Moves {b = b} reach (loop_step (ready_for_distribution j s) rest e f) id =
      subst (λ x. Moves K (status K b id) (status K x id)) (sym f)
        (announced-Moves b rest j id s (Reach-Linked K reach))
