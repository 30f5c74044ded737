-- ===== src/Backbone/System/Duties.antt =====
-- The bookkeeping of the backbone: each open file has one handler, or one removal on its way.
use yeet_yoink.Common.{
  ℕ, ◌+◌, ◌≡◌, refl, ap, sym, ◌∙◌, Bool, inl, inr, List, [], ◌∷◌, Option, none, some, arith, length,
  total, total-append, total-set, if◌then◌else◌,
}
use yeet_yoink.Common.Dict.{lookup, lookup-insert, lookup-erase}
use yeet_yoink.Crates.{Crates}
use yeet_yoink.Backbone.Record.{
  Lifetime, Phase, awaiting_result, finished, Answer, lifetime_handler, turn, BackboneCommand,
  remove_writer, ready_for_distribution, new_record,
}
use yeet_yoink.Backbone.Table.{Backbone, NewFile, new, temporal_lease, handle_command}
use yeet_yoink.Backbone.System.{
  IsAccepted, registered, new_file-cases, run_handler, run_handler-eq_some, Permits,
  Permits-IsAccepted, Step, client_step, handler_step, loop_step, Reach, here, next,
}

abbrev pub alive : Phase → ℕ
alive finished = 0
alive _ = 1

module _ (K : Crates) (id : K.ShortGuid) where
  -- The handlers of `id` that still run, and the removals of `id` in the channel.
  abbrev pub runs : Lifetime K → ℕ
  runs t = if K.guid_eq.beq id t.id then alive t.phase else 0

  abbrev pub removes : BackboneCommand K → ℕ
  removes (remove_writer j) = if K.guid_eq.beq id j then 1 else 0
  removes (ready_for_distribution j s) = 0

  abbrev pub duties : Backbone K → ℕ
  duties b = total runs b.lifetimes + total removes b.commands

  abbrev one_if {ℓ} : {A : Type ℓ} → Option A → ℕ
  one_if none = 0
  one_if (some a) = 1

  -- One if `id` is open, zero if not.
  abbrev pub entries : Backbone K → ℕ
  entries b = one_if (lookup K.guid_eq id b.open_files)

  turn-duties :
      (t : Lifetime K) (p : Phase) (a : Answer) {t' : Lifetime K} {cs : List (BackboneCommand K)}
      → t.phase ≡ p
      → IsAccepted a
      → turn K t p a ≡ some (t', cs)
      → (t'.id ≡ t.id) × (runs t' + total removes cs ≡ runs t)
  unfolding turn
  turn-duties t awaiting_result a e n h = ground arith
  turn-duties t _ a e n h = ground arith

  run_handler-duties :
      (b c : Backbone K) (i : ℕ) (a : Answer)
      → Permits K b a
      → run_handler K b i a ≡ some c
      → (duties c ≡ duties b) × (entries c ≡ entries b)
  unfolding lifetime_handler
  run_handler-duties b c i a p h =
      let (t, t', cs, e, f, g) = run_handler-eq_some K b i a h in
      let (_, balance) = turn-duties t t.phase a refl (Permits-IsAccepted K b a p) f in
      rw g (
        omega
            (arith, balance, total-set runs b.lifetimes i t' e, total-append removes b.commands cs),
        refl,
      )

  handle_command-duties :
      (b : Backbone K) (command : BackboneCommand K) (rest : List (BackboneCommand K))
      → b.commands ≡ command ∷ rest
      → duties b ≡ entries b
      → let c = handle_command K (record b { commands = rest }) command in duties c ≡ entries c
  unfolding handle_command
  handle_command-duties b (remove_writer j) rest e h =
      ground (arith, lookup-erase K.guid_eq id j b.open_files, ap (total removes) e)
  handle_command-duties b (ready_for_distribution j s) rest e h =
      ground (arith, ap (total removes) e)

  registered-duties :
      (b : Backbone K) (f : NewFile K) (file : K.TempFile) (now : ℕ)
      → lookup K.guid_eq f.id b.open_files ≡ none
      → duties b ≡ entries b
      → let c = registered K b f file now in duties c ≡ entries c
  registered-duties b f file now vacant h =
      let (r, t) = new_record K (length b.lifetimes) f.id file temporal_lease f.content_type now in
      ground (
        arith,
        total-append runs b.lifetimes (t ∷ []),
        lookup-insert K.guid_eq id f.id r b.open_files,
        K.guid_eq.beq_iff id f.id,
      )

  Step-duties : {b c : Backbone K} → Step K b c → duties b ≡ entries b → duties c ≡ entries c
  Step-duties {b} (client_step disk f tx now e) h = elim (new_file-cases K b disk f tx now) [
    | inl same ↦ rw (e, same) h
    | inr (file, vacant, added) ↦ rw (e, added) (registered-duties b f file now vacant h)
  ]
  Step-duties {b} {c} (handler_step i a p e) h =
      let (same, keeps) = run_handler-duties b c i a p e in same ∙ h ∙ sym keeps
  Step-duties {b} (loop_step command rest e f) h = rw f (handle_command-duties b command rest e h)

  -- In every reachable state an id has exactly one duty if it is open and none if it is not: a
  -- lifetime handler that still runs, or a `RemoveWriter` in the channel.
  pub Reach-duties :
      {listens : Bool} {b : Backbone K} → Reach K (new K listens) b → duties b ≡ entries b
  unfolding lookup
  Reach-duties here = refl
  Reach-duties (next r st) = Step-duties st (Reach-duties r)
