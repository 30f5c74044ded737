-- ===== src/Backbone/System/Links.antt =====
-- Which lifetime an open entry belongs to, and that no entry is removed under a running handler.
use mathlib.Core.Path.{subst}
use yeet_yoink.Common.{
  ℕ, ◌≡◌, ap, sym, ◌∙◌, inl, inr, Bool, Bool-cases, false, List, ◌∷◌, ◌++◌, none, some, arith,
  length, set, total, total-ge_elem, get_elem?, get_elem?-set, get_elem?-snoc,
}
use yeet_yoink.Common.Dict.{lookup, lookup-insert, lookup-erase}
use yeet_yoink.Crates.{Crates}
use yeet_yoink.Backbone.Record.{
  Lifetime, FileRecord, Phase, awaiting_result, Answer, lifetime_handler, turn, BackboneCommand,
  remove_writer, ready_for_distribution, new_record,
}
use yeet_yoink.Backbone.Table.{Backbone, NewFile, new, temporal_lease, handle_command}
use yeet_yoink.Backbone.System.{
  registered, new_file-cases, run_handler-eq_some, Step, client_step, handler_step, loop_step,
  Reach, here, next,
}
use yeet_yoink.Backbone.System.Duties.{alive, runs, removes, duties, entries, Reach-duties}
use yeet_yoink.Backbone.System.Each.{started}

module _ (K : Crates) where
  -- The entry of `id` is that of lifetime `i`.
  abbrev pub Owns : Backbone K → ℕ → K.ShortGuid → Type 0
  Owns b i id = (r : FileRecord K) × (lookup K.guid_eq id b.open_files ≡ some r) × (r.inner ≡ i)

  abbrev pub Owned : Backbone K → Type 0
  Owned b =
      (i : ℕ) (t : Lifetime K)
      → get_elem? b.lifetimes i ≡ some t
      → alive t.phase ≡ 1
      → Owns b i t.id

  pub turn-alive :
      (t t' : Lifetime K) (p : Phase) (a : Answer) (cs : List (BackboneCommand K))
      → turn K t p a ≡ some (t', cs)
      → (t'.id ≡ t.id) × (alive p ≡ 1)
  unfolding turn
  turn-alive t t' awaiting_result a cs h = ground arith
  turn-alive t t' _ a cs h = ground arith

  registered-Owned :
      (b : Backbone K) (f : NewFile K) (file : K.TempFile) (now : ℕ)
      → lookup K.guid_eq f.id b.open_files ≡ none
      → Owned b
      → Owned (registered K b f file now)
  registered-Owned b f file now vacant h i t k live =
      let r : FileRecord K =
        (new_record K (length b.lifetimes) f.id file temporal_lease f.content_type now).0 in
      elim (get_elem?-snoc b.lifetimes i (started K f.id file) k) [
        | inl (last, new_one) ↦ (
          r,
          ground (
            arith,
            lookup-insert K.guid_eq t.id f.id r b.open_files,
            K.guid_eq.beq_iff t.id f.id,
          ),
          sym last,
        )
        | inr old ↦
            let (r', found, at) = h i t old live in
            (
              r',
              ground (
                arith,
                found,
                lookup-insert K.guid_eq t.id f.id r b.open_files,
                K.guid_eq.beq_iff t.id f.id,
              ),
              at,
            )
      ]

  -- A removal at the head of the channel, and a running handler of the same id, are two duties.
  pub no_removal_while_alive :
      (b : Backbone K) (i : ℕ) (t : Lifetime K) (rest : List (BackboneCommand K))
      → duties K t.id b ≡ entries K t.id b
      → get_elem? b.lifetimes i ≡ some t
      → alive t.phase ≡ 1
      → (id : K.ShortGuid) → b.commands ≡ remove_writer id ∷ rest
      → K.guid_eq.beq t.id id ≡ false
  no_removal_while_alive b i t rest balance k live id e =
      elim (Bool-cases (K.guid_eq.beq t.id id)) [
        | inr differ ↦ differ
        | inl same ↦ absurd (
            ground (
              arith,
              balance,
              live,
              same,
              total-ge_elem (runs K t.id) b.lifetimes i k,
              ap (total (removes K t.id)) e,
              K.guid_eq.beq_iff t.id t.id,
            ))
      ]

  handle_command-Owned :
      (b : Backbone K) (command : BackboneCommand K) (rest : List (BackboneCommand K))
      → ((id : K.ShortGuid) → duties K id b ≡ entries K id b)
      → b.commands ≡ command ∷ rest
      → Owned b
      → Owned (handle_command K (record b { commands = rest }) command)
  unfolding handle_command
  handle_command-Owned b (remove_writer j) rest balance e h i t k live =
      let (r, found, at) = h i t k live in
      let differ = no_removal_while_alive b i t rest (balance t.id) k live j e in
      (r, lookup-erase K.guid_eq t.id j b.open_files ∙ rw differ found, at)
  handle_command-Owned b (ready_for_distribution j s) rest balance e h i t k live = h i t k live

  run_handler-Owned :
      (b : Backbone K) (j : ℕ) (t0 t1 : Lifetime K) (a : Answer) (cs : List (BackboneCommand K))
      → get_elem? b.lifetimes j ≡ some t0
      → lifetime_handler K t0 a ≡ some (t1, cs)
      → Owned b
      → Owned (record b { lifetimes = set b.lifetimes j t1; commands = b.commands ++ cs })
  unfolding lifetime_handler
  run_handler-Owned b j t0 t1 a cs f g h i t k live = elim (get_elem?-set b.lifetimes j i t1 k) [
    | inr (_, old) ↦ h i t old live
    | inl (at, moved) ↦
        let (same, was_alive) = turn-alive t0 t1 t0.phase a cs g in
        rw (moved, same, ← at) (h j t0 f was_alive)
  ]

  Step-Owned :
      {b c : Backbone K}
      → Step K b c
      → ((id : K.ShortGuid) → duties K id b ≡ entries K id b)
      → Owned b
      → Owned c
  Step-Owned {b} (client_step disk f tx now e) balance h = elim (new_file-cases K b disk f tx now) [
    | inl same ↦ subst Owned (sym (e ∙ same)) h
    | inr (file, vacant, added) ↦
        subst Owned (sym (e ∙ added)) (registered-Owned b f file now vacant h)
  ]
  Step-Owned {b} {c} (handler_step j a p e) balance h =
      let (t0, t1, cs, f, g, m) = run_handler-eq_some K b j a e in
      subst Owned (sym m) (run_handler-Owned b j t0 t1 a cs f g h)
  Step-Owned {b} (loop_step command rest e f) balance h =
      subst Owned (sym f) (handle_command-Owned b command rest balance e h)

  -- As long as the lifetime handler of a file runs, the table has an entry for its id, and that
  -- entry is this very upload's: no command of an earlier upload under the same id removes it.
  pub Reach-Owned :
      {listens : Bool} {b : Backbone K}
      → Reach K (new K listens) b
      → (i : ℕ) (t : Lifetime K) → get_elem? b.lifetimes i ≡ some t
      → alive t.phase ≡ 1
      → Owns b i t.id
  Reach-Owned here i t k live = cc
  Reach-Owned (next r st) i t k live =
      Step-Owned st (λ id. Reach-duties K id r) (Reach-Owned r) i t k live
