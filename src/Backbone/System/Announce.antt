-- ===== src/Backbone/System/Announce.antt =====
-- Which files the backends hear of.
use mathlib.Core.Path.{subst}
use yeet_yoink.Common.{
  ℕ, ◌+◌, ◌≡◌, refl, ap, sym, ◌∙◌, inl, inr, true, List, [], ◌∷◌, Option, none, some, arith, total,
  total-append, total-set, get_elem?,
}
use yeet_yoink.Crates.{Crates}
use yeet_yoink.Distribution.{WriteSummary}
use yeet_yoink.Backend.{BackendCommand, distribute_file}
use yeet_yoink.Backbone.Record.{
  Lifetime, Phase, awaiting_result, leasing, removing, finished, Answer, lifetime_handler, turn,
  BackboneCommand, remove_writer, ready_for_distribution,
}
use yeet_yoink.Backbone.Table.{Backbone, NewFile, new, handle_command}
use yeet_yoink.Backbone.System.{
  IsAccepted, registered, new_file-cases, run_handler-eq_some, Permits-IsAccepted, Step,
  client_step, handler_step, loop_step, Reach, here, next,
}
use yeet_yoink.Backbone.System.Each.{Fits, Reach-Fits, started}

module _ (K : Crates) (w : K.ShortGuid → WriteSummary → ℕ) where
  -- The weight of the announcements in the channel, at the backends, and that the handlers made.
  abbrev pub in_channel : BackboneCommand K → ℕ
  in_channel (remove_writer id) = 0
  in_channel (ready_for_distribution id s) = w id s

  abbrev pub at_backend : BackendCommand K → ℕ
  at_backend (distribute_file id s) = w id s

  abbrev pub of_summary : K.ShortGuid → Option WriteSummary → ℕ
  of_summary id none = 0
  of_summary id (some s) = w id s

  abbrev pub of_phase : K.ShortGuid → Option WriteSummary → Phase → ℕ
  of_phase id o (leasing deadline) = of_summary id o
  of_phase id o removing = of_summary id o
  of_phase id o finished = of_summary id o
  of_phase id o _ = 0

  abbrev pub announced : Lifetime K → ℕ
  announced t = of_phase t.id t.inner.summary t.phase

  turn-announced :
      (t : Lifetime K) (p : Phase) (a : Answer) {t' : Lifetime K} {cs : List (BackboneCommand K)}
      → IsAccepted a
      → Fits K p t.inner
      → turn K t p a ≡ some (t', cs)
      → announced t' ≡ of_phase t.id t.inner.summary p + total in_channel cs
  unfolding turn
  turn-announced t awaiting_result a x f h = ground arith
  turn-announced t _ a x f h = ground arith

  abbrev Balanced : Backbone K → Type 0
  Balanced b =
      (b.backend_sender.listens ≡ true)
      × (total in_channel b.commands + total at_backend b.backend_sender.passed
          ≡ total announced b.lifetimes)

  registered-Balanced :
      (b : Backbone K) (f : NewFile K) (file : K.TempFile) (now : ℕ)
      → Balanced b
      → Balanced (registered K b f file now)
  registered-Balanced b f file now h =
      (h.0, omega (arith, h.1, total-append announced b.lifetimes (started K f.id file ∷ [])))

  handle_command-Balanced :
      (b : Backbone K) (command : BackboneCommand K) (rest : List (BackboneCommand K))
      → b.commands ≡ command ∷ rest
      → Balanced b
      → Balanced (handle_command K (record b { commands = rest }) command)
  unfolding handle_command
  handle_command-Balanced b (remove_writer j) rest e h = ground (arith, ap (total in_channel) e)
  handle_command-Balanced b (ready_for_distribution j s) rest e h = rw h.0 (
    refl,
    omega (
      arith,
      ap (total in_channel) e,
      h.1,
      total-append at_backend b.backend_sender.passed (distribute_file j s ∷ []),
    ),
  )

  Step-Balanced :
      {b c : Backbone K}
      → Step K b c
      → ((i : ℕ) (t : Lifetime K) → get_elem? b.lifetimes i ≡ some t → Fits K t.phase t.inner)
      → Balanced b
      → Balanced c
  unfolding lifetime_handler
  Step-Balanced {b} (client_step disk f tx now e) fits h = elim (new_file-cases K b disk f tx now) [
    | inl same ↦ subst Balanced (sym (e ∙ same)) h
    | inr (file, _, added) ↦ subst Balanced (sym (e ∙ added)) (registered-Balanced b f file now h)
  ]
  Step-Balanced {b} (handler_step j a p e) fits h =
      let (t0, t1, cs, f, g, m) = run_handler-eq_some K b j a e in
      let grows = turn-announced t0 t0.phase a (Permits-IsAccepted K b a p) (fits j t0 f) g in
      subst Balanced (sym m) (
        h.0,
        omega (
          arith,
          h.1,
          grows,
          total-set announced b.lifetimes j t1 f,
          total-append in_channel b.commands cs,
        ),
      )
  Step-Balanced {b} (loop_step command rest e f) fits h =
      subst Balanced (sym f) (handle_command-Balanced b command rest e h)

  Reach-Balanced : {b : Backbone K} → Reach K (new K true) b → Balanced b
  Reach-Balanced here = (refl, refl)
  Reach-Balanced (next r st) = Step-Balanced st (Reach-Fits K r) (Reach-Balanced r)

  -- While the backends listen, the files announced to them or in the channel are, for every weight
  -- of an id and a summary and so one by one, those whose summary is persisted and whose handler has
  -- gone past the announcement: each is announced once, with that summary, and no failed write is.
  pub Reach-announced :
      {b : Backbone K}
      → Reach K (new K true) b
      → total in_channel b.commands + total at_backend b.backend_sender.passed
        ≡ total announced b.lifetimes
  Reach-announced r = (Reach-Balanced r).1
