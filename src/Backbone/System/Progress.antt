-- ===== src/Backbone/System/Progress.antt =====
-- The handlers come to an end, the channel stays within its capacity, and nothing waits for ever.
use yeet_yoink.Common.{
  ℕ, ◌+◌, ◌≤◌, ◌<◌, ◌≡◌, ap, inl, inr, Bool, List, some, arith, length, length-append,
}
use yeet_yoink.Crates.{Crates}
use yeet_yoink.Backbone.Record.{
  Lifetime, Phase, awaiting_result, closing, persisting, announcing, leasing, removing, finished,
  Answer, lifetime_handler, turn, BackboneCommand, remove_writer, ready_for_distribution,
}
use yeet_yoink.Backbone.Table.{Backbone, new, handle_command}
use yeet_yoink.Backbone.System.{
  capacity, new_file-cases, run_handler-eq_some, Permits, Step, client_step, handler_step,
  loop_step, Reach, here, next,
}

-- An upper bound of the waits that a handler has ahead of it.
unfoldable pub waits_left : Phase → ℕ
waits_left awaiting_result = 5
waits_left (persisting s) = 4
waits_left (announcing s) = 3
waits_left (leasing deadline) = 2
waits_left closing = 2
waits_left removing = 1
waits_left finished = 0

module _ (K : Crates) where
  turn-length :
      (t : Lifetime K) (p : Phase) (a : Answer) {t' : Lifetime K} {cs : List (BackboneCommand K)}
      → (b : Backbone K) → Permits K b a
      → turn K t p a ≡ some (t', cs)
      → length b.commands ≤ capacity
      → length b.commands + length cs ≤ capacity
  unfolding turn
  turn-length t awaiting_result a b x h l = ground arith
  turn-length t _ a b x h l = ground arith

  Step-length :
      {b c : Backbone K} → Step K b c → length b.commands ≤ capacity → length c.commands ≤ capacity
  unfolding lifetime_handler handle_command
  Step-length {b} (client_step disk f tx now e) h = elim (new_file-cases K b disk f tx now) [
    | inl same ↦ rw (e, same) h
    | inr (file, _, added) ↦ rw (e, added) h
  ]
  Step-length {b} (handler_step j a p e) h =
      let (t0, t1, cs, f, g, m) = run_handler-eq_some K b j a e in
      rw m (omega (arith, turn-length t0 t0.phase a b p g h, length-append b.commands cs))
  Step-length {b} (loop_step (remove_writer id) rest e f) h = rw f (omega (arith, ap length e, h))
  Step-length {b} (loop_step (ready_for_distribution id s) rest e f) h = ground (arith, ap length e)

  -- The command channel never holds more than 1024 commands.
  pub Reach-length :
      {listens : Bool} {b : Backbone K} → Reach K (new K listens) b → length b.commands ≤ capacity
  Reach-length here = omega arith
  Reach-length (next r st) = Step-length st (Reach-length r)

  pub turn-waits_left :
      (t : Lifetime K) (p : Phase) (a : Answer) {t' : Lifetime K} {cs : List (BackboneCommand K)}
      → turn K t p a ≡ some (t', cs)
      → waits_left t'.phase < waits_left p
  unfolding turn waits_left
  turn-waits_left t awaiting_result a h = ground arith
  turn-waits_left t _ a h = ground arith

  -- Each run of a lifetime handler from one wait to the next leaves it fewer waits: a handler ends
  -- after five runs at most.
  lifetime_handler-waits_left :
      (t : Lifetime K) (a : Answer) {t' : Lifetime K} {cs : List (BackboneCommand K)}
      → lifetime_handler K t a ≡ some (t', cs)
      → waits_left t'.phase < waits_left t.phase
  unfolding lifetime_handler
  lifetime_handler-waits_left t a h = turn-waits_left t t.phase a h
