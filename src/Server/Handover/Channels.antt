-- ===== src/Server/Handover/Channels.antt =====
-- Runs of the backbone while the event loop of the registry waits, with room in its channel.
use yeet_yoink.Common.{
  ℕ, suc, ◌≤◌, refl, ap, ◌∙◌, Bool, List, [], ◌∷◌, arith, length, length-append,
}
use yeet_yoink.Crates.{Crates}
use yeet_yoink.Backend.{send, distribute_file}
use yeet_yoink.Backend.Memcache.{Memcached, MemcacheBackend}
use yeet_yoink.Backend.Memcache.Copies.{IsStore}
use yeet_yoink.Backbone.Record.{BackboneCommand, remove_writer, ready_for_distribution}
use yeet_yoink.Backbone.Table.{Backbone, handle_command}
use yeet_yoink.Backbone.Table.Opens.{new_file-registered, new_file-refused}
use yeet_yoink.Backbone.System.{run_handler-eq_some}
use yeet_yoink.Backbone.World.{
  World, Happens, file_opened, file_refused, guard_called, guard_ended, handler_ran,
  command_handled, Evolves, begun, after, new_world,
}
use yeet_yoink.Server.Registry.{event_buffer_size}
use yeet_yoink.Server.Handover.{world_moved, handover_start, Progresses, outset, further}

module _ (K : Crates) where
  -- The commands that were passed on to the backends.
  abbrev passed : World K → ℕ
  passed w = length w.backbone.backend_sender.passed

  handle_command-passed :
      (b : Backbone K) (command : BackboneCommand K) (rest : List (BackboneCommand K))
      → let c = handle_command K (record b { commands = rest }) command in
        (length b.backend_sender.passed ≤ length c.backend_sender.passed)
        × (length c.backend_sender.passed ≤ suc (length b.backend_sender.passed))
  unfolding handle_command send
  handle_command-passed b (remove_writer id) rest = (omega arith, omega arith)
  handle_command-passed b (ready_for_distribution id s) rest =
      let more = length-append b.backend_sender.passed (distribute_file id s ∷ []) in
      (ground (arith, more), ground (arith, more))

  -- A step passes on one command at most, and takes none back.
  Happens-passed :
      {w v : World K} → Happens K w v → (passed w ≤ passed v) × (passed v ≤ suc (passed w))
  Happens-passed {w} (file_opened disk f tx now g h e) =
      let (file, _, added) = new_file-registered K w.backbone disk f tx now g h in
      let same = ap passed e ∙ ap (λ b. length b.backend_sender.passed) added in
      (omega (arith, same), omega (arith, same))
  Happens-passed {w} (file_refused disk f tx now x h e) =
      let same =
        ap passed e
        ∙ ap (λ b. length b.backend_sender.passed)
            (new_file-refused K w.backbone disk f tx now x h) in
      (omega (arith, same), omega (arith, same))
  Happens-passed (guard_called i u c at is_open e) =
      (omega (arith, ap passed e), omega (arith, ap passed e))
  Happens-passed (guard_ended i u x at is_open e) =
      (omega (arith, ap passed e), omega (arith, ap passed e))
  Happens-passed {w} (handler_ran i u a b at hears p h e) =
      let (t, t', cs, _, _, m) = run_handler-eq_some K w.backbone i a h in
      let same = ap passed e ∙ ap (λ c. length c.backend_sender.passed) m in
      (omega (arith, same), omega (arith, same))
  Happens-passed {w} (command_handled command rest c e) =
      let (low, high) = handle_command-passed w.backbone command rest in
      (omega (arith, ap passed e, low), omega (arith, ap passed e, high))

  module _ (M : Memcached K) (S : IsStore M) where
    -- With room for all that was passed on, the event loop can wait.
    pub Evolves-Progresses :
        {listens : Bool} (b : MemcacheBackend K M) {w : World K}
        → Evolves K (new_world K listens) w
        → passed w ≤ event_buffer_size K (MemcacheBackend K M)
        → Progresses K M S
            (handover_start K M S listens b)
            (record { world = w; backend = b; handled = 0 })
    Evolves-Progresses b begun fits = outset
    Evolves-Progresses b {w} (after {w = v} r h) fits =
        let (low, _) = Happens-passed h in
        further (Evolves-Progresses b r (omega (arith, fits, low)))
          (world_moved w h (λ grows. omega (arith, grows, fits)) refl)
