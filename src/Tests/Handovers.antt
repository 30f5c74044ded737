-- ===== src/Tests/Handovers.antt =====
-- The upload of Tests.Worlds on its way to the Memcached of Tests.Backends.
use yeet_yoink.Common.{
  ℕ, ◌≡◌, refl, List, [], ◌∷◌, some, ok, err, true, arith, ◌==◌, if◌then◌else◌, false,
}
use yeet_yoink.Common.Dict.{lookup, insert}
use yeet_yoink.Distribution.{unknown_file, get_reader_error}
use yeet_yoink.Distribution.Metadata
use yeet_yoink.Backbone.Accessor.{set_backbone, get_backbone}
use yeet_yoink.Backbone.Accessor
use yeet_yoink.Backbone.Record.{lifetime_handler, get_reader}
use yeet_yoink.Backbone.System.{run_handler}
use yeet_yoink.Backbone.Table.{new_file, open_entry, handle_command}
use yeet_yoink.Backbone.Table
use yeet_yoink.Backbone.World.{new_world}
use yeet_yoink.Backend.{FileProvider, distribute_file, send}
use yeet_yoink.Backend.Memcache.{
  MemcacheBackend, distribute_to_memcache, write_to, as_backend, meta_key, data_key,
}
use yeet_yoink.Server.Registry.{distribute_one}
use yeet_yoink.Server.Handover.{
  Handover, Provides, command_taken, handover_start, Progresses, further, Stems,
}
use yeet_yoink.Server.Handover.Sources.{Progresses-Stems}
use yeet_yoink.Server.Handover.Channels.{Evolves-Progresses}
use yeet_yoink.Tests.Toy.{toy, toy-IsStreaming}
use yeet_yoink.Tests.Backends.{
  memcached, memcached-IsStore, memcached-IsAtomic, stored-first, backend,
}
use yeet_yoink.Tests.Worlds.{summary, all_done, reader, announced-Evolves}

abbrev provider : FileProvider toy
provider id = if id == 42 then ok reader else err (get_reader_error (unknown_file id))

provided : Provides toy memcached memcached-IsStore provider all_done 0
unfolding new_file run_handler lifetime_handler lookup insert handle_command send set_backbone
    get_backbone Accessor.get_file Table.get_file open_entry get_reader
provided = record {
  bridge = Accessor.new toy;
  bridge' = record { backbone = some 0; is_poisoned = false };
  place = 0;
  living = λ place. some all_done.backbone;
  is_set = refl;
  lives = refl;
  asks = λ id. ground arith;
}

-- The metadata of the upload as bytes.
abbrev printed : List ℕ
printed = 1 ∷ 42 ∷ 3 ∷ 1 ∷ 2 ∷ 3 ∷ 1 ∷ 2 ∷ 3 ∷ []

abbrev copied : MemcacheBackend toy memcached
copied = record backend {
  pool = (meta_key toy memcached 42, printed) ∷ (data_key toy memcached 42, 10 ∷ []) ∷ [];
}

abbrev delivered : Handover toy memcached memcached-IsStore
delivered = record { world = all_done; backend = copied; handled = 1 }

delivered-Progresses :
    Progresses toy memcached memcached-IsStore
      (handover_start toy memcached memcached-IsStore true backend)
      delivered
unfolding new_file run_handler lifetime_handler lookup insert handle_command send distribute_one
    distribute_to_memcache write_to Metadata.new
delivered-Progresses =
    further
      (Evolves-Progresses toy memcached memcached-IsStore backend announced-Evolves (omega arith))
      (command_taken (distribute_file 42 summary) provider 0 (as_backend toy memcached copied) refl
        provided refl refl)

has_metadata :
    memcached-IsStore.stored delivered.backend.pool (meta_key toy memcached 42) ≡ some printed
has_metadata =
    stored-first (meta_key toy memcached 42) printed ((data_key toy memcached 42, 10 ∷ []) ∷ [])

Progresses-Stems_example :
    Stems toy memcached memcached-IsStore backend.pool
      (new_world toy true)
      all_done
      (meta_key toy memcached 42)
      printed
Progresses-Stems_example =
    Progresses-Stems toy memcached memcached-IsStore memcached-IsAtomic toy-IsStreaming
      delivered-Progresses (meta_key toy memcached 42) printed has_metadata
