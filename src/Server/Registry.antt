-- ===== src/Server/Registry.antt =====
-- bins/server/src/backend_registry.rs: the backends, and the loop that hands them the commands.
pub mod Alone
use yeet_yoink.Common.{
  ℕ, String, List, [], ◌∷◌, ◌++◌, Option, none, some, Result, ok, err, traverse, and_then,
}
use yeet_yoink.Crates.{Crates}
use yeet_yoink.Backend.{
  Backend, BackendCommand, distribute_file, FileProvider, RegisterBackendError,
  try_create_from_config,
}

module _ (K : Crates) (S : Type 0) where
  -- A command, and how the file provider answers while it is handled.
  pub record Event : Type 0 where
    pub command : BackendCommand K
    pub provider : FileProvider K

  -- One backend handles one command. An error is only logged; `none` is a panic.
  unfoldable pub distribute_one : Event → Backend K S → Option (Backend K S)
  distribute_one e b = elim e.command [
    | distribute_file id summary ↦ elim (b.distribute b.state id summary e.provider) [
      | none ↦ none
      | some (_, state) ↦ some (record b { state = state })
    ]
  ]

  -- `handle_events`: for each command all backends in turn. A panic of one ends the task.
  unfoldable pub handle_events : List (Backend K S) → List Event → Option (List (Backend K S))
  handle_events backends [] = some backends
  handle_events backends (e ∷ events) =
      and_then (traverse (distribute_one e) backends) (λ backends'. handle_events backends' events)

  -- `EVENT_BUFFER_SIZE`
  abbrev pub event_buffer_size : ℕ
  event_buffer_size = 64

  -- The sending half of the event channel, of which the model keeps the capacity.
  pub record EventSender : Type 0 where
    pub capacity : ℕ

  -- `BackendRegistry`; the backends are those of the spawned event loop.
  pub record BackendRegistry : Type 0 where
    pub backends : List (Backend K S)
    pub sender : Option EventSender

  -- `BackendRegistry::new`
  abbrev pub new_registry : List (Backend K S) → BackendRegistry
  new_registry backends = record {
    backends = backends;
    sender = some (record { capacity = event_buffer_size });
  }

  -- The first call takes the sender out.
  unfoldable pub get_sender : BackendRegistry → Option EventSender × BackendRegistry
  get_sender r = (r.sender, record r { sender = none })

  -- `BackendRegistryBuilder`, the part that changes.
  pub record BackendRegistryBuilder : Type 0 where
    pub backends : List (Backend K S)

  -- `BackendRegistryBuilder::new`
  abbrev pub new_builder : BackendRegistryBuilder
  new_builder = record { backends = [] }

  abbrev pub build : BackendRegistryBuilder → BackendRegistry
  build r = new_registry r.backends

  abbrev add_backends_from_iter :
      BackendRegistryBuilder → List (Backend K S) → BackendRegistryBuilder
  add_backends_from_iter r backends = record r { backends = r.backends ++ backends }

  -- `add_backends`, given what `try_from_config` returned.
  unfoldable pub add_backends :
      {E : Type 0}
      → (E → String)
      → BackendRegistryBuilder
      → Result E (List (Backend K S))
      → Result RegisterBackendError BackendRegistryBuilder
  add_backends text r (err e) = err (try_create_from_config (text e))
  add_backends text r (ok []) = ok r
  add_backends text r (ok (b ∷ backends)) = ok (add_backends_from_iter r (b ∷ backends))

  -- `add_backends` of the trait `BackendRegistration`: the builder that it makes is dropped.
  unfoldable pub register_backends :
      {E : Type 0}
      → (E → String)
      → BackendRegistryBuilder
      → Result E (List (Backend K S))
      → Result RegisterBackendError (Unit {0})
  unfolding add_backends
  register_backends text r created = elim (add_backends text r created) [
    | err e ↦ err e
    | ok _ ↦ ok tt
  ]

  -- `TryCreateFromConfig::register`
  abbrev pub register_from_config :
      {E : Type 0}
      → (E → String)
      → BackendRegistryBuilder
      → Result E (List (Backend K S))
      → Result RegisterBackendError (Unit {0})
  register_from_config text registry created = register_backends text registry created
