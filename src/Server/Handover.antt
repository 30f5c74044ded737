-- ===== src/Server/Handover.antt =====
-- The backbone with its clients, and the event loop of bins/server/src/backend_registry.rs with one
-- Memcached: the loop takes the commands in the order in which the backbone has passed them on.
pub mod Sources
pub mod Channels
use yeet_yoink.Common.{
  ℕ, suc, ◌+◌, ◌<◌, ◌≡◌, ◌⊎◌, Bool, String, List, none, some, ok, length, get_elem?,
}
use yeet_yoink.Crates.{Crates}
use yeet_yoink.Distribution.{WriteSummary}
use yeet_yoink.Backend.{Backend, BackendCommand, FileProvider}
use yeet_yoink.Backend.Memcache.{Memcached, MemcacheBackend, as_backend, data_key, meta_key}
use yeet_yoink.Backend.Memcache.Copies.{IsStore}
use yeet_yoink.Backbone.Accessor.{FileAccessorBridge, Living, set_backbone}
use yeet_yoink.Backbone.Accessor
use yeet_yoink.Backbone.Reader.{FileReader}
use yeet_yoink.Backbone.Table.{get_file}
use yeet_yoink.Backbone.World.{World, Happens, Evolves, new_world}
use yeet_yoink.Backbone.World.Vouches.{Vouches}
use yeet_yoink.Server.Registry.{distribute_one, event_buffer_size}

module _ (K : Crates) (M : Memcached K) (S : IsStore M) where
  -- `handled` counts the commands that the event loop has received.
  pub record Handover : Type 0 where
    pub world : World K
    pub backend : MemcacheBackend K M
    pub handled : ℕ

  -- The provider asks the backbone through the bridge, which was set to it.
  pub record Provides (provider : FileProvider K) (w : World K) (disk : K.Disk) : Type 0 where
    pub bridge : FileAccessorBridge K
    pub bridge' : FileAccessorBridge K
    pub place : ℕ
    pub living : Living K
    pub is_set : set_backbone K bridge place ≡ some bridge'
    pub lives : living place ≡ some w.backbone
    pub asks : (id : K.ShortGuid) → some (provider id) ≡ Accessor.get_file K bridge' living disk id

  -- A step that passes a command on has waited for room in the event channel.
  abbrev pub HasRoom : Handover → World K → Type 0
  HasRoom p w =
      length p.world.backbone.backend_sender.passed < length w.backbone.backend_sender.passed
      → length p.world.backbone.backend_sender.passed
        < p.handled + event_buffer_size K (MemcacheBackend K M)

  -- A step of the world; a round of the event loop; or Memcached loses entries, as they expire.
  pub data Advances (p q : Handover) : Type 0 where
    world_moved :
        (w : World K)
        → Happens K p.world w
        → HasRoom p w
        → q ≡ record p { world = w }
        → Advances p q
    command_taken :
        (command : BackendCommand K) (provider : FileProvider K) (disk : K.Disk)
        (b : Backend K (MemcacheBackend K M))
        → get_elem? p.world.backbone.backend_sender.passed p.handled ≡ some command
        → Provides provider p.world disk
        → distribute_one K
            (MemcacheBackend K M)
            (record { command = command; provider = provider })
            (as_backend K M p.backend)
          ≡ some b
        → q ≡ record p { backend = b.state; handled = suc p.handled }
        → Advances p q
    entries_lost :
        (pool : M.Pool)
        → ((key : String)
            → (S.stored pool key ≡ S.stored p.backend.pool key) ⊎ (S.stored pool key ≡ none))
        → q ≡ record p { backend = record p.backend { pool = pool } }
        → Advances p q

  abbrev pub handover_start : Bool → MemcacheBackend K M → Handover
  handover_start listens b = record { world = new_world K listens; backend = b; handled = 0 }

  pub data Progresses (start : Handover) : Handover → Type 0 where
    outset : Progresses start start
    further : {p q : Handover} → Progresses start p → Advances p q → Progresses start q

  -- Where an entry of Memcached comes from: it was there at the start; or it is the metadata of a
  -- summary, or the content of a file, for an id whose upload stands behind the summary that the
  -- backend was told.
  pub data Stems (first : M.Pool) (start w : World K) (key : String) (bytes : List ℕ) : Type 0 where
    was_there : S.stored first key ≡ some bytes → Stems first start w key bytes
    is_metadata :
        (id : K.ShortGuid) (s : WriteSummary)
        → Vouches K w.uploads id s
        → key ≡ meta_key K M id
        → M.prost.decode bytes
          ≡ some (record {
            id = M.prost.as_bytes id;
            file_name = s.file_name;
            hashes = some (record { md5 = s.hashes.md5; sha256 = s.hashes.sha256 });
          })
        → Stems first start w key bytes
    is_content :
        (id : K.ShortGuid) (s : WriteSummary)
        → Vouches K w.uploads id s
        → key ≡ data_key K M id
        → (v : World K) (disk : K.Disk) (file : FileReader K) → Evolves K start v
        → get_file K v.backbone disk id ≡ some (ok file)
        → M.read_all file.inner ≡ ok bytes
        → Stems first start w key bytes
