-- ===== src/Backend/Memcache.antt =====
-- crates/backend-memcache/src: the backend that copies files to Memcached.
pub mod Copies
pub mod Created
pub mod Entries
use yeet_yoink.Common.{
  ℕ, Bool, length, ◌<>◌, ◌^◌, ◌-◌, min, String, List, [], ◌∷◌, Option, none, some, Result, ok, err,
  if◌then◌else◌,
}
use yeet_yoink.Crates.{Crates, IoError, other}
use yeet_yoink.Distribution.{WriteSummary}
use yeet_yoink.Distribution.Metadata.{Prost, serialize_to_proto}
use yeet_yoink.Distribution.Metadata
use yeet_yoink.Backbone.Reader.{FileReader}
use yeet_yoink.Backend.{
  Backend, BackendInfo, FileProvider, DistributionError, backend_specific, file_accessor,
}
use yeet_yoink.Config.{
  MemcacheConnectionString, MemcacheBackendConfig, AppConfig, default_expiration, get_urls,
}

-- `BackendInfo` for `MemcacheBackend`, given the version of the package.
abbrev pub memcache_info : String → BackendInfo
memcache_info package_version = record {
  backend_name = "Memcached";
  backend_version = package_version;
}

-- `ToMemcacheValue`: the flags, the announced length, and the bytes that `write_to` writes.
pub record MemcacheValue : Type 0 where
  pub flags : ℕ
  pub length : ℕ
  pub bytes : Result IoError (List ℕ)

-- The crates memcache, r2d2 and prost, and `std::io::copy` out of a reader.
pub record Memcached (K : Crates) : Type 1 where
  pub Pool : Type 0
  pub PoolError : Type 0
  pub MemcacheError : Type 0
  pub memcache_error_text : MemcacheError → String
  pub build_pool : List String → Result PoolError Pool
  -- Whether `Pool::get` finds a connection.
  pub has_client : Pool → Bool
  pub set : Pool → String → MemcacheValue → ℕ → Result MemcacheError (Unit {0}) × Pool
  pub prost : Prost K
  pub read_all : K.Reader → Result IoError (List ℕ)

module _ (K : Crates) (M : Memcached K) where
  pub record MemcacheBackend : Type 0 where
    pub tag : String
    pub pool : M.Pool
    pub expiration_secs : ℕ

  -- `MemcacheBackendConstructionError`
  pub data MemcacheBackendConstructionError : Type 0 where
    failed_to_create_pool : M.PoolError → MemcacheBackendConstructionError

  -- `Display`
  abbrev pub construction_error_text : MemcacheBackendConstructionError → String
  construction_error_text (failed_to_create_pool e) = "Failed to create pool"

  abbrev or_default : Option ℕ → ℕ
  or_default none = default_expiration
  or_default (some secs) = secs

  -- What a pool connects to. `Connectable` hands the list of URLs on.
  pub record MemcacheConnectionStringWrapper : Type 0 where
    pub urls : List String

  abbrev wrap_connection_string : MemcacheConnectionString → MemcacheConnectionStringWrapper
  wrap_connection_string value = record { urls = get_urls value }

  unfoldable pub try_new :
      MemcacheBackendConfig → Result MemcacheBackendConstructionError MemcacheBackend
  try_new config = elim (M.build_pool (wrap_connection_string config.connection_string).urls) [
    | err e ↦ err (failed_to_create_pool e)
    | ok pool ↦ ok (record {
      tag = config.tag;
      pool = pool;
      expiration_secs = min (or_default config.expiration_sec) (2 ^ 32 - 1);
    })
  ]

  -- The reader is taken out by the first `write_to`.
  pub record StreamWrapper : Type 0 where
    pub summary : WriteSummary
    pub bridge : Option (FileReader K)

  unfoldable pub write_to : StreamWrapper → Result IoError (List ℕ) × StreamWrapper
  write_to w = elim w.bridge [
    | some reader ↦ (M.read_all reader.inner, record w { bridge = none })
    | none ↦ (err (record { kind = other; message = "Source already read to end" }), w)
  ]

  abbrev stream_value : StreamWrapper → MemcacheValue
  stream_value w = record { flags = 0; length = w.summary.file_size_bytes; bytes = (write_to w).0 }

  abbrev bytes_value : List ℕ → MemcacheValue
  bytes_value bytes = record { flags = 0; length = length bytes; bytes = ok bytes }

  abbrev pub data_key : K.ShortGuid → String
  data_key id = "data-" <> K.guid_text id

  abbrev pub meta_key : K.ShortGuid → String
  meta_key id = "meta-" <> K.guid_text id

  abbrev Distributed : Type 0
  Distributed = Result (DistributionError K) (Unit {0}) × MemcacheBackend

  abbrev memcache_failed : M.MemcacheError → Result (DistributionError K) (Unit {0})
  memcache_failed e = err (backend_specific (M.memcache_error_text e))

  -- The blocking task.
  unfoldable pub copy_file :
      MemcacheBackend → K.ShortGuid → WriteSummary → FileReader K → List ℕ → Distributed
  copy_file b id summary file metadata_buf =
      let w : StreamWrapper = record { summary = summary; bridge = some file } in
      let (outcome, pool) = M.set b.pool (data_key id) (stream_value w) b.expiration_secs in
      elim outcome [
        | err e ↦ (memcache_failed e, record b { pool = pool })
        | ok _ ↦
            let (outcome', pool') =
              M.set pool (meta_key id) (bytes_value metadata_buf) b.expiration_secs in
            (elim outcome' [ err e ↦ memcache_failed e | ok _ ↦ ok tt ], record b { pool = pool' })
      ]

  -- `distribute_file`; `none` is the panic of `pool.get().unwrap()`.
  unfoldable pub distribute_to_memcache :
      MemcacheBackend → K.ShortGuid → WriteSummary → FileProvider K → Option Distributed
  unfolding copy_file
  distribute_to_memcache b id summary provider = elim (provider id) [
    | err e ↦ some (err (file_accessor e), b)
    | ok file ↦
        if M.has_client b.pool
        then elim (serialize_to_proto K M.prost (Metadata.new K M.prost id summary)) [
          | err e ↦ some (err (backend_specific (M.prost.encode_error_text e)), b)
          | ok metadata_buf ↦ some (copy_file b id summary file metadata_buf)
        ]
        else none
  ]

  abbrev pub as_backend : MemcacheBackend → Backend K MemcacheBackend
  as_backend b = record { tag = b.tag; state = b; distribute = distribute_to_memcache }

  -- `collect` of the results: all of them, or the first error.
  unfoldable pub collect :
      List MemcacheBackendConfig
      → Result MemcacheBackendConstructionError (List (Backend K MemcacheBackend))
  unfolding try_new
  collect [] = ok []
  collect (config ∷ configs) =
      let rest = collect configs in
      elim (try_new config) [
        | err e ↦ err e
        | ok b ↦ elim rest [ err e ↦ err e | ok bs ↦ ok (as_backend b ∷ bs) ]
      ]

  abbrev pub try_from_config :
      AppConfig → Result MemcacheBackendConstructionError (List (Backend K MemcacheBackend))
  try_from_config config = collect config.backends.memcache
