-- ===== src/Server/Delivery.antt =====
-- A stored file on its way to Memcached: the backbone, the bridge of
-- crates/backbone/src/file_accessor.rs, and crates/backend-memcache/src/backend.rs.
use yeet_yoink.Common.{ℕ, ◌≡◌, List, some, ok}
use yeet_yoink.Crates.{Crates}
use yeet_yoink.Distribution.{WriteSummary}
use yeet_yoink.Backbone.Accessor
use yeet_yoink.Backbone.Table.{Backbone}
use yeet_yoink.Backbone.Contract.{stored}
use yeet_yoink.Backend.Memcache.{Memcached, MemcacheBackend, data_key, meta_key}
use yeet_yoink.Backend.Memcache.Copies.{IsStore}

module _ (K : Crates) (M : Memcached K) (S : IsStore M) where
  -- Memcached holds what is read of `file`, and the metadata for the summary.
  pub record Delivered (disk : K.Disk) (id : K.ShortGuid) (file : K.TempFile) (s : WriteSummary)
      (b : MemcacheBackend K M) : Type 0 where
    pub reader : K.Reader
    pub opened : K.open_reader disk file ≡ ok reader
    pub content : List ℕ
    pub was_read : M.read_all reader ≡ ok content
    pub has_data : S.stored b.pool (data_key K M id) ≡ some content
    pub metadata : List ℕ
    pub has_meta : S.stored b.pool (meta_key K M id) ≡ some metadata
    pub decoded :
        M.prost.decode metadata
        ≡ some (record {
          id = M.prost.as_bytes id;
          file_name = s.file_name;
          hashes = some (record { md5 = s.hashes.md5; sha256 = s.hashes.sha256 });
        })
