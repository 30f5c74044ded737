-- ===== src/Tests/Backends.antt =====
-- A Memcached that is a dictionary, alone and in the registry.
use yeet_yoink.Common.{
  ℕ, ◌≡◌, ◌≢◌, ◌⊎◌, refl, inl, inr, String, List, [], ◌∷◌, none, some, Result, ok, err, true, arith,
  text_eq, traverse, Result-cases,
}
use yeet_yoink.Common.Dict.{Dict, lookup}
use yeet_yoink.Distribution.{WriteSummary}
use yeet_yoink.Distribution.Metadata.{ItemMetadata}
use yeet_yoink.Distribution.Metadata
use yeet_yoink.Backbone.Reader.{FileReader}
use yeet_yoink.Backend.{Backend, FileProvider, distribute_file}
use yeet_yoink.Backend.Memcache.{
  Memcached, MemcacheValue, MemcacheBackend, distribute_to_memcache, as_backend, data_key, meta_key,
  write_to,
}
use yeet_yoink.Backend.Memcache.Entries.{IsAtomic}
use yeet_yoink.Backend.Memcache.Copies.{IsStore, distribute-data_first}
use yeet_yoink.Server.Registry.{Event, handle_events}
use yeet_yoink.Server.Registry.Alone.{after_all, handle_events-after_all}
use yeet_yoink.Config.{MemcacheBackendConfig, AppConfig, get_urls}
use yeet_yoink.Backend.Memcache.{collect}
use yeet_yoink.Backend.Memcache.Created.{AreCreated, try_from_config-AreCreated}
use yeet_yoink.Tests.Toy.{toy}
use yeet_yoink.Tests.Messages.{print, parse, parse-print}

abbrev put :
    Dict String (List ℕ) → String → MemcacheValue → Result String (Unit {0}) × Dict String (List ℕ)
put p key v = elim v.bytes [ err e ↦ (err e.message, p) | ok bytes ↦ (ok tt, (key, bytes) ∷ p) ]

-- The content of every file is one byte.
abbrev pub memcached : Memcached toy
memcached = record {
  Pool = Dict String (List ℕ);
  PoolError = Unit {0};
  MemcacheError = String;
  memcache_error_text = λ e. e;
  build_pool = λ urls. ok [];
  has_client = λ p. true;
  set = λ p key v e. put p key v;
  prost = record {
    as_bytes = λ id. id ∷ [];
    EncodeError = String;
    encode_error_text = λ e. e;
    encode = print;
    decode = λ bytes. some (parse bytes);
  };
  read_all = λ r. ok (10 ∷ []);
}

pub memcached-IsStore : IsStore memcached
unfolding lookup
memcached-IsStore = record {
  stored = λ p key. lookup text_eq key p;
  set_ok = λ p key v e h. stores p key v h;
  set_other = λ p key other v e n. keeps p key other v n;
  decode-encode = parse-print;
}
  where
    stores :
        (p : Dict String (List ℕ)) (key : String) (v : MemcacheValue)
        → (put p key v).0 ≡ ok tt
        → (bytes : List ℕ) × (v.bytes ≡ ok bytes)
          × (lookup text_eq key (put p key v).1 ≡ some bytes)
    stores p key v h = elim (Result-cases v.bytes) [
      | inr (x, e) ↦ absurd (ground arith)
      | inl (bytes, e) ↦ (bytes, e, ground (arith, e, text_eq.beq_iff key key))
    ]

    keeps :
        (p : Dict String (List ℕ)) (key other : String) (v : MemcacheValue)
        → other ≢ key
        → lookup text_eq other (put p key v).1 ≡ lookup text_eq other p
    keeps p key other v n = elim (Result-cases v.bytes) [
      | inr (x, e) ↦ ground (arith, e)
      | inl (bytes, e) ↦ ground (arith, e, text_eq.beq_iff other key)
    ]

pub memcached-IsAtomic : IsAtomic memcached memcached-IsStore
unfolding lookup memcached-IsStore
memcached-IsAtomic = record { set_atomic = λ p key v e. all_or_nothing p key v }
  where
    all_or_nothing :
        (p : List (String × List ℕ)) (key : String) (v : MemcacheValue)
        → ((lookup text_eq key (put p key v).1 ≡ lookup text_eq key p)
            ⊎ (lookup text_eq key (put p key v).1 ≡ none))
          ⊎ ((bytes : List ℕ) × (v.bytes ≡ ok bytes)
              × (lookup text_eq key (put p key v).1 ≡ some bytes))
    all_or_nothing p key v = elim (Result-cases v.bytes) [
      | inr (x, e) ↦ inl (inl (ground (arith, e)))
      | inl (bytes, e) ↦ inr (bytes, e, ground (arith, e, text_eq.beq_iff key key))
    ]

-- A key that was just set.
pub stored-first :
    (key : String) (bytes : List ℕ) (p : Dict String (List ℕ))
    → memcached-IsStore.stored ((key, bytes) ∷ p) key ≡ some bytes
unfolding lookup memcached-IsStore
stored-first key bytes p = ground (arith, text_eq.beq_iff key key)

abbrev pub backend : MemcacheBackend toy memcached
backend = record { tag = "m"; pool = []; expiration_secs = 3600 }

abbrev pub filled : MemcacheBackend toy memcached
filled = record {
  tag = "m";
  pool =
      (meta_key toy memcached 42, 1 ∷ 42 ∷ 1 ∷ 5 ∷ 6 ∷ [])
      ∷ (data_key toy memcached 42, 10 ∷ [])
      ∷ [];
  expiration_secs = 3600;
}

abbrev reader : FileReader toy
reader = record {
  inner = 42;
  content_type = none;
  created = 7;
  expiration_duration = 100;
  summary = none;
}

abbrev provider : FileProvider toy
provider id = ok reader

abbrev pub summary : WriteSummary
summary = record {
  expires = 105;
  hashes = record { md5 = 5 ∷ []; sha256 = 6 ∷ [] };
  file_name = none;
  file_size_bytes = 1;
}

distribute-data_first_example :
    (memcached-IsStore.stored filled.pool (meta_key toy memcached 42)
      ≡ memcached-IsStore.stored backend.pool (meta_key toy memcached 42))
    ⊎ ((file : FileReader toy) × (content : List ℕ) × (provider 42 ≡ ok file)
        × (memcached.read_all file.inner ≡ ok content)
        × (memcached-IsStore.stored filled.pool (data_key toy memcached 42) ≡ some content))
unfolding distribute_to_memcache write_to Metadata.new
distribute-data_first_example =
    distribute-data_first toy memcached memcached-IsStore backend filled 42 summary provider (ok tt)
      refl

abbrev event : Event toy (MemcacheBackend toy memcached)
event = record { command = distribute_file 42 summary; provider = provider }

abbrev two_backends : List (Backend toy (MemcacheBackend toy memcached))
two_backends = as_backend toy memcached backend ∷ as_backend toy memcached filled ∷ []

handle_events-after_all_example :
    handle_events toy (MemcacheBackend toy memcached) two_backends (event ∷ event ∷ [])
    ≡ traverse (after_all toy (MemcacheBackend toy memcached) (event ∷ event ∷ [])) two_backends
handle_events-after_all_example =
    handle_events-after_all toy (MemcacheBackend toy memcached) two_backends (event ∷ event ∷ [])

abbrev first_config : MemcacheBackendConfig
first_config = record {
  tag = "m";
  connection_string = record { text = "memcache://host" };
  expiration_sec = none;
}

abbrev second_config : MemcacheBackendConfig
second_config = record first_config { tag = "n"; expiration_sec = some 60 }

abbrev config : AppConfig
config = record { version = 1; backends = record { memcache = first_config ∷ second_config ∷ [] } }

abbrev created : List (Backend toy (MemcacheBackend toy memcached))
created =
    as_backend toy memcached backend
    ∷ as_backend toy memcached (record backend { tag = "n"; expiration_secs = 60 })
    ∷ []

try_from_config-AreCreated_example : AreCreated toy memcached config.backends.memcache created
unfolding collect get_urls
try_from_config-AreCreated_example =
    try_from_config-AreCreated toy memcached config created (omega arith, (omega arith, tt)) refl
