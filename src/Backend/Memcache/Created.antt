-- ===== src/Backend/Memcache/Created.antt =====
-- The backends that a configuration makes.
use mathlib.Core.Path.{subst}
use yeet_yoink.Common.{◌≤◌, ◌-◌, ◌^◌, ◌≡◌, inl, inr, List, [], ◌∷◌, ok, arith, Result-cases}
use yeet_yoink.Crates.{Crates}
use yeet_yoink.Config.{MemcacheBackendConfig, AppConfig, get_urls}
use yeet_yoink.Backend.{Backend}
use yeet_yoink.Backend.Memcache.{
  Memcached, MemcacheBackend, or_default, as_backend, try_new, collect, try_from_config,
}

module _ (K : Crates) (M : Memcached K) where
  -- The backend has the tag, a pool for the URLs and the expiration of the configuration.
  pub record IsCreated (config : MemcacheBackendConfig) (b : Backend K (MemcacheBackend K M))
      : Type 0 where
    pub same_tag : b.tag ≡ config.tag
    pub connects : M.build_pool (get_urls config.connection_string) ≡ ok b.state.pool
    pub expires : b.state.expiration_secs ≡ or_default K M config.expiration_sec

  pub data AreCreated
      : List MemcacheBackendConfig → List (Backend K (MemcacheBackend K M)) → Type 0 where
    no_backend : AreCreated [] []
    one_more :
        {config : MemcacheBackendConfig} {configs : List MemcacheBackendConfig}
        {b : Backend K (MemcacheBackend K M)} {bs : List (Backend K (MemcacheBackend K M))}
        → IsCreated config b
        → AreCreated configs bs
        → AreCreated (config ∷ configs) (b ∷ bs)

  -- Every expiration is a u32.
  abbrev pub AreWords : List MemcacheBackendConfig → Type 0
  AreWords [] = Unit
  AreWords (config ∷ configs) =
      (or_default K M config.expiration_sec ≤ 2 ^ 32 - 1) × AreWords configs

  try_new-IsCreated :
      (config : MemcacheBackendConfig) (b : MemcacheBackend K M)
      → or_default K M config.expiration_sec ≤ 2 ^ 32 - 1
      → try_new K M config ≡ ok b
      → IsCreated config (as_backend K M b)
  unfolding try_new
  try_new-IsCreated config b fits h =
      elim (Result-cases (M.build_pool (get_urls config.connection_string))) [
        | inr (e, x) ↦ absurd (ground arith)
        | inl (pool, x) ↦ record {
          same_tag = ground arith;
          connects = ground arith;
          expires = ground arith;
        }
      ]

  collect-AreCreated :
      (configs : List MemcacheBackendConfig) (bs : List (Backend K (MemcacheBackend K M)))
      → AreWords configs
      → collect K M configs ≡ ok bs
      → AreCreated configs bs
  unfolding collect
  collect-AreCreated [] bs fits h = let same : [] ≡ bs = cc in subst (AreCreated []) same no_backend
  collect-AreCreated (config ∷ configs) bs fits h = elim (Result-cases (try_new K M config)) [
    | inr (e, x) ↦ absurd (ground arith)
    | inl (b, x) ↦ elim (Result-cases (collect K M configs)) [
      | inr (e, y) ↦ absurd (ground arith)
      | inl (bs', y) ↦
          let same : as_backend K M b ∷ bs' ≡ bs = ground arith in
          subst (AreCreated (config ∷ configs)) same (
            one_more (try_new-IsCreated config b fits.0 x)
              (collect-AreCreated configs bs' fits.1 y))
    ]
  ]

  -- If a configuration is accepted and its expirations are u32, its backends are those it lists,
  -- one each and in its order, with the tag, a pool for the URLs, and the expiration given there,
  -- or one hour if none is given: the cut at the largest u32 changes nothing.
  pub try_from_config-AreCreated :
      (config : AppConfig) (bs : List (Backend K (MemcacheBackend K M)))
      → AreWords config.backends.memcache
      → try_from_config K M config ≡ ok bs
      → AreCreated config.backends.memcache bs
  try_from_config-AreCreated config bs fits h =
      collect-AreCreated config.backends.memcache bs fits h
