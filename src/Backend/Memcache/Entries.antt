-- ===== src/Backend/Memcache/Entries.antt =====
-- What one distribution does to the entries of Memcached.
use yeet_yoink.Common.{
  ℕ, ◌≡◌, sym, ap, ◌∙◌, ◌⊎◌, inl, inr, String, List, none, some, Result, ok, arith, Bool-cases,
  text_eq,
}
use yeet_yoink.Crates.{Crates}
use yeet_yoink.Distribution.{WriteSummary}
use yeet_yoink.Distribution.Metadata
use yeet_yoink.Backend.{FileProvider, DistributionError}
use yeet_yoink.Backend.Memcache.{
  Memcached, MemcacheValue, MemcacheBackend, data_key, meta_key, write_to, stream_value,
  bytes_value, distribute_to_memcache,
}
use yeet_yoink.Backend.Memcache.Copies.{
  IsStore, distribute-copy_file, copy_file-cases, decode-metadata, set_data, set_meta,
}
use yeet_yoink.Backbone.Reader.{FileReader}

-- Whatever a `set` has returned, its key is as it was, or gone, or holds the whole value.
pub record IsAtomic {K : Crates} (M : Memcached K) (S : IsStore M) : Type 0 where
  pub set_atomic :
      (p : M.Pool) (key : String) (v : MemcacheValue) (e : ℕ)
      → ((S.stored (M.set p key v e).1 key ≡ S.stored p key)
          ⊎ (S.stored (M.set p key v e).1 key ≡ none))
        ⊎ ((bytes : List ℕ) × (v.bytes ≡ ok bytes)
            × (S.stored (M.set p key v e).1 key ≡ some bytes))

module _ (K : Crates) (M : Memcached K) (S : IsStore M) (atomic : IsAtomic M S)
    (P : String → List ℕ → Type 0) where
  -- Every entry has `P`.
  abbrev pub EachEntry : M.Pool → Type 0
  EachEntry p = (key : String) (bytes : List ℕ) → S.stored p key ≡ some bytes → P key bytes

  set-EachEntry :
      (p : M.Pool) (key : String) (v : MemcacheValue) (e : ℕ)
      → ((bytes : List ℕ) → v.bytes ≡ ok bytes → P key bytes)
      → EachEntry p
      → EachEntry (M.set p key v e).1
  set-EachEntry p key v e new old other bytes h = elim (Bool-cases (text_eq.beq other key)) [
    | inr differ ↦ old other bytes (
        sym
          (S.set_other p key other v e (λ x. ground (arith, differ, text_eq.beq_iff other key, x)))
        ∙ h)
    | inl same ↦
        let eq : other ≡ key = (text_eq.beq_iff other key).0 same in
        let h' = ap (S.stored (M.set p key v e).1) (sym eq) ∙ h in
        elim (atomic.set_atomic p key v e) [
          | inl (inl kept) ↦ rw eq (old key bytes (sym kept ∙ h'))
          | inl (inr gone) ↦ absurd (ground (arith, gone, h'))
          | inr (value, is_value, holds) ↦
              let is_it : value ≡ bytes = ground (arith, holds, h') in
              rw eq (new bytes (is_value ∙ ap ok is_it))
        ]
  ]

  module _ (b b' : MemcacheBackend K M) (id : K.ShortGuid) (s : WriteSummary)
      (provider : FileProvider K)
      (on_content : (file : FileReader K) (bytes : List ℕ)
        → provider id ≡ ok file
        → M.read_all file.inner ≡ ok bytes
        → P (data_key K M id) bytes)
      (on_metadata : (bytes : List ℕ)
        → M.prost.decode bytes ≡ some (Metadata.new K M.prost id s)
        → P (meta_key K M id) bytes) where
    set_data-EachEntry :
        (file : FileReader K)
        → provider id ≡ ok file
        → EachEntry b.pool
        → EachEntry (set_data K M S b b' id s file).1
    unfolding write_to
    set_data-EachEntry file found old =
        set-EachEntry b.pool (data_key K M id)
          (stream_value K M (record { summary = s; bridge = some file })) b.expiration_secs
          (λ bytes e. on_content file bytes found e) old

    set_meta-EachEntry :
        (file : FileReader K) (metadata : List ℕ)
        → provider id ≡ ok file
        → M.prost.encode (Metadata.new K M.prost id s) ≡ ok metadata
        → EachEntry b.pool
        → EachEntry (set_meta K M S b b' id s file metadata).1
    set_meta-EachEntry file metadata found encoded old =
        set-EachEntry (set_data K M S b b' id s file).1 (meta_key K M id) (bytes_value K M metadata)
          b.expiration_secs
          (λ bytes e.
            let same : metadata ≡ bytes = ground (arith, e) in
            on_metadata bytes (rw (← same) (decode-metadata K M S b b' id s metadata encoded)))
          (set_data-EachEntry file found old)

    pub distribute_to_memcache-EachEntry :
        (r : Result (DistributionError K) (Unit {0}))
        → distribute_to_memcache K M b id s provider ≡ some (r, b')
        → EachEntry b.pool
        → EachEntry b'.pool
    distribute_to_memcache-EachEntry r h old =
        elim (distribute-copy_file K M S b b' id s provider r h) [
          | inl (e, x, same) ↦ rw same old
          | inr (file, metadata, found, encoded, copied) ↦
              elim (copy_file-cases K M S b b' id s file metadata r copied) [
                | inl (e, x, pool) ↦ rw pool (set_data-EachEntry file found old)
                | inr (x, pool, _) ↦ rw pool (set_meta-EachEntry file metadata found encoded old)
              ]
        ]
