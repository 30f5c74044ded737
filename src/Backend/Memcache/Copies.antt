-- ===== src/Backend/Memcache/Copies.antt =====
-- What Memcached holds after a file was distributed to it.
use text.Mathlib.TextLemmas.{append_inj}
use yeet_yoink.Common.{
  ℕ, ◌≡◌, ◌≢◌, refl, ap, sym, ◌∙◌, ◌⊎◌, inl, inr, String, List, Option, some, Result, ok, err,
  arith, Result-cases, Bool-cases, text_eq,
}
use yeet_yoink.Crates.{Crates}
use yeet_yoink.Distribution.{WriteSummary}
use yeet_yoink.Distribution.Metadata.{ItemMetadata}
use yeet_yoink.Distribution.Metadata
use yeet_yoink.Backbone.Reader.{FileReader}
use yeet_yoink.Backend.{FileProvider, DistributionError, backend_specific, file_accessor}
use yeet_yoink.Backend.Memcache.{
  Memcached, MemcacheValue, MemcacheBackend, write_to, stream_value, bytes_value, data_key,
  meta_key, copy_file, distribute_to_memcache,
}

-- A successful `set` stores the bytes that the value writes, no `set` touches another key, and a
-- message is decoded from its bytes.
pub record IsStore {K : Crates} (M : Memcached K) : Type 0 where
  pub stored : M.Pool → String → Option (List ℕ)
  pub set_ok :
      (p : M.Pool) (key : String) (v : MemcacheValue) (e : ℕ)
      → (M.set p key v e).0 ≡ ok tt
      → (bytes : List ℕ) × (v.bytes ≡ ok bytes) × (stored (M.set p key v e).1 key ≡ some bytes)
  pub set_other :
      (p : M.Pool) (key other : String) (v : MemcacheValue) (e : ℕ)
      → other ≢ key
      → stored (M.set p key v e).1 other ≡ stored p other
  pub decode-encode :
      (m : ItemMetadata) (bytes : List ℕ)
      → M.prost.encode m ≡ ok bytes
      → M.prost.decode bytes ≡ some m

module _ (K : Crates) (M : Memcached K) (S : IsStore M) where
  keys-ne : (i j : K.ShortGuid) → data_key K M i ≢ meta_key K M j
  keys-ne i j e =
      let (same, _) = append_inj {s₁ = "data-"} {s₂ = "meta-"} e refl in
      cc ((text_eq.beq_iff "data-" "meta-").1 same)

  module _ (b b' : MemcacheBackend K M) (id : K.ShortGuid) (s : WriteSummary) where
    -- The pool holds the content of the file and its metadata.
    pub record Copied (provider : FileProvider K) : Type 0 where
      pub file : FileReader K
      pub found : provider id ≡ ok file
      pub content : List ℕ
      pub was_read : M.read_all file.inner ≡ ok content
      pub metadata : List ℕ
      pub decoded :
          M.prost.decode metadata
          ≡ some (record {
            id = M.prost.as_bytes id;
            file_name = s.file_name;
            hashes = some (record { md5 = s.hashes.md5; sha256 = s.hashes.sha256 });
          })
      pub has_data : S.stored b'.pool (data_key K M id) ≡ some content
      pub has_meta : S.stored b'.pool (meta_key K M id) ≡ some metadata

    pub distribute-copy_file :
        (provider : FileProvider K) (r : Result (DistributionError K) (Unit {0}))
        → distribute_to_memcache K M b id s provider ≡ some (r, b')
        → ((e : DistributionError K) × (r ≡ err e) × (b' ≡ b))
          ⊎ ((file : FileReader K) × (metadata : List ℕ) × (provider id ≡ ok file)
              × (M.prost.encode (Metadata.new K M.prost id s) ≡ ok metadata)
              × (copy_file K M b id s file metadata ≡ (r, b')))
    unfolding distribute_to_memcache
    distribute-copy_file provider r h = elim (Result-cases (provider id)) [
      | inr (e, x) ↦ inl (file_accessor e, ground arith, ground arith)
      | inl (file, x) ↦ elim (Bool-cases (M.has_client b.pool)) [
        | inr y ↦ absurd (ground arith)
        | inl y ↦ elim (Result-cases (M.prost.encode (Metadata.new K M.prost id s))) [
          | inr (e, z) ↦
              inl (backend_specific (M.prost.encode_error_text e), ground arith, ground arith)
          | inl (metadata, z) ↦ inr (file, metadata, x, z, ground arith)
        ]
      ]
    ]

    pub decode-metadata :
        (metadata : List ℕ)
        → M.prost.encode (Metadata.new K M.prost id s) ≡ ok metadata
        → M.prost.decode metadata ≡ some (Metadata.new K M.prost id s)
    decode-metadata metadata e = S.decode-encode (Metadata.new K M.prost id s) metadata e

    -- The call of `set` for the content, and the one for the metadata.
    abbrev pub set_data : FileReader K → Result M.MemcacheError (Unit {0}) × M.Pool
    set_data file =
        M.set b.pool (data_key K M id)
          (stream_value K M (record { summary = s; bridge = some file })) b.expiration_secs

    abbrev pub set_meta : FileReader K → List ℕ → Result M.MemcacheError (Unit {0}) × M.Pool
    set_meta file metadata =
        M.set (set_data file).1 (meta_key K M id) (bytes_value K M metadata) b.expiration_secs

    pub copy_file-cases :
        (file : FileReader K) (metadata : List ℕ) (r : Result (DistributionError K) (Unit {0}))
        → copy_file K M b id s file metadata ≡ (r, b')
        → ((e : DistributionError K) × (r ≡ err e) × (b'.pool ≡ (set_data file).1))
          ⊎ (((set_data file).0 ≡ ok tt)
              × (b'.pool ≡ (set_meta file metadata).1)
              × (((set_meta file metadata).0 ≡ ok tt) ⊎ ((e : DistributionError K) × (r ≡ err e))))
    unfolding copy_file
    copy_file-cases file metadata r h = elim (Result-cases (set_data file).0) [
      | inr (e, x) ↦ inl (backend_specific (M.memcache_error_text e), ground arith, ground arith)
      | inl (_, x) ↦ elim (Result-cases (set_meta file metadata).0) [
        | inl (_, y) ↦ inr (x, ground arith, inl y)
        | inr (e, y) ↦
            inr (x, ground arith, inr (backend_specific (M.memcache_error_text e), ground arith))
      ]
    ]

    data-stored :
        (file : FileReader K)
        → (set_data file).0 ≡ ok tt
        → (content : List ℕ) × (M.read_all file.inner ≡ ok content)
          × (S.stored (set_data file).1 (data_key K M id) ≡ some content)
    unfolding write_to
    data-stored file e =
        S.set_ok b.pool (data_key K M id)
          (stream_value K M (record { summary = s; bridge = some file })) b.expiration_secs e

    meta-keeps_data :
        (file : FileReader K) (metadata : List ℕ)
        → S.stored (set_meta file metadata).1 (data_key K M id)
          ≡ S.stored (set_data file).1 (data_key K M id)
    meta-keeps_data file metadata =
        S.set_other (set_data file).1 (meta_key K M id) (data_key K M id) (bytes_value K M metadata)
          b.expiration_secs (keys-ne id id)

    -- Where a successful `set` stores the bytes of its value and no `set` touches another key:
    -- whatever the outcome of a distribution, the metadata of the file is as it was, or its content
    -- has been stored, so nobody finds new metadata without the content.
    pub distribute-data_first :
        (provider : FileProvider K) (r : Result (DistributionError K) (Unit {0}))
        → distribute_to_memcache K M b id s provider ≡ some (r, b')
        → (S.stored b'.pool (meta_key K M id) ≡ S.stored b.pool (meta_key K M id))
          ⊎ ((file : FileReader K) × (content : List ℕ) × (provider id ≡ ok file)
              × (M.read_all file.inner ≡ ok content)
              × (S.stored b'.pool (data_key K M id) ≡ some content))
    distribute-data_first provider r h = elim (distribute-copy_file provider r h) [
      | inl (e, x, same) ↦ inl (rw same refl)
      | inr (file, metadata, found, _, copied) ↦ elim (copy_file-cases file metadata r copied) [
        | inl (e, x, pool) ↦ inl (
            ap (λ p. S.stored p (meta_key K M id)) pool
            ∙ S.set_other b.pool (data_key K M id) (meta_key K M id) _ b.expiration_secs
                (λ x. keys-ne id id (sym x)))
        | inr (x, pool, _) ↦
            let (content, was_read, has_data) = data-stored file x in
            inr (
              file,
              content,
              found,
              was_read,
              (ap (λ p. S.stored p (data_key K M id)) pool
                  ∙ meta-keeps_data file metadata
                  ∙ has_data),
            )
      ]
    ]
