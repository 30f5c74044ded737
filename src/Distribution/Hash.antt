-- ===== src/Distribution/Hash.antt =====
-- crates/file-distribution/src/hash.rs: the two running digests of a file.
use yeet_yoink.Common.{ℕ, zero, suc, List, [], ◌∷◌}
use yeet_yoink.Crates.{Digests}

abbrev pub zeros : ℕ → List ℕ
zeros zero = []
zeros (suc n) = 0 ∷ zeros n

module _ (D : Digests) where
  -- `HashMd5` and `HashSha256`
  pub record HashMd5 : Type 0 where
    pub context : D.Md5Context

  pub record HashSha256 : Type 0 where
    pub context : D.ShaContext

  abbrev pub md5_new : HashMd5
  md5_new = record { context = D.md5_new }

  abbrev pub md5_update : HashMd5 → List ℕ → HashMd5
  md5_update h chunk = record { context = D.md5_consume h.context chunk }

  abbrev pub md5_finalize : HashMd5 → List ℕ
  md5_finalize h = D.md5_compute h.context

  abbrev pub sha256_new : HashSha256
  sha256_new = record { context = D.sha_new }

  abbrev pub sha256_update : HashSha256 → List ℕ → HashSha256
  sha256_update h chunk = record { context = D.sha_update h.context chunk }

  -- The digest goes into a buffer of 32 zeros.
  abbrev pub sha256_finalize : HashSha256 → List ℕ
  sha256_finalize h = D.sha_finalize_into h.context (zeros 32)
