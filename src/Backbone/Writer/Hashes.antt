-- ===== src/Backbone/Writer/Hashes.antt =====
-- What the running digests and the size of a `FileWriter` stand for.
use yeet_yoink.Common.{
  ℕ, ◌+◌, ◌%◌, ◌≡◌, refl, sym, ap, ◌∙◌, List, [], ◌++◌, Option, String, ok, inl, inr, Result-cases,
  word, length, arith, length-append,
}
use yeet_yoink.Crates.{Crates, IsStreaming}
use yeet_yoink.Distribution.{WriteSummary}
use yeet_yoink.Distribution.Hash.{zeros}
use yeet_yoink.Backbone.Writer.{
  FileWriter, CompletionMode, new, write, sync_data, complete, summary, finalize,
}

module _ (K : Crates) where
  -- The digests and the size of `bytes`.
  pub record Digested (w : FileWriter K) (bytes : List ℕ) : Type 0 where
    pub md5 : w.md5.context ≡ K.md5_consume K.md5_new bytes
    pub sha256 : w.sha256.context ≡ K.sha_update K.sha_new bytes
    pub size : w.file_size ≡ length bytes % word

  -- The summary that describes `bytes`.
  pub record Describes (s : WriteSummary) (bytes : List ℕ) : Type 0 where
    pub md5 : s.hashes.md5 ≡ K.md5_compute (K.md5_consume K.md5_new bytes)
    pub sha256 : s.hashes.sha256 ≡ K.sha_finalize_into (K.sha_update K.sha_new bytes) (zeros 32)
    pub size : s.file_size_bytes ≡ length bytes % word

module _ (K : Crates) (streaming : IsStreaming K.digests) where
  pub new-Digested : (w : K.Writer) (name : Option String) → Digested K (new K w name) []
  new-Digested w name = record {
    md5 = sym (streaming.md5_consume-nil K.md5_new);
    sha256 = sym (streaming.sha_update-nil K.sha_new);
    size = refl;
  }

  -- A write extends the digests by the whole chunk, however much of it the file took.
  pub write-Digested :
      (w : FileWriter K) (chunk bytes : List ℕ)
      → Digested K w bytes
      → Digested K (write K w chunk).1 (bytes ++ chunk)
  unfolding write
  write-Digested w chunk bytes d = record {
    md5 =
        ap (λ c. K.md5_consume c chunk) d.md5
        ∙ sym (streaming.md5_consume-append K.md5_new bytes chunk);
    sha256 =
        ap (λ c. K.sha_update c chunk) d.sha256
        ∙ sym (streaming.sha_update-append K.sha_new bytes chunk);
    size = omega (arith, d.size, length-append bytes chunk);
  }

module _ (K : Crates) where
  -- The file's own part in a write.
  pub write-inner :
      (w : FileWriter K) (chunk : List ℕ)
      → ((write K w chunk).0 ≡ (K.write w.inner chunk).0)
        × ((write K w chunk).1.inner ≡ (K.write w.inner chunk).1)
  unfolding write
  write-inner w chunk = (refl, refl)

  pub sync_data-Digested :
      (w : FileWriter K) (bytes : List ℕ) → Digested K w bytes → Digested K (sync_data K w).1 bytes
  unfolding sync_data
  sync_data-Digested w bytes d = record { md5 = d.md5; sha256 = d.sha256; size = d.size }

  pub finalize-eq-ok :
      (w : FileWriter K) (mode : CompletionMode) (expiration now : ℕ) {s : WriteSummary}
      → finalize K w mode expiration now ≡ ok s
      → s ≡ summary K w (now + expiration)
  unfolding finalize
  finalize-eq-ok w mode expiration now e = elim (Result-cases (complete K mode w.inner)) [
    | inl (_, done) ↦ ground arith
    | inr (_, failed) ↦ ground arith
  ]

  pub finalize-Describes :
      (w : FileWriter K) (mode : CompletionMode) (expiration now : ℕ) {s : WriteSummary}
      (bytes : List ℕ)
      → Digested K w bytes
      → finalize K w mode expiration now ≡ ok s
      → Describes K s bytes
  finalize-Describes w mode expiration now bytes d e =
      rw (finalize-eq-ok w mode expiration now e) (record {
        md5 = ap K.md5_compute d.md5;
        sha256 = ap (λ c. K.sha_finalize_into c (zeros 32)) d.sha256;
        size = d.size;
      })
