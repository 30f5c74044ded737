-- ===== src/Backbone/Guard/Bytes.antt =====
-- The bytes behind a guard: what its file holds, what its digests are of, and what it counted.
use yeet_yoink.Common.{
  ℕ, ◌%◌, ◌≡◌, refl, sym, ap, ◌∙◌, inl, inr, List, [], ◌++◌, Option, some, ok, arith, word,
  add_word, length, length-append, take, length-take_of_le, Result-cases, Result,
}
use yeet_yoink.Crates.{Crates, IsAppending, IsStreaming}
use yeet_yoink.Distribution.{WriteSummary}
use yeet_yoink.Backbone.Writer.{FileWriter, CompletionMode, SynchronizationError}
use yeet_yoink.Backbone.Writer
use yeet_yoink.Backbone.Writer.Hashes.{
  Digested, Describes, write-Digested, sync_data-Digested, finalize-Describes, write-inner,
}
use yeet_yoink.Backbone.Guard.{
  FileWriterGuard, new, write, sync_data, finalize, fail_if_not_already_closed,
}
use yeet_yoink.Backbone.Guard.Accept.{finalize-ok_iff}

module _ (K : Crates) where
  -- A successful write: the writer's write succeeded, and its bytes are counted.
  pub record Wrote (g : FileWriterGuard K) (chunk : List ℕ) (k : ℕ) (w : FileWriter K)
      : Type 0 where
    pub took : (Writer.write K w chunk).0 ≡ ok k
    pub writer : (write K g chunk).1.inner ≡ some (Writer.write K w chunk).1
    pub counted : (write K g chunk).1.file_size ≡ add_word g.file_size k

  pub write-Wrote :
      (g : FileWriterGuard K) (chunk : List ℕ) (k : ℕ) (w : FileWriter K)
      → g.inner ≡ some w
      → (write K g chunk).0 ≡ ok k
      → Wrote g chunk k w
  unfolding write fail_if_not_already_closed
  write-Wrote g chunk k w e h = elim (Result-cases (Writer.write K w chunk).0) [
    | inr (x, f) ↦ absurd (ground arith)
    | inl (j, f) ↦ record { took = ground arith; writer = ground arith; counted = ground arith }
  ]

  -- The file holds `bytes`, and the guard has counted them.
  pub record Holds (A : IsAppending K.files) (g : FileWriterGuard K) (bytes : List ℕ) : Type 0 where
    pub writer : FileWriter K
    pub is_open : g.inner ≡ some writer
    pub held : A.written writer.inner ≡ bytes
    pub counted : g.file_size ≡ length bytes % word

module _ (K : Crates) (A : IsAppending K.files) where
  pub new-Holds :
      (w : FileWriter K) (tx : K.OneshotSender) (expiration : ℕ) (size : Option ℕ)
      (md5 : Option (List ℕ))
      → A.written w.inner ≡ []
      → Holds K A (new K w tx expiration size md5) []
  new-Holds w tx expiration size md5 fresh = record {
    writer = w;
    is_open = refl;
    held = fresh;
    counted = refl;
  }

  -- A successful write of `k` bytes extends the file by the first `k` bytes of the chunk.
  pub write-Holds :
      (g : FileWriterGuard K) (chunk bytes : List ℕ) (k : ℕ)
      → Holds K A g bytes
      → (write K g chunk).0 ≡ ok k
      → Holds K A (write K g chunk).1 (bytes ++ take k chunk)
  write-Holds g chunk bytes k h e =
      let wrote = write-Wrote K g chunk k h.writer h.is_open e in
      let (outcome, inner) = write-inner K h.writer chunk in
      let (fits, grows) = A.write_ok h.writer.inner chunk k (sym outcome ∙ wrote.took) in
      record {
        writer = (Writer.write K h.writer chunk).1;
        is_open = wrote.writer;
        held = ap A.written inner ∙ grows ∙ ap (λ (x : List ℕ). x ++ take k chunk) h.held;
        counted = omega (
          arith,
          wrote.counted,
          h.counted,
          length-append bytes (take k chunk),
          length-take_of_le k chunk fits,
        );
      }

  pub sync_data-Holds :
      (g g' : FileWriterGuard K) (bytes : List ℕ) {r : Result (SynchronizationError K) (Unit {0})}
      → Holds K A g bytes
      → sync_data K g ≡ some (r, g')
      → Holds K A g' bytes
  unfolding sync_data Writer.sync_data
  sync_data-Holds g g' bytes h e = record {
    writer = (Writer.sync_data K h.writer).1;
    is_open = ground (arith, h.is_open);
    held = A.sync_keeps h.writer.inner ∙ h.held;
    counted = ground (arith, h.is_open, h.counted);
  }

module _ (K : Crates) where
  -- The digests and the size of the guard's writer are those of `bytes`.
  pub record Hashes (g : FileWriterGuard K) (bytes : List ℕ) : Type 0 where
    pub writer : FileWriter K
    pub is_open : g.inner ≡ some writer
    pub digested : Digested K writer bytes

  pub write-Hashes :
      IsStreaming K.digests
      → (g : FileWriterGuard K) (chunk bytes : List ℕ) (k : ℕ) → Hashes g bytes
      → (write K g chunk).0 ≡ ok k
      → Hashes (write K g chunk).1 (bytes ++ chunk)
  write-Hashes streaming g chunk bytes k h e =
      let wrote = write-Wrote K g chunk k h.writer h.is_open e in
      record {
        writer = (Writer.write K h.writer chunk).1;
        is_open = wrote.writer;
        digested = write-Digested K streaming h.writer chunk bytes h.digested;
      }

  pub sync_data-Hashes :
      (g g' : FileWriterGuard K) (bytes : List ℕ) {r : Result (SynchronizationError K) (Unit {0})}
      → Hashes g bytes
      → sync_data K g ≡ some (r, g')
      → Hashes g' bytes
  unfolding sync_data
  sync_data-Hashes g g' bytes h e = record {
    writer = (Writer.sync_data K h.writer).1;
    is_open = ground (arith, h.is_open);
    digested = sync_data-Digested K h.writer bytes h.digested;
  }

  pub finalize-Hashes :
      (g : FileWriterGuard K) (mode : CompletionMode) (now : ℕ) {s : WriteSummary} (bytes : List ℕ)
      → Hashes g bytes
      → (finalize K g mode now).0 ≡ ok s
      → Describes K s bytes
  finalize-Hashes g mode now {s} bytes h e =
      let a = (finalize-ok_iff K g mode now s).0 e in
      let same : a.writer ≡ h.writer = ground (arith, a.is_open, h.is_open) in
      finalize-Describes K h.writer mode g.expiration now bytes h.digested (rw (← same) a.completed)
