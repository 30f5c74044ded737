-- ===== src/Backbone/Guard/Accept.antt =====
-- file_writer_guard.rs of crates/backbone/src: when `finalize` succeeds.
use yeet_yoink.Common.{
  ℕ, ◌≡◌, ◌↔◌, none, some, ok, true, arith, inl, inr, bytes_eq→eq, bytes_eq_refl, Option-cases, ◌⊎◌,
  Result-cases,
}
use yeet_yoink.Crates.{Crates}
use yeet_yoink.Distribution.{WriteSummary}
use yeet_yoink.Backbone.Writer.{
  FileWriter, CompletionMode, invalid_file_length, integrity_check_failed, FinalizationError,
  finalization_text,
}
use yeet_yoink.Backbone.Writer
use yeet_yoink.Backbone.Guard.{FileWriterGuard, finalize, verify_length, verify_integrity, signal}

module _ (K : Crates) where
  -- All that a successful `finalize` rests on.
  pub record Accepts (g : FileWriterGuard K) (mode : CompletionMode) (now : ℕ) (s : WriteSummary)
      : Type 0 where
    pub writer : FileWriter K
    pub is_open : g.inner ≡ some writer
    pub completed : Writer.finalize K writer mode g.expiration now ≡ ok s
    pub length_fits : (g.expected_size ≡ none) ⊎ (g.expected_size ≡ some g.file_size)
    pub md5_fits : (g.expected_content_md5 ≡ none) ⊎ (g.expected_content_md5 ≡ some s.hashes.md5)
    pub tx : K.OneshotSender
    pub has_sender : g.sender ≡ some tx
    pub heard : K.delivers tx ≡ true

  signal-ok :
      (g : FileWriterGuard K) (s t : WriteSummary)
      → (signal K g s).0 ≡ ok t
      → (tx : K.OneshotSender) × (s ≡ t) × (g.sender ≡ some tx) × (K.delivers tx ≡ true)
  unfolding signal
  signal-ok g s t h = ground arith

  verify_integrity-ok :
      (g : FileWriterGuard K) (s t : WriteSummary)
      → (verify_integrity K g s).0 ≡ ok t
      → ((signal K g s).0 ≡ ok t)
        × ((g.expected_content_md5 ≡ none) ⊎ (g.expected_content_md5 ≡ some s.hashes.md5))
  unfolding verify_integrity
  verify_integrity-ok g s t h = elim (Option-cases g.expected_content_md5) [
    | inl e ↦ ground arith
    | inr (md5, e) ↦ ground (arith, bytes_eq→eq md5 s.hashes.md5)
  ]

  verify_length-ok :
      (g : FileWriterGuard K) (s t : WriteSummary)
      → (verify_length K g s).0 ≡ ok t
      → ((verify_integrity K g s).0 ≡ ok t)
        × ((g.expected_size ≡ none) ⊎ (g.expected_size ≡ some g.file_size))
  unfolding verify_length
  verify_length-ok g s t h = ground arith

  -- The guard without its writer, as the checks see it.
  abbrev closed : FileWriterGuard K → FileWriterGuard K
  closed g = record g { inner = none }

  finalize-ok :
      (g : FileWriterGuard K) (mode : CompletionMode) (now : ℕ) (t : WriteSummary)
      → (finalize K g mode now).0 ≡ ok t
      → (w : FileWriter K) × (s : WriteSummary) × (g.inner ≡ some w)
        × (Writer.finalize K w mode g.expiration now ≡ ok s)
        × ((verify_length K (closed g) s).0 ≡ ok t)
  unfolding finalize
  finalize-ok g mode now t h = elim (Option-cases g.inner) [
    | inl e ↦ absurd (ground arith)
    | inr (w, e) ↦ elim (Result-cases (Writer.finalize K w mode g.expiration now)) [
      | inl (s, f) ↦ (w, s, e, f, ground arith)
      | inr (x, f) ↦ absurd (ground arith)
    ]
  ]

  ok-Accepts :
      (g : FileWriterGuard K) (mode : CompletionMode) (now : ℕ) (t : WriteSummary)
      → (finalize K g mode now).0 ≡ ok t
      → Accepts g mode now t
  ok-Accepts g mode now t h =
      let (w, s, is_open, completed, h1) = finalize-ok g mode now t h in
      let (h2, length_fits) = verify_length-ok (closed g) s t h1 in
      let (h3, md5_fits) = verify_integrity-ok (closed g) s t h2 in
      let (tx, same, has_sender, heard) = signal-ok (closed g) s t h3 in
      rw (← same) (record {
        writer = w;
        is_open = is_open;
        completed = completed;
        length_fits = length_fits;
        md5_fits = md5_fits;
        tx = tx;
        has_sender = has_sender;
        heard = heard;
      })

  Accepts-ok :
      (g : FileWriterGuard K) (mode : CompletionMode) (now : ℕ) (s : WriteSummary)
      → Accepts g mode now s
      → (finalize K g mode now).0 ≡ ok s
  unfolding finalize
  Accepts-ok g mode now s a = ground (
    arith,
    a.is_open,
    a.completed,
    a.length_fits,
    a.md5_fits,
    a.has_sender,
    a.heard,
    bytes_eq_refl s.hashes.md5,
  )

  -- `finalize` succeeds with a summary exactly if the guard has its writer and its sender, the
  -- writer completes with that summary, the bytes counted are those announced, the MD5 digest is
  -- the one announced, and the backbone receives the message.
  pub finalize-ok_iff :
      (g : FileWriterGuard K) (mode : CompletionMode) (now : ℕ) (s : WriteSummary)
      → ((finalize K g mode now).0 ≡ ok s) ↔ Accepts g mode now s
  finalize-ok_iff g mode now s = (ok-Accepts g mode now s, Accepts-ok g mode now s)
