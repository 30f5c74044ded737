-- ===== src/Backbone/Guard/Calls.antt =====
-- What the calls of a guard and its end do to its channel, its digests and its announcement.
use yeet_yoink.Common.{
  refl, sym, ap, ◌∙◌, ℕ, ◌≡◌, ◌⊎◌, inl, inr, true, List, [], ◌∷◌, ◌++◌, none, some, ok, err, arith,
  take, Option-cases,
}
use mathlib.Core.Path.{subst}
use mathlib.Core.List.{append-nil, append_assoc}
use yeet_yoink.Crates.{Crates, IsStreaming}
use yeet_yoink.Backbone.Writer
use yeet_yoink.Backbone.Writer.Hashes.{write-Digested}
use yeet_yoink.Backbone.Guard.{
  FileWriterGuard, failed, write, sync_data, finalize, drop_guard, count_written,
  fail_if_not_already_closed,
}
use yeet_yoink.Backbone.Guard.Bytes.{Hashes, sync_data-Hashes}
use yeet_yoink.Backbone.Guard.Life.{
  GuardCall, writes, syncs, Ending, drops, finalizes, call, calls, finish, told,
}

-- The bytes that a call hands to the writer.
abbrev pub bytes_of : GuardCall → List ℕ
bytes_of (writes chunk) = chunk
bytes_of syncs = []

abbrev pub fed_by : List GuardCall → List ℕ
fed_by [] = []
fed_by (c ∷ cs) = bytes_of c ++ fed_by cs

pub fed_by-append : (cs ds : List GuardCall) → fed_by (cs ++ ds) ≡ fed_by cs ++ fed_by ds
fed_by-append [] ds = refl
fed_by-append (c ∷ cs) ds =
    ap (λ l. bytes_of c ++ l) (fed_by-append cs ds)
    ∙ sym (append_assoc (bytes_of c) (fed_by cs) (fed_by ds))

module _ (K : Crates) where
  -- The bytes that the file takes of a call.
  abbrev pub taken : FileWriterGuard K → GuardCall → List ℕ
  taken g (writes chunk) = elim (write K g chunk).0 [ err e ↦ [] | ok n ↦ take n chunk ]
  taken g syncs = []

  abbrev pub taken_by : FileWriterGuard K → List GuardCall → List ℕ
  taken_by g [] = []
  taken_by g (c ∷ cs) = taken g c ++ taken_by (call K g c) cs

  pub taken_by-append :
      (g : FileWriterGuard K) (cs ds : List GuardCall)
      → taken_by g (cs ++ ds) ≡ taken_by g cs ++ taken_by (calls K g cs) ds
  unfolding calls
  taken_by-append g [] ds = refl
  taken_by-append g (c ∷ cs) ds =
      ap (λ l. taken g c ++ l) (taken_by-append (call K g c) cs ds)
      ∙ sym (
          append_assoc (taken g c) (taken_by (call K g c) cs)
            (taken_by (calls K (call K g c) cs) ds))

  -- The guard holds its sender and has sent nothing, or it has sent one failure.
  abbrev pub Signals : K.OneshotSender → FileWriterGuard K → Type 0
  Signals tx g =
      ((g.sender ≡ some tx) × (g.sent ≡ [])) ⊎ ((g.sender ≡ none) × (g.sent ≡ failed ∷ []))

  module _ (g : FileWriterGuard K) where
    pub call-Signals :
        (tx : K.OneshotSender) (c : GuardCall) → Signals tx g → Signals tx (call K g c)
    unfolding call write sync_data count_written fail_if_not_already_closed
    call-Signals tx (writes chunk) h = ground arith
    call-Signals tx syncs h = ground arith

    pub call-expected_content_md5 :
        (c : GuardCall) → (call K g c).expected_content_md5 ≡ g.expected_content_md5
    unfolding call write sync_data count_written fail_if_not_already_closed
    call-expected_content_md5 (writes chunk) = ground arith
    call-expected_content_md5 syncs = ground arith

    -- A write leaves the guard its writer, also when it fails.
    write-inner :
        (chunk : List ℕ) (w : Writer.FileWriter K)
        → g.inner ≡ some w
        → (write K g chunk).1.inner ≡ some (Writer.write K w chunk).1
    unfolding write count_written fail_if_not_already_closed
    write-inner chunk w h = ground arith

    -- Whatever a write has returned, the digests have taken its whole chunk.
    pub call-Hashes :
        IsStreaming K.digests
        → (c : GuardCall) (bytes : List ℕ) → Hashes K g bytes
        → Hashes K (call K g c) (bytes ++ bytes_of c)
    unfolding call
    call-Hashes streaming (writes chunk) bytes h = record {
      writer = (Writer.write K h.writer chunk).1;
      is_open = write-inner chunk h.writer h.is_open;
      digested = write-Digested K streaming h.writer chunk bytes h.digested;
    }
    call-Hashes streaming syncs bytes h = elim (Option-cases (sync_data K g)) [
      | inl e ↦
          let same : g ≡ call K g syncs = ground (arith, e) in
          rw (append-nil bytes) (subst (λ x. Hashes K x bytes) same h)
      | inr ((r, g'), e) ↦
          let same : g' ≡ call K g syncs = ground (arith, e) in
          rw (append-nil bytes)
            (subst (λ x. Hashes K x bytes) same (sync_data-Hashes K g g' bytes h e))
    ]

    pub finish-sender :
        (tx : K.OneshotSender) (e : Ending) → Signals tx g → (finish K g e).sender ≡ none
    unfolding finish drop_guard finalize fail_if_not_already_closed
    finish-sender tx drops h = ground arith
    finish-sender tx (finalizes mode now) h = ground arith

    pub finish-told :
        (tx : K.OneshotSender) (e : Ending)
        → Signals tx g
        → K.delivers tx ≡ true
        → (finish K g e).sent ≡ told K g e ∷ []
    unfolding finish told drop_guard finalize
    finish-told tx drops h alive = ground arith
    finish-told tx (finalizes mode now) h alive = ground arith

    -- A message that was sent stays sent.
    pub call-silent :
        (tx : K.OneshotSender) (c : GuardCall) → Signals tx g → (call K g c).sent ≡ [] → g.sent ≡ []
    unfolding call write sync_data count_written fail_if_not_already_closed
    call-silent tx (writes chunk) (inl (_, e)) h = e
    call-silent tx (writes chunk) (inr (e, f)) h = absurd (ground arith)
    call-silent tx syncs (inl (_, e)) h = e
    call-silent tx syncs (inr (e, f)) h = absurd (ground arith)

    pub finish-silent :
        (tx : K.OneshotSender) (e : Ending) → Signals tx g → (finish K g e).sent ≡ [] → g.sent ≡ []
    unfolding finish drop_guard finalize fail_if_not_already_closed
    finish-silent tx e (inl (_, f)) h = f
    finish-silent tx drops (inr (e, f)) h = absurd (ground arith)
    finish-silent tx (finalizes mode now) (inr (e, f)) h = absurd (ground arith)

  pub calls-Hashes :
      IsStreaming K.digests
      → (g : FileWriterGuard K) (cs : List GuardCall) (bytes : List ℕ) → Hashes K g bytes
      → Hashes K (calls K g cs) (bytes ++ fed_by cs)
  unfolding calls
  calls-Hashes streaming g [] bytes h = subst (Hashes K g) (sym (append-nil bytes)) h
  calls-Hashes streaming g (c ∷ cs) bytes h =
      subst (Hashes K (calls K (call K g c) cs)) (append_assoc bytes (bytes_of c) (fed_by cs)) (
        calls-Hashes streaming (call K g c) cs (bytes ++ bytes_of c)
          (call-Hashes g streaming c bytes h))
