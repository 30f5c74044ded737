-- ===== src/Backbone/World/Guards.antt =====
-- What is true of a guard and its upload, whatever its client does.
use mathlib.Core.Path.{subst}
use yeet_yoink.Common.{
  ℕ, ◌≡◌, refl, sym, ◌∙◌, ◌⊎◌, inl, inr, true, false, [], ◌∷◌, none, some, ok, arith, Result-cases,
}
use yeet_yoink.Crates.{Crates, IsStreaming}
use yeet_yoink.Distribution.{WriteSummary}
use yeet_yoink.Backbone.Writer.{CompletionMode}
use yeet_yoink.Backbone.Writer
use yeet_yoink.Backbone.Writer.Hashes.{Describes, new-Digested}
use yeet_yoink.Backbone.Guard.{FileWriterGuard, success, failed, finalize}
use yeet_yoink.Backbone.Guard.Accept.{finalize-ok_iff}
use yeet_yoink.Backbone.Guard.Bytes.{Hashes, finalize-Hashes}
use yeet_yoink.Backbone.Guard.Calls.{
  Signals, call-Signals, call-expected_content_md5, call-Hashes, finish-sender, finish-told,
}
use yeet_yoink.Backbone.Guard.Life.{GuardCall, Ending, drops, finalizes, finish, told}
use yeet_yoink.Backbone.Table.{Backbone, NewFile, new_file}
use yeet_yoink.Backbone.Table.Opens.{new_file-Opened}
use yeet_yoink.Backbone.World.{Upload, begin_upload, call_upload, end_upload}

module _ (K : Crates) where
  -- What `finalize` has returned for an upload: a summary of the bytes that were handed to `write`,
  -- whose MD5 digest is the one that the request announced, if it did.
  pub record Approved (u : Upload K) (s : WriteSummary) : Type 0 where
    pub is_closed : u.is_open ≡ false
    pub returned : u.returned ≡ some s
    pub describes : Describes K s u.fed
    pub md5_fits : (u.request.content_md5 ≡ none) ⊎ (u.request.content_md5 ≡ some s.hashes.md5)

  -- The message of an upload that has ended.
  abbrev pub Told : Upload K → Type 0
  Told u =
      ((u.guard.sent ≡ failed ∷ []) × (u.returned ≡ none))
      ⊎ ((s : WriteSummary) × (u.guard.sent ≡ success s ∷ []) × Approved u s)

  pub record Running (u : Upload K) : Type 0 where
    pub is_open : u.is_open ≡ true
    pub signals : Signals K u.tx u.guard
    pub md5 : u.guard.expected_content_md5 ≡ u.request.content_md5
    pub hashes : Hashes K u.guard u.fed

  pub record Ended (u : Upload K) : Type 0 where
    pub is_closed : u.is_open ≡ false
    pub no_sender : u.guard.sender ≡ none
    pub told : K.delivers u.tx ≡ true → Told u

  abbrev pub Sound : Upload K → Type 0
  Sound u = Running u ⊎ Ended u

  pub begin_upload-Running :
      IsStreaming K.digests
      → (b : Backbone K) (disk : K.Disk) (f : NewFile K) (tx : K.OneshotSender) (now : ℕ)
      → (g : FileWriterGuard K) → (new_file K b disk f tx now).0 ≡ ok g
      → Running (begin_upload K f tx g)
  begin_upload-Running streaming b disk f tx now g h =
      let o = new_file-Opened K b disk f tx now g h in
      subst (λ x. Running (begin_upload K f tx x)) (sym o.is_new)
        (record {
          is_open = refl;
          signals = inl (refl, refl);
          md5 = refl;
          hashes = record {
            writer = Writer.new K o.writer f.file_name;
            is_open = refl;
            digested = new-Digested K streaming o.writer f.file_name;
          };
        })

  module _ (u : Upload K) (r : Running u) where
    pub call_upload-Running : IsStreaming K.digests → (c : GuardCall) → Running (call_upload K u c)
    unfolding call_upload
    call_upload-Running streaming c = record {
      is_open = r.is_open;
      signals = call-Signals K u.guard u.tx c r.signals;
      md5 = call-expected_content_md5 K u.guard c ∙ r.md5;
      hashes = call-Hashes K u.guard streaming c u.fed r.hashes;
    }

    end_upload-Told :
        (e : Ending) → (finish K u.guard e).sent ≡ told K u.guard e ∷ [] → Told (end_upload K u e)
    unfolding end_upload told
    end_upload-Told drops h = inl (h, refl)
    end_upload-Told (finalizes mode now) h = elim (Result-cases (finalize K u.guard mode now).0) [
      | inr (e, f) ↦ inl (h ∙ ground (arith, f), ground (arith, f))
      | inl (s, f) ↦
          let a = (finalize-ok_iff K u.guard mode now s).0 f in
          inr (
            s,
            h ∙ ground (arith, f),
            record {
              is_closed = refl;
              returned = ground (arith, f);
              describes = finalize-Hashes K u.guard mode now u.fed r.hashes f;
              md5_fits = ground (arith, a.md5_fits, r.md5);
            },
          )
    ]

    pub end_upload-Ended : (e : Ending) → Ended (end_upload K u e)
    unfolding end_upload
    end_upload-Ended e = record {
      is_closed = refl;
      no_sender = finish-sender K u.guard u.tx e r.signals;
      told = λ alive. end_upload-Told e (finish-told K u.guard u.tx e r.signals alive);
    }
