-- ===== src/Backbone/World/Matched.antt =====
-- Each lifetime with its upload.
use mathlib.Core.Path.{subst}
use yeet_yoink.Common.{
  ℕ, ◌≡◌, ◌≢◌, refl, ◌∙◌, inl, inr, true, List, [], some, ok, err, arith, length, get_elem?,
}
use yeet_yoink.Crates.{Crates, IsStreaming}
use yeet_yoink.Backbone.Guard.{FileWriterGuard, success, failed}
use yeet_yoink.Backbone.Guard.Calls.{call-silent, finish-silent}
use yeet_yoink.Backbone.Guard.Life.{GuardCall, Ending}
use yeet_yoink.Backbone.Record.{
  Lifetime, awaiting_result, Answer, received, locked, sent, slept, lifetime_handler, turn,
  BackboneCommand,
}
use yeet_yoink.Backbone.Table.{NewFile}
use yeet_yoink.Backbone.System.Each.{started}
use yeet_yoink.Backbone.System.Links.{turn-alive}
use yeet_yoink.Backbone.World.{Upload, begin_upload, call_upload, end_upload, World, Hears}
use yeet_yoink.Backbone.World.Guards.{
  Approved, Told, Running, Sound, call_upload-Running, end_upload-Ended,
}
use yeet_yoink.Backbone.World.Handlers.{
  Backs, Brings, Sends, lifetime_handler-Backs, Backs-map, Arrives, turn-Arrives,
}

module _ (K : Crates) where
  -- The upload and the lifetime that belong to one guard.
  pub record Fit (u : Upload K) (t : Lifetime K) : Type 0 where
    pub sound : Sound K u
    pub same_id : t.id ≡ u.request.id
    pub backed : Backs K (Approved K u) t
    pub waits : u.guard.sent ≡ [] → t.phase ≡ awaiting_result

  pub begin_upload-Fit :
      (f : NewFile K) (tx : K.OneshotSender) (g : FileWriterGuard K) (file : K.TempFile)
      → Running K (begin_upload K f tx g)
      → Fit (begin_upload K f tx g) (started K f.id file)
  begin_upload-Fit f tx g file r = record {
    sound = inl r;
    same_id = refl;
    backed = (tt, tt);
    waits = λ e. refl;
  }

  -- An upload that is still open has approved nothing.
  open-Backs :
      (u u' : Upload K) (t : Lifetime K)
      → u.is_open ≡ true
      → Backs K (Approved K u) t
      → Backs K (Approved K u') t
  open-Backs u u' t is_open b =
      Backs-map K (Approved K u) (Approved K u') (λ s a. absurd (ground (arith, a.is_closed))) t b

  Sound-Running : (u : Upload K) → u.is_open ≡ true → Sound K u → Running K u
  Sound-Running u e (inl r) = r
  Sound-Running u e (inr d) = absurd (ground (arith, d.is_closed))

  pub call_upload-Fit :
      IsStreaming K.digests
      → (u : Upload K) (t : Lifetime K) (c : GuardCall) → u.is_open ≡ true
      → Fit u t
      → Fit (call_upload K u c) t
  unfolding call_upload
  call_upload-Fit streaming u t c is_open f =
      let r = Sound-Running u is_open f.sound in
      record {
        sound = inl (call_upload-Running K u r streaming c);
        same_id = f.same_id;
        backed = open-Backs u (call_upload K u c) t is_open f.backed;
        waits = λ e. f.waits (call-silent K u.guard u.tx c r.signals e);
      }

  pub end_upload-Fit :
      (u : Upload K) (t : Lifetime K) (e : Ending)
      → u.is_open ≡ true
      → Fit u t
      → Fit (end_upload K u e) t
  unfolding end_upload
  end_upload-Fit u t e is_open f =
      let r = Sound-Running u is_open f.sound in
      record {
        sound = inr (end_upload-Ended K u r e);
        same_id = f.same_id;
        backed = open-Backs u (end_upload K u e) t is_open f.backed;
        waits = λ h. f.waits (finish-silent K u.guard u.tx e r.signals h);
      }

  -- What the handler takes was sent by a `finalize` that has succeeded, or it is no success.
  Hears-Brings : (u : Upload K) (a : Answer) → Sound K u → Hears K u a → Brings K (Approved K u) a
  Hears-Brings u (received (ok (success s))) (inl r) (alive, m) = absurd (ground (arith, r.signals))
  Hears-Brings u (received (ok (success s))) (inr d) (alive, m) = elim (d.told alive) [
    | inl (e, _) ↦ absurd (ground arith)
    | inr (s', e, a) ↦ let same : s' ≡ s = ground arith in subst (Approved K u) same a
  ]
  Hears-Brings u (received (ok failed)) d h = tt
  Hears-Brings u (received (err x)) d h = tt
  Hears-Brings u locked d h = tt
  Hears-Brings u (sent x now) d h = tt
  Hears-Brings u (slept now) d h = tt

  Told-sent : (u : Upload K) → Told K u → u.guard.sent ≢ []
  Told-sent u (inl (e, _)) h = cc
  Told-sent u (inr (s, e, _)) h = cc

  -- An answer to the first wait of the handler comes after the message.
  Hears-sent :
      (u : Upload K) (a : Answer) → Sound K u → Hears K u a → Arrives K a → u.guard.sent ≢ []
  Hears-sent u (received (ok m)) d (alive, h) x e = ground arith
  Hears-sent u (received (err y)) (inl r) (alive, is_closed, h) x e =
      absurd (ground (arith, r.is_open))
  Hears-sent u (received (err y)) (inr d) (alive, is_closed, h) x e = Told-sent u (d.told alive) e
  Hears-sent u locked d h x e = absurd x
  Hears-sent u (sent y now) d h x e = absurd x
  Hears-sent u (slept now) d h x e = absurd x

  pub lifetime_handler-Fit :
      (u : Upload K) (t t' : Lifetime K) (a : Answer) (cs : List (BackboneCommand K))
      → lifetime_handler K t a ≡ some (t', cs)
      → Hears K u a
      → Fit u t
      → Fit u t'
  unfolding lifetime_handler
  lifetime_handler-Fit u t t' a cs h hears f = record {
    sound = f.sound;
    same_id = (turn-alive K t t' t.phase a cs h).0 ∙ f.same_id;
    backed =
        (lifetime_handler-Backs K (Approved K u) t t' a cs h (Hears-Brings u a f.sound hears)
          f.backed).0;
    waits = λ e.
        let arrives =
          turn-Arrives K t t' a cs (subst (λ p. turn K t p a ≡ some (t', cs)) (f.waits e) h) in
        absurd (Hears-sent u a f.sound hears arrives e);
  }

  -- What the handler sends is approved.
  pub lifetime_handler-Sends :
      (u : Upload K) (t t' : Lifetime K) (a : Answer) (cs : List (BackboneCommand K))
      → lifetime_handler K t a ≡ some (t', cs)
      → Hears K u a
      → Fit u t
      → Sends K (Approved K u) t.id cs
  lifetime_handler-Sends u t t' a cs h hears f =
      (lifetime_handler-Backs K (Approved K u) t t' a cs h (Hears-Brings u a f.sound hears)
        f.backed).1

  -- Each lifetime has its upload, and there is no other.
  pub record Matched (w : World K) : Type 0 where
    pub same_length : length w.uploads ≡ length w.backbone.lifetimes
    pub fits :
        (i : ℕ) (u : Upload K) (t : Lifetime K)
        → get_elem? w.uploads i ≡ some u
        → get_elem? w.backbone.lifetimes i ≡ some t
        → Fit u t
