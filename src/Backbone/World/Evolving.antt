-- ===== src/Backbone/World/Evolving.antt =====
-- The runs of the world: what they keep, and the runs of the backbone that they contain.
use mathlib.Core.Path.{subst}
use yeet_yoink.Common.{
  ℕ, ◌≡◌, refl, sym, ap, ◌∙◌, inl, inr, Bool, [], ◌∷◌, ◌++◌, some, ok, arith, length, get_elem?,
  set, get_elem?-set, get_elem?-snoc, length-append, length-set, get_elem?-lt, get_elem?-of_lt,
}
use yeet_yoink.Crates.{Crates, IsStreaming}
use yeet_yoink.Backbone.Guard.{FileWriterGuard}
use yeet_yoink.Backbone.Record.{Lifetime, Answer}
use yeet_yoink.Backbone.Table.{Backbone, NewFile, new_file}
use yeet_yoink.Backbone.Table.Opens.{new_file-registered, new_file-refused}
use yeet_yoink.Backbone.System.{
  run_handler, run_handler-eq_some, client_step, handler_step, loop_step, Reach, here, next,
}
use yeet_yoink.Backbone.System.Each.{started, handle_command-lifetimes}
use yeet_yoink.Backbone.World.{
  Upload, begin_upload, call_upload, end_upload, World, Hears, Happens, file_opened, file_refused,
  guard_called, guard_ended, handler_ran, command_handled, Evolves, begun, after, new_world,
}
use yeet_yoink.Backbone.World.Guards.{begin_upload-Running}
use yeet_yoink.Backbone.World.Matched.{
  Fit, Matched, begin_upload-Fit, call_upload-Fit, end_upload-Fit, lifetime_handler-Fit,
}

module _ (K : Crates) where
  -- An upload moves, and its lifetime stays.
  upload-Matched :
      (w : World K) (i : ℕ) (u v : Upload K)
      → get_elem? w.uploads i ≡ some u
      → ((t : Lifetime K) → Fit K u t → Fit K v t)
      → Matched K w
      → Matched K (record w { uploads = set w.uploads i v })
  upload-Matched w i u v at moves m = record {
    same_length = length-set w.uploads i v ∙ m.same_length;
    fits = λ j x t k l. elim (get_elem?-set w.uploads i j v k) [
      | inl (here_now, new_one) ↦
          rw new_one (moves t (m.fits i u t at (ap (get_elem? w.backbone.lifetimes) here_now ∙ l)))
      | inr (_, old) ↦ m.fits j x t old l
    ];
  }

  -- A lifetime moves, and its upload stays.
  handler-Matched :
      (w : World K) (i : ℕ) (u : Upload K) (a : Answer) (b : Backbone K)
      → get_elem? w.uploads i ≡ some u
      → Hears K u a
      → run_handler K w.backbone i a ≡ some b
      → Matched K w
      → Matched K (record w { backbone = b })
  handler-Matched w i u a b at hears h m =
      let (t0, t1, cs, f, g, same) = run_handler-eq_some K w.backbone i a h in
      let moved : b.lifetimes ≡ set w.backbone.lifetimes i t1 = ap (λ c. c.lifetimes) same in
      record {
        same_length = m.same_length ∙ sym (ap length moved ∙ length-set w.backbone.lifetimes i t1);
        fits = λ j x t k l.
            elim (get_elem?-set w.backbone.lifetimes i j t1
              (ap (λ ts. get_elem? ts j) (sym moved) ∙ l)) [
                | inl (here_now, new_one) ↦
                    let mine = ap (get_elem? w.uploads) here_now ∙ k in
                    let is_u : u ≡ x = ground (arith, at, mine) in
                    rw new_one (
                      lifetime_handler-Fit K x t0 t1 a cs g (subst (λ y. Hears K y a) is_u hears)
                        (m.fits i x t0 mine f))
                | inr (_, old) ↦ m.fits j x t k old
              ];
      }

  opened-Matched :
      IsStreaming K.digests
      → (w : World K) (disk : K.Disk) (f : NewFile K) (tx : K.OneshotSender) (now : ℕ)
      → (g : FileWriterGuard K) → (new_file K w.backbone disk f tx now).0 ≡ ok g
      → Matched K w
      → Matched K (record {
        backbone = (new_file K w.backbone disk f tx now).1;
        uploads = w.uploads ++ begin_upload K f tx g ∷ [];
      })
  opened-Matched streaming w disk f tx now g h m =
      let (file, _, added) = new_file-registered K w.backbone disk f tx now g h in
      let u = begin_upload K f tx g in
      let s = started K f.id file in
      let more : (new_file K w.backbone disk f tx now).1.lifetimes
          ≡ w.backbone.lifetimes ++ s ∷ [] =
        ap (λ b. b.lifetimes) added in
      let fit =
        begin_upload-Fit K f tx g file
          (begin_upload-Running K streaming w.backbone disk f tx now g h) in
      record {
        same_length = omega (
          arith,
          ap length more,
          length-append w.uploads (u ∷ []),
          length-append w.backbone.lifetimes (s ∷ []),
          m.same_length,
        );
        fits = λ j x t k l. elim (get_elem?-snoc w.uploads j u k) [
          | inl (last, new_u) ↦
              elim (get_elem?-snoc w.backbone.lifetimes j s
                (ap (λ ts. get_elem? ts j) (sym more) ∙ l)) [
                  | inl (_, new_t) ↦ rw (new_u, new_t) fit
                  | inr old_t ↦ absurd (
                      omega (arith, last, get_elem?-lt w.backbone.lifetimes j old_t, m.same_length))
                ]
          | inr old ↦
              elim (get_elem?-snoc w.backbone.lifetimes j s
                (ap (λ ts. get_elem? ts j) (sym more) ∙ l)) [
                  | inl (last, _) ↦
                      absurd (omega (arith, last, get_elem?-lt w.uploads j old, m.same_length))
                  | inr old_t ↦ m.fits j x t old old_t
                ]
        ];
      }

  Happens-Matched :
      IsStreaming K.digests → {w v : World K} → Happens K w v → Matched K w → Matched K v
  Happens-Matched streaming {w} (file_opened disk f tx now g h e) m =
      subst (Matched K) (sym e) (opened-Matched streaming w disk f tx now g h m)
  Happens-Matched streaming {w} (file_refused disk f tx now x h e) m =
      rw (e, new_file-refused K w.backbone disk f tx now x h) m
  Happens-Matched streaming {w} (guard_called i u c at is_open e) m = subst (Matched K) (sym e) (
      upload-Matched w i u (call_upload K u c) at (λ t. call_upload-Fit K streaming u t c is_open)
        m)
  Happens-Matched streaming {w} (guard_ended i u x at is_open e) m =
      subst (Matched K) (sym e)
        (upload-Matched w i u (end_upload K u x) at (λ t. end_upload-Fit K u t x is_open) m)
  Happens-Matched streaming {w} (handler_ran i u a b at hears p h e) m =
      subst (Matched K) (sym e) (handler-Matched w i u a b at hears h m)
  Happens-Matched streaming {w} (command_handled command rest c e) m =
      let same = handle_command-lifetimes K (record w.backbone { commands = rest }) command in
      subst (Matched K) (sym e) (record {
        same_length = m.same_length ∙ ap length (sym same);
        fits = λ j x t k l. m.fits j x t k (ap (λ ts. get_elem? ts j) (sym same) ∙ l);
      })

  pub Evolves-Matched :
      IsStreaming K.digests
      → {listens : Bool} {w : World K} → Evolves K (new_world K listens) w
      → Matched K w
  Evolves-Matched streaming begun = record { same_length = refl; fits = λ i u t k l. cc }
  Evolves-Matched streaming (after r h) = Happens-Matched streaming h (Evolves-Matched streaming r)

  -- A run of the world is a run of the backbone, whose handlers hear what they do.
  pub Evolves-Reach : {w v : World K} → Evolves K w v → Reach K w.backbone v.backbone
  Evolves-Reach begun = here
  Evolves-Reach (after r (file_opened disk f tx now g h e)) =
      next (Evolves-Reach r) (client_step disk f tx now (ap (λ x. x.backbone) e))
  Evolves-Reach (after r (file_refused disk f tx now x h e)) =
      next (Evolves-Reach r) (client_step disk f tx now (ap (λ x. x.backbone) e))
  Evolves-Reach {w} (after r (guard_called i u c at is_open e)) =
      subst (λ x. Reach K w.backbone x.backbone) (sym e) (Evolves-Reach r)
  Evolves-Reach {w} (after r (guard_ended i u x at is_open e)) =
      subst (λ x. Reach K w.backbone x.backbone) (sym e) (Evolves-Reach r)
  Evolves-Reach (after r (handler_ran i u a b at hears p h e)) =
      next (Evolves-Reach r) (handler_step i a p (h ∙ ap (λ x. some x.backbone) (sym e)))
  Evolves-Reach (after r (command_handled command rest c e)) =
      next (Evolves-Reach r) (loop_step command rest c (ap (λ x. x.backbone) e))

  pub lifetime-upload :
      (w : World K) (i : ℕ) (t : Lifetime K)
      → Matched K w
      → get_elem? w.backbone.lifetimes i ≡ some t
      → (u : Upload K) × (get_elem? w.uploads i ≡ some u) × Fit K u t
  lifetime-upload w i t m l =
      let (u, k) =
        get_elem?-of_lt w.uploads i
          (omega (arith, m.same_length, get_elem?-lt w.backbone.lifetimes i l)) in
      (u, k, m.fits i u t k l)

  pub upload-lifetime :
      (w : World K) (i : ℕ) (u : Upload K)
      → Matched K w
      → get_elem? w.uploads i ≡ some u
      → (t : Lifetime K) × (get_elem? w.backbone.lifetimes i ≡ some t) × Fit K u t
  upload-lifetime w i u m k =
      let (t, l) =
        get_elem?-of_lt w.backbone.lifetimes i
          (omega (arith, m.same_length, get_elem?-lt w.uploads i k)) in
      (t, l, m.fits i u t k l)
