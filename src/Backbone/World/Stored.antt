-- ===== src/Backbone/World/Stored.antt =====
-- The summaries that leave the backbone, to readers and to the backends, and the uploads behind them.
use mathlib.Core.Path.{subst}
use yeet_yoink.Common.{
  ℕ, ◌≡◌, sym, ap, ◌∙◌, inl, inr, Bool, List, [], ◌∷◌, some, ok, arith, get_elem?, Option-cases,
  Result-cases, Bool-cases,
}
use yeet_yoink.Common.Dict.{lookup}
use yeet_yoink.Crates.{Crates, IsStreaming}
use yeet_yoink.Distribution.{WriteSummary}
use yeet_yoink.Backend.{distribute_file, send}
use yeet_yoink.Backbone.Reader.{FileReader}
use yeet_yoink.Backbone.Record.{
  Lifetime, Answer, BackboneCommand, remove_writer, ready_for_distribution, get_reader,
}
use yeet_yoink.Backbone.Table.{Backbone, get_file, open_entry, handle_command}
use yeet_yoink.Backbone.Table.Opens.{new_file-registered, new_file-refused}
use yeet_yoink.Backbone.System.{run_handler, run_handler-eq_some}
use yeet_yoink.Backbone.System.Entries.{Linked, Reach-Linked}
use yeet_yoink.Backbone.World.{
  Upload, World, Hears, Happens, file_opened, file_refused, guard_called, guard_ended, handler_ran,
  command_handled, Evolves, begun, after, new_world,
}
use yeet_yoink.Backbone.World.Guards.{Approved}
use yeet_yoink.Backbone.World.Vouches.{Vouches, Happens-Vouches}
use yeet_yoink.Backbone.World.Handlers.{
  InCommands, InCommands-append, InCommands-map, AtBackend, AtBackend-append, AtBackend-map,
  AtBackend-get, Backs-summary,
}
use yeet_yoink.Backbone.World.Matched.{Matched, lifetime_handler-Sends}
use yeet_yoink.Backbone.World.Evolving.{Evolves-Matched, Evolves-Reach, lifetime-upload}

module _ (K : Crates) where
  -- Every announcement, in the channel or at the backends.
  abbrev Announces : List (Upload K) → Backbone K → Type 0
  Announces us b =
      InCommands K (Vouches K us) b.commands × AtBackend K (Vouches K us) b.backend_sender.passed

  Announces-map :
      (us vs : List (Upload K)) (b : Backbone K)
      → ((id : K.ShortGuid) (s : WriteSummary) → Vouches K us id s → Vouches K vs id s)
      → Announces us b
      → Announces vs b
  Announces-map us vs b f (h, k) = (
    InCommands-map K (Vouches K us) (Vouches K vs) f b.commands h,
    AtBackend-map K (Vouches K us) (Vouches K vs) f b.backend_sender.passed k,
  )

  handle_command-Announces :
      (us : List (Upload K)) (b : Backbone K) (command : BackboneCommand K)
      (rest : List (BackboneCommand K))
      → b.commands ≡ command ∷ rest
      → Announces us b
      → Announces us (handle_command K (record b { commands = rest }) command)
  unfolding handle_command send
  handle_command-Announces us b (remove_writer id) rest e (h, k) =
      (subst (InCommands K (Vouches K us)) e h, k)
  handle_command-Announces us b (ready_for_distribution id s) rest e (h, k) =
      let (x, later) = subst (InCommands K (Vouches K us)) e h in
      elim (Bool-cases b.backend_sender.listens) [
        | inl listens ↦ rw listens (
          later,
          AtBackend-append K (Vouches K us) b.backend_sender.passed (distribute_file id s ∷ []) k
              (x, tt),
        )
        | inr deaf ↦ rw deaf (later, k)
      ]

  handler-Announces :
      (w : World K) (i : ℕ) (u : Upload K) (a : Answer) (b : Backbone K)
      → Matched K w
      → get_elem? w.uploads i ≡ some u
      → Hears K u a
      → run_handler K w.backbone i a ≡ some b
      → Announces w.uploads w.backbone
      → Announces w.uploads b
  handler-Announces w i u a b m at hears h (x, y) =
      let (t, t', cs, k, g, same) = run_handler-eq_some K w.backbone i a h in
      let f = m.fits i u t at k in
      let vouched =
        InCommands-map K (λ id s. (id ≡ t.id) × Approved K u s) (Vouches K w.uploads)
          (λ id s (e, approved). record {
            place = i;
            upload = u;
            is_there = at;
            same_id = sym (e ∙ f.same_id);
            approved = approved;
          })
          cs (lifetime_handler-Sends K u t t' a cs g hears f) in
      subst (Announces w.uploads) (sym same)
        (InCommands-append K (Vouches K w.uploads) w.backbone.commands cs x vouched, y)

  Happens-Announces :
      {w v : World K}
      → Matched K w
      → Happens K w v
      → Announces w.uploads w.backbone
      → Announces v.uploads v.backbone
  Happens-Announces {w} {v} m h a =
      Announces-map w.uploads v.uploads v.backbone (λ id s. Happens-Vouches K id s h) (moved h)
    where
      moved : Happens K w v → Announces w.uploads v.backbone
      moved (file_opened disk f tx now g x e) =
          let (file, _, added) = new_file-registered K w.backbone disk f tx now g x in
          subst (λ b. Announces w.uploads b) (sym (ap (λ y. y.backbone) e ∙ added)) a
      moved (file_refused disk f tx now y x e) =
          rw (e, new_file-refused K w.backbone disk f tx now y x) a
      moved (guard_called i u c at is_open e) = rw e a
      moved (guard_ended i u y at is_open e) = rw e a
      moved (handler_ran i u y b at hears p x e) = rw e (handler-Announces w i u y b m at hears x a)
      moved (command_handled command rest c e) =
          rw e (handle_command-Announces w.uploads w.backbone command rest c a)

  Evolves-Announces :
      IsStreaming K.digests
      → {listens : Bool} {w : World K} → Evolves K (new_world K listens) w
      → Announces w.uploads w.backbone
  Evolves-Announces streaming begun = (tt, tt)
  Evolves-Announces streaming (after r h) =
      Happens-Announces (Evolves-Matched K streaming r) h (Evolves-Announces streaming r)

  -- If the digests are those of a stream, then in every run in which each lifetime handler hears
  -- what its own guard has sent, each file that the backends were told of belongs to an upload of
  -- that id whose `finalize` has returned the very summary that they were told. It has the size and
  -- both digests of the bytes that the client handed to its writes, and the MD5 digest that the
  -- request announced, if it did.
  pub Evolves-Vouches :
      IsStreaming K.digests
      → {listens : Bool} {w : World K} → Evolves K (new_world K listens) w
      → (j : ℕ) (id : K.ShortGuid) (s : WriteSummary)
      → get_elem? w.backbone.backend_sender.passed j ≡ some (distribute_file id s)
      → Vouches K w.uploads id s
  Evolves-Vouches streaming {w = w} r j id s e =
      AtBackend-get K (Vouches K w.uploads) w.backbone.backend_sender.passed j id s
        (Evolves-Announces streaming r).1 e

  -- A reader that carries a summary was opened for an entry whose lifetime keeps it.
  get_file-summary :
      (b : Backbone K) (disk : K.Disk) (id : K.ShortGuid) (f : FileReader K) (s : WriteSummary)
      → Linked K b
      → get_file K b disk id ≡ some (ok f)
      → f.summary ≡ some s
      → (i : ℕ) × (t : Lifetime K) × (get_elem? b.lifetimes i ≡ some t)
        × (t.id ≡ id)
        × (t.inner.summary ≡ some s)
  unfolding get_file open_entry
  get_file-summary b disk id f s links h e =
      elim (Option-cases (lookup K.guid_eq id b.open_files)) [
        | inl k ↦ absurd (ground arith)
        | inr (r, k) ↦
            let (t, at, same, _) = links id r k in
            elim (Result-cases (get_reader K disk r t.inner)) [
              | inr (x, g) ↦ absurd (ground arith)
              | inl (reader, g) ↦ (r.inner, t, at, same, ground arith)
            ]
      ]

  -- Likewise each reader that `get_file` hands out with a summary: the summary is the one that
  -- `finalize` has returned to an upload of that id, and it has the size and both digests of the
  -- bytes that the client handed to its writes, and the MD5 digest that the request announced.
  pub get_file-Vouches :
      IsStreaming K.digests
      → {listens : Bool} {w : World K} → Evolves K (new_world K listens) w
      → (disk : K.Disk) (id : K.ShortGuid) (f : FileReader K) (s : WriteSummary)
      → get_file K w.backbone disk id ≡ some (ok f)
      → f.summary ≡ some s
      → Vouches K w.uploads id s
  get_file-Vouches streaming {w = w} r disk id f s h e =
      let links = Reach-Linked K (Evolves-Reach K r) in
      let (i, t, l, same, kept) = get_file-summary w.backbone disk id f s links h e in
      let (u, k, fit) = lifetime-upload K w i t (Evolves-Matched K streaming r) l in
      record {
        place = i;
        upload = u;
        is_there = k;
        same_id = sym fit.same_id ∙ same;
        approved = Backs-summary K (Approved K u) t s fit.backed kept;
      }
