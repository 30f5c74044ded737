-- ===== src/Server/Uploads.antt =====
-- bins/server/src/handlers/yeet.rs as a client of the backbone: an upload is a run of the world.
pub mod Bodies
use mathlib.Core.Path.{subst}
use yeet_yoink.Common.{
  ℕ, ◌≡◌, refl, sym, ap, ◌∙◌, ◌⊎◌, true, false, List, [], ◌∷◌, ◌++◌, none, some, Result, ok, length,
  set, set-last, get_elem?-last,
}
use yeet_yoink.Crates.{Crates}
use yeet_yoink.Distribution.{WriteSummary}
use yeet_yoink.Backbone.Guard.{FileWriterGuard}
use yeet_yoink.Backbone.Guard.Life.{GuardCall, Ending, calls, finish, summary_of}
use yeet_yoink.Backbone.Table.{Backbone, NewFile, new_file}
use yeet_yoink.Backbone.World.{
  Upload, begin_upload, call_upload, end_upload, World, file_opened, guard_called, guard_ended,
  Evolves, after,
}
use yeet_yoink.Metrics.Transfer.{TransferMethod}
use yeet_yoink.Server.Http.{Response}
use yeet_yoink.Server.Yeet.{YeetBody, Clocks, created, do_yeet}
use yeet_yoink.Server.Yeet.Outcome.{Ends, store-Ends}
use yeet_yoink.Server.Yeet.Stored.{do_yeet-store}

module _ (K : Crates) where
  -- The world whose last upload is `u`.
  abbrev pub with_last : Backbone K → List (Upload K) → Upload K → World K
  with_last b us u = record { backbone = b; uploads = us ++ u ∷ [] }

  last-moves :
      (b : Backbone K) (us : List (Upload K)) (u v : Upload K)
      → with_last b us v ≡ record (with_last b us u) { uploads = set (us ++ u ∷ []) (length us) v }
  last-moves b us u v = ap (λ xs. record { backbone = b; uploads = xs }) (sym (set-last us u v))

  abbrev called : Upload K → List GuardCall → Upload K
  called u [] = u
  called u (c ∷ cs) = called (call_upload K u c) cs

  -- The calls of a client, one step each.
  calls-Evolves :
      {start : World K} (b : Backbone K) (us : List (Upload K)) (u : Upload K) (cs : List GuardCall)
      → u.is_open ≡ true
      → Evolves K start (with_last b us u)
      → Evolves K start (with_last b us (called u cs))
  unfolding call_upload
  calls-Evolves b us u [] is_open r = r
  calls-Evolves b us u (c ∷ cs) is_open r =
      let v = call_upload K u c in
      calls-Evolves b us v cs is_open
        (after r (guard_called (length us) u c (get_elem?-last us u) is_open (last-moves b us u v)))

  called-same :
      (u : Upload K) (cs : List GuardCall)
      → ((called u cs).guard ≡ calls K u.guard cs)
        × ((called u cs).is_open ≡ u.is_open)
        × ((called u cs).request ≡ u.request)
  unfolding call_upload calls
  called-same u [] = (refl, refl, refl)
  called-same u (c ∷ cs) = called-same (call_upload K u c) cs

  -- A client that opens a file, makes some calls and ends its guard.
  client-Evolves :
      {start w : World K} (disk : K.Disk) (request : NewFile K) (tx : K.OneshotSender) (now : ℕ)
      (g : FileWriterGuard K) (b' : Backbone K) (cs : List GuardCall) (e : Ending)
      → Evolves K start w
      → (new_file K w.backbone disk request tx now).0 ≡ ok g
      → b' ≡ (new_file K w.backbone disk request tx now).1
      → Evolves K start
          (with_last b' w.uploads (end_upload K (called (begin_upload K request tx g) cs) e))
  client-Evolves {start} {w} disk request tx now g b' cs e r opened same =
      let u = begin_upload K request tx g in
      let (_, is_open, _) = called-same u cs in
      let begins : Evolves K start (with_last b' w.uploads u) =
        after r
          (file_opened disk request tx now g opened (ap (λ b. with_last b w.uploads u) same)) in
      after (calls-Evolves b' w.uploads u cs refl begins) (
        guard_ended (length w.uploads) (called u cs) e (get_elem?-last w.uploads (called u cs))
          is_open (last-moves b' w.uploads (called u cs) (end_upload K (called u cs) e)))

  -- The upload at the end of its handler: its guard is gone, and the response says what `finalize`
  -- has returned.
  pub record Handled (id : K.ShortGuid) (clocks : Clocks K) (response : Response (YeetBody K))
      (g : FileWriterGuard K) (u : Upload K) : Type 0 where
    pub guard : u.guard ≡ g
    pub is_closed : u.is_open ≡ false
    pub same_id : u.request.id ≡ id
    pub answer :
        ((u.returned ≡ none) × (response.status ≡ 500))
        ⊎ ((s : WriteSummary) × (u.returned ≡ some s) × (response ≡ created K id s clocks))

  ended-Handled :
      (id : K.ShortGuid) (clocks : Clocks K) (response : Response (YeetBody K))
      (g g' : FileWriterGuard K) (u : Upload K)
      → (ends : Ends K id clocks g g' response) → u.guard ≡ ends.before
      → u.request.id ≡ id
      → Handled id clocks response g' (end_upload K u ends.ending)
  unfolding end_upload
  ended-Handled id clocks response g g' u ends same same_id = record {
    guard = ap (λ x. finish K x ends.ending) same ∙ ends.is_end;
    is_closed = refl;
    same_id = same_id;
    answer =
        subst
          (λ x.
            ((summary_of K x ends.ending ≡ none) × (response.status ≡ 500))
            ⊎ ((s : WriteSummary) × (summary_of K x ends.ending ≡ some s)
                × (response ≡ created K id s clocks)))
          (sym same) ends.answer;
  }

  -- A run of the world to the backbone `b` and one more upload.
  abbrev pub Adds :
      World K
      → List (Upload K)
      → K.ShortGuid
      → Clocks K
      → Response (YeetBody K)
      → FileWriterGuard K
      → Backbone K
      → Type 0
  Adds start us id clocks response g b =
      (u : Upload K) × Evolves K start (with_last b us u) × Handled id clocks response g u

  -- An upload is a client of the backbone: a run of `do_yeet` that gets a guard is a sequence of
  -- steps of the world, in which a file is opened, its guard is written to and synced, and then
  -- dropped or finalized. The run adds one upload. If its `finalize` has returned a summary, the
  -- response is 201 with that summary, and otherwise it is 500.
  pub do_yeet-Adds :
      {start w : World K} (f : ℕ) (disk : K.Disk) (request : NewFile K) (tx : K.OneshotSender)
      (now : ℕ) (stream : List (Result K.BodyError (List ℕ))) (clocks : Clocks K)
      {response : Response (YeetBody K)} {g' : FileWriterGuard K} {b' : Backbone K}
      {m : List TransferMethod}
      → Evolves K start w
      → do_yeet K f w.backbone disk request tx now stream clocks ≡ some (response, some g', b', m)
      → Adds start w.uploads request.id clocks response g' b'
  do_yeet-Adds {start} {w} f disk request tx now stream clocks {response} {g'} {b'} r h =
      let (g, opened, stored, same) =
        do_yeet-store K f w.backbone disk request tx now stream clocks h in
      let ends = store-Ends K f request.id g g' stream clocks response stored in
      let (cs, reached) = ends.reached in
      let u = begin_upload K request tx g in
      let (same_guard, _, same_request) = called-same u cs in
      (
        end_upload K (called u cs) ends.ending,
        client-Evolves disk request tx now g b' cs ends.ending r opened same,
        ended-Handled request.id clocks response g g' (called u cs) ends (same_guard ∙ reached)
            (ap (λ q. q.id) same_request),
      )
