-- ===== src/Server/Uploads/Bodies.antt =====
-- The upload that an answer of 201 leaves behind, and the body of its request.
use mathlib.Core.List.{append-nil, append_assoc}
use yeet_yoink.Common.{
  ℕ, ◌≡◌, refl, sym, ap, ◌∙◌, false, List, [], ◌∷◌, ◌++◌, some, Result, ok, arith,
}
use yeet_yoink.Crates.{Crates}
use yeet_yoink.Distribution.{WriteSummary}
use yeet_yoink.Backbone.Writer.{no_sync}
use yeet_yoink.Backbone.Guard.{FileWriterGuard, finalize}
use yeet_yoink.Backbone.Guard.Calls.{bytes_of, fed_by, taken_by}
use yeet_yoink.Backbone.Guard.Life.{GuardCall, finalizes, calls, finish, summary_of}
use yeet_yoink.Backbone.Table.{Backbone, NewFile}
use yeet_yoink.Backbone.World.{Upload, World, Evolves, begin_upload, call_upload, end_upload}
use yeet_yoink.Metrics.Transfer.{TransferMethod}
use yeet_yoink.Server.Http.{Response}
use yeet_yoink.Server.Yeet.{YeetBody, Clocks, created, do_yeet}
use yeet_yoink.Server.Yeet.Covers.{Covers}
use yeet_yoink.Server.Yeet.Feeds.{Feeds, take_stream-Feeds}
use yeet_yoink.Server.Yeet.Stored.{do_yeet-store, store-eq_created}
use yeet_yoink.Server.Yeet.Streams.{contents}
use yeet_yoink.Server.Uploads.{with_last, called, called-same, client-Evolves}

module _ (K : Crates) where
  called-fed : (u : Upload K) (cs : List GuardCall) → (called K u cs).fed ≡ u.fed ++ fed_by cs
  unfolding call_upload
  called-fed u [] = sym (append-nil u.fed)
  called-fed u (c ∷ cs) =
      called-fed (call_upload K u c) cs ∙ append_assoc u.fed (bytes_of c) (fed_by cs)

  -- The upload of `request`, closed: the file has taken the body from its calls, the bytes handed to
  -- them are the body or more, and the response carries the summary that `finalize` has returned.
  pub record KeepsBody (request : NewFile K) (body : List ℕ) (clocks : Clocks K)
      (response : Response (YeetBody K)) (u : Upload K) : Type 0 where
    pub same_request : u.request ≡ request
    pub is_closed : u.is_open ≡ false
    pub opened : FileWriterGuard K
    pub cs : List GuardCall
    pub ended : u.guard ≡ finish K (calls K opened cs) (finalizes no_sync clocks.completed)
    pub taken : taken_by K opened cs ≡ body
    pub fed : u.fed ≡ fed_by cs
    pub covers : Covers body u.fed
    pub s : WriteSummary
    pub returned : u.returned ≡ some s
    pub answer : response ≡ created K request.id s clocks

  -- A run of the world to the backbone `b` and such an upload.
  abbrev pub Brings :
      World K
      → List (Upload K)
      → NewFile K
      → List ℕ
      → Clocks K
      → Response (YeetBody K)
      → Backbone K
      → Type 0
  Brings start us request body clocks response b =
      (u : Upload K) × Evolves K start (with_last K b us u)
      × KeepsBody request body clocks response u

  ended-KeepsBody :
      (request : NewFile K) (tx : K.OneshotSender) (g g' : FileWriterGuard K) (body : List ℕ)
      (clocks : Clocks K) (s : WriteSummary) (response : Response (YeetBody K))
      → (f : Feeds K g g' body) → (finalize K g' no_sync clocks.completed).0 ≡ ok s
      → response ≡ created K request.id s clocks
      → KeepsBody request body clocks response (
          end_upload K
            (called K (begin_upload K request tx g) f.cs)
            (finalizes no_sync clocks.completed))
  unfolding end_upload summary_of
  ended-KeepsBody request tx g g' body clocks s response f finalized answer =
      let u = begin_upload K request tx g in
      let (same_guard, _, same_request) = called-same K u f.cs in
      let handed = called-fed u f.cs in
      record {
        same_request = same_request;
        is_closed = refl;
        opened = g;
        cs = f.cs;
        ended = ap (λ x. finish K x (finalizes no_sync clocks.completed)) same_guard;
        taken = f.took;
        fed = handed;
        covers = rw handed f.covers;
        s = s;
        returned = ground (arith, same_guard ∙ f.reached, finalized);
        answer = answer;
      }

  -- A run of `do_yeet` that answers 201, in a world that was reached from the start, is a run of the
  -- world that adds an upload for its request. This upload is closed, and its file has taken the
  -- bytes of the body from the writes, in their order and each once. What was handed to the writes
  -- is the body, or longer. The response carries the summary that `finalize` has returned.
  pub do_yeet-Brings :
      {start w : World K} (f : ℕ) (disk : K.Disk) (request : NewFile K) (tx : K.OneshotSender)
      (now : ℕ) (stream : List (Result K.BodyError (List ℕ))) (clocks : Clocks K)
      {response : Response (YeetBody K)} {g' : FileWriterGuard K} {b' : Backbone K}
      {m : List TransferMethod}
      → Evolves K start w
      → do_yeet K f w.backbone disk request tx now stream clocks ≡ some (response, some g', b', m)
      → response.status ≡ 201
      → Brings start w.uploads request (contents stream) clocks response b'
  do_yeet-Brings {start} {w} f disk request tx now stream clocks {response} {b' = b'} r h
        is_created =
      let (g, opened, stored, same) =
        do_yeet-store K f w.backbone disk request tx now stream clocks h in
      let (g1, s, took, finalized, answer) =
        store-eq_created K f w.backbone disk request tx now stream clocks g stored is_created in
      let fed = take_stream-Feeds K f g g1 stream took in
      (
        end_upload K (called K (begin_upload K request tx g) fed.cs)
            (finalizes no_sync clocks.completed),
        client-Evolves K disk request tx now g b' fed.cs (finalizes no_sync clocks.completed) r
            opened same,
        ended-KeepsBody request tx g g1 (contents stream) clocks s response fed finalized answer,
      )
