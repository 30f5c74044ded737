-- ===== src/Server/Exchange.antt =====
-- An upload through bins/server/src/handlers/yeet.rs and the downloads of its file through yoink.rs.
use mathlib.Core.Path.{subst}
use yeet_yoink.Common.{
  ℕ, ◌≡◌, refl, ap, sym, ◌∙◌, ◌⊎◌, inl, inr, true, Bool, List, [], ◌∷◌, some, Result, ok, err,
  arith, length, get_elem?, get_elem?-last,
}
use yeet_yoink.Crates.{Crates, IsAppending, IsStreaming, IsFresh}
use yeet_yoink.Distribution.{WriteSummary, file_error}
use yeet_yoink.Backbone.Writer.{no_sync}
use yeet_yoink.Backbone.Writer.Hashes.{Describes}
use yeet_yoink.Backbone.Guard.{FileWriterGuard, success}
use yeet_yoink.Backbone.Guard.Signal.{finalize-sent}
use yeet_yoink.Backbone.Reader.{FileReader}
use yeet_yoink.Backbone.Record.{Lifetime, leasing, received, new_record}
use yeet_yoink.Backbone.Table.{Backbone, NewFile, new, new_file, temporal_lease}
use yeet_yoink.Backbone.Table.Opens.{new_file-Opened, new_file-registered}
use yeet_yoink.Backbone.System.{Reach, here, next, client_step, handler_step, run_handler}
use yeet_yoink.Backbone.System.Links.{Reach-Owned}
use yeet_yoink.Backbone.System.Followed.{
  Followed, IsOfUpload, IsTold, Keeps, Reach-Followed, turn-IsOfUpload, turn-IsTold,
  run_handler-IsTold,
}
use yeet_yoink.Backbone.Contract.{status, parts_status}
use yeet_yoink.Backbone.Contract.Changes.{status-some}
use yeet_yoink.Backbone.Contract.Answers.{Meets, get_file-Meets}
use yeet_yoink.Metrics.Transfer.{TransferMethod}
use yeet_yoink.Server.Http.{Response}
use yeet_yoink.Server.Yeet.{YeetBody, take_stream, store, do_yeet}
use yeet_yoink.Server.Yeet
use yeet_yoink.Backbone.Guard.Calls.{fed_by}
use yeet_yoink.Server.Yeet.Feeds.{Feeds}
use yeet_yoink.Server.Yeet.Streams.{contents}
use yeet_yoink.Server.Yeet.Outcome.{take_stream-IsUnfinished}
use yeet_yoink.Server.Yeet.Stored.{do_yeet-store, do_yeet-Stores}
use yeet_yoink.Server.Yoink.{
  YoinkBody, stream, file_headers, map_file_reader_error_to_response, respond, do_yoink,
}
use yeet_yoink.Server.Yoink

module _ (K : Crates) where
  -- Runs of the backbone compose.
  Reach-trans : {a b c : Backbone K} → Reach K a b → Reach K b c → Reach K a c
  Reach-trans r here = r
  Reach-trans r (next q step) = next (Reach-trans r q) step

  -- The download of `file`, under `id`: its reader, with the headers for the summary `s`, or 500.
  abbrev pub Downloads :
      Backbone K → K.Disk → K.ShortGuid → Yoink.Clocks K → K.TempFile → WriteSummary → Type 0
  Downloads b disk id clocks file s =
      ((reader : K.Reader) × (f : FileReader K) × (K.open_reader disk file ≡ ok reader)
        × (f.inner ≡ reader)
        × (f.summary ≡ some s)
        × (do_yoink K b disk id clocks
            ≡ some (
              record { status = 200; headers = file_headers K id f clocks; body = stream f },
              TransferMethod.fetch ∷ [],
            )))
      ⊎ ((e : K.TempfileError) × (K.open_reader disk file ≡ err e)
          × (do_yoink K b disk id clocks
              ≡ some (map_file_reader_error_to_response K (file_error id e), [])))

  -- A lifetime with a lease and this summary: its file is handed out.
  leased-Downloads :
      {listens : Bool} {b : Backbone K}
      → Reach K (new K listens) b
      → (i : ℕ) (id : K.ShortGuid) (file : K.TempFile) (s : WriteSummary) (t : Lifetime K)
        (deadline : ℕ)
      → get_elem? b.lifetimes i ≡ some t
      → t.phase ≡ leasing deadline
      → t.id ≡ id
      → t.inner.file ≡ some file
      → t.inner.summary ≡ some s
      → (disk : K.Disk) (clocks : Yoink.Clocks K) → Downloads b disk id clocks file s
  unfolding do_yoink
  leased-Downloads {b = b} reach i id file s t deadline k leased same has_file has_summary disk
        clocks =
      let (r, found, at) = Reach-Owned K reach i t k (rw leased refl) in
      let here_now : get_elem? b.lifetimes r.inner ≡ some t = ap (get_elem? b.lifetimes) at ∙ k in
      let kept : status K b id ≡ parts_status K (some file) (some s) =
        ap (status K b) (sym same)
        ∙ status-some K b t.id r t found here_now
        ∙ ap (λ o. parts_status K o t.inner.summary) has_file
        ∙ ap (parts_status K (some file)) has_summary in
      elim (subst (Meets K b disk id) kept (get_file-Meets K reach disk id)) [
        | inl (reader, f, opened, got, is_reader, with_summary) ↦
            inl (reader, f, opened, is_reader, with_summary, ap (respond K id clocks) got)
        | inr (e, broken, got) ↦ inr (e, broken, ap (respond K id clocks) got)
      ]

  module _ (f : ℕ) (b : Backbone K) (disk : K.Disk) (request : NewFile K) (tx : K.OneshotSender)
      (now : ℕ) (chunks : List (Result K.BodyError (List ℕ))) (clocks : Yeet.Clocks K) where
    -- The state in which the upload leaves the backbone: its lifetime is the last one.
    do_yeet-Followed :
        {response : Response (YeetBody K)} {g' : FileWriterGuard K} {b' : Backbone K}
        {m : List TransferMethod}
        → do_yeet K f b disk request tx now chunks clocks ≡ some (response, some g', b', m)
        → (file : K.TempFile) × (K.new_with_uuid disk (K.uuid_of request.id) ≡ ok file)
          × Reach K b b'
          × Followed K (IsOfUpload K request.id file) (length b.lifetimes) b'
    do_yeet-Followed {b' = b'} h =
        let (g, opened, _, same) = do_yeet-store K f b disk request tx now chunks clocks h in
        let (file, made, added) = new_file-registered K b disk request tx now g opened in
        let t : Lifetime K =
          (new_record K (length b.lifetimes) request.id file temporal_lease request.content_type
            now).1 in
        (
          file,
          made,
          next here (client_step disk request tx now same),
          subst (Followed K (IsOfUpload K request.id file) (length b.lifetimes))
              (sym (same ∙ added)) (t, get_elem?-last b.lifetimes t, (refl, λ _. refl)),
        )

    -- The summary describes the bytes that were handed to the guard for these chunks.
    abbrev pub DescribesHanded : WriteSummary → Type 0
    DescribesHanded s =
        (g : FileWriterGuard K) × (g' : FileWriterGuard K) × ((new_file K b disk request tx now).0
          ≡ ok g)
        × (feeds : Feeds K g g' (contents chunks)) × Describes K s (fed_by feeds.cs)

    module _ (A : IsAppending K.files) (streaming : IsStreaming K.digests)
        (fresh : IsFresh K.files A) (alive : (tx : K.OneshotSender) → K.delivers tx ≡ true) where
      -- The summary that was sent is that of the bytes that were handed over.
      sent-Describes :
          {response : Response (YeetBody K)} {g' : FileWriterGuard K} {b' : Backbone K}
          {m : List TransferMethod}
          → do_yeet K f b disk request tx now chunks clocks ≡ some (response, some g', b', m)
          → response.status ≡ 201
          → (s : WriteSummary) → g'.sent ≡ success s ∷ []
          → DescribesHanded s
      unfolding store
      sent-Describes {response} {g'} h is_created s told =
          let v =
            do_yeet-Stores K f b disk request tx now chunks clocks A streaming fresh h is_created in
          let (g, opened, stored, _) = do_yeet-store K f b disk request tx now chunks clocks h in
          let o = new_file-Opened K b disk request tx now v.opened v.is_opened in
          let u =
            take_stream-IsUnfinished K f v.opened v.g chunks (ok tt)
              (rw o.is_new (inl (tx, refl, refl))) v.took in
          let same_guard : g ≡ v.opened = ground (arith, opened, v.is_opened) in
          let stored' =
            subst (λ x. store K f request.id x chunks clocks ≡ some (response, g')) same_guard
              stored in
          let same : v.s ≡ s = ground (
            arith,
            told,
            stored',
            v.took,
            v.finalized,
            finalize-sent K alive v.g no_sync clocks.completed u,
          ) in
          (
            v.opened,
            v.g,
            v.is_opened,
            v.feeds,
            subst (λ x. Describes K x (fed_by v.feeds.cs)) same v.describes,
          )

      -- If a successful write appends the part of its chunk that it takes, a new file is empty, the
      -- digests are those of a stream however it is cut, and messages are delivered: an upload that
      -- was answered with 201, whose message the lifetime handler has taken, whatever else the
      -- backbone did before and does after that, is handed out while its lease lasts. The answer to
      -- a download is 200 with the reader that the disk opens for the file of this upload, and
      -- headers for the summary with the size and both digests of what was handed to the writes,
      -- which are the bytes that came in, or more of them; or 500 if the disk opens none.
      pub do_yeet-do_yoink :
          {listens : Bool}
          → Reach K (new K listens) b
          → {response : Response (YeetBody K)} {g' : FileWriterGuard K} {b' : Backbone K}
            {m : List TransferMethod}
          → do_yeet K f b disk request tx now chunks clocks ≡ some (response, some g', b', m)
          → response.status ≡ 201
          → (s : WriteSummary) → g'.sent ≡ success s ∷ []
          → (c c' d : Backbone K) → Reach K b' c
          → run_handler K c (length b.lifetimes) (received (ok (success s))) ≡ some c'
          → Reach K c' d
          → (t : Lifetime K) (deadline : ℕ) → get_elem? d.lifetimes (length b.lifetimes) ≡ some t
          → t.phase ≡ leasing deadline
          → (at : K.Disk) (readings : Yoink.Clocks K)
          → DescribesHanded s
            × ((file : K.TempFile) × (K.new_with_uuid disk (K.uuid_of request.id) ≡ ok file)
                × Downloads d at request.id readings file s)
      do_yeet-do_yoink reach h is_created s told c c' d q taken q' t deadline k leased at readings =
          let (file, made, begins, upload) = do_yeet-Followed h in
          let i : ℕ = length b.lifetimes in
          let waiting =
            Reach-Followed K (IsOfUpload K request.id file) i (turn-IsOfUpload K request.id file) q
              upload in
          let (u, at_i, (same, kept)) =
            Reach-Followed K (IsTold K request.id file s) i (turn-IsTold K request.id file s) q'
              (run_handler-IsTold K request.id file s i c c' taken waiting) in
          let is_last : u ≡ t = ground (arith, at_i, k) in
          let (has_file, has_summary) : Keeps K request.id file s t.inner (leasing deadline) =
            subst (Keeps K request.id file s t.inner) leased
              (subst (λ v. Keeps K request.id file s v.inner v.phase) is_last kept) in
          let reached =
            Reach-trans
              (next (Reach-trans (Reach-trans reach begins) q)
                (handler_step i (received (ok (success s))) tt taken))
              q' in
          (
            sent-Describes h is_created s told,
            (
              file,
              made,
              leased-Downloads reached i request.id file s t deadline k leased
                  (ap (λ v. v.id) (sym is_last) ∙ same) has_file has_summary at readings,
            ),
          )
