-- ===== src/Server/Yeet/Stored.antt =====
-- `do_yeet` as a whole.
use mathlib.Core.Path.{subst}
use yeet_yoink.Common.{
  ℕ, ◌+◌, ◌%◌, [], ◌∷◌, ◌≡◌, refl, sym, ◌⊎◌, inl, inr, true, List, none, some, Result, ok, err,
  arith, length, Result-cases, Option-cases, word,
}
use yeet_yoink.Crates.{Crates, IsAppending, IsStreaming, IsFresh}
use yeet_yoink.Distribution.{WriteSummary}
use yeet_yoink.Backbone.Writer.{no_sync}
use yeet_yoink.Backbone.Writer
use yeet_yoink.Backbone.Writer.Hashes.{Describes, new-Digested, finalize-eq-ok}
use yeet_yoink.Backbone.Guard.{FileWriterGuard, success, failed}
use yeet_yoink.Backbone.Guard
use yeet_yoink.Backbone.Guard.Accept.{finalize-ok_iff}
use yeet_yoink.Backbone.Guard.Bytes.{Holds, Hashes, new-Holds, finalize-Hashes}
use yeet_yoink.Backbone.Table.{Backbone, NewFile, temporal_lease, new_file}
use yeet_yoink.Backbone.Table.Opens.{new_file-Opened}
use yeet_yoink.Metrics.Transfer.{TransferMethod}
use yeet_yoink.Server.Http.{Response, expiration_as_rfc1123}
use yeet_yoink.Distribution.Hash.{zeros}
use yeet_yoink.Server.Yeet.{YeetBody, json, Clocks, take_stream, store, created, do_yeet}
use yeet_yoink.Server.Yeet.Streams.{contents, take_stream-Holds, take_stream-Announces}
use yeet_yoink.Backbone.Guard.Calls.{fed_by, calls-Hashes}
use yeet_yoink.Server.Yeet.Feeds.{Feeds, take_stream-Feeds}
use yeet_yoink.Server.Yeet.Outcome.{Agrees, store-Agrees}

module _ (K : Crates) (f : ℕ) (b : Backbone K) (disk : K.Disk) (request : NewFile K)
    (tx : K.OneshotSender) (now : ℕ) (stream : List (Result K.BodyError (List ℕ)))
    (clocks : Clocks K) where
  pub do_yeet-store :
      {response : Response (YeetBody K)} {g' : FileWriterGuard K} {b' : Backbone K}
      {m : List TransferMethod}
      → do_yeet K f b disk request tx now stream clocks ≡ some (response, some g', b', m)
      → (g : FileWriterGuard K) × ((new_file K b disk request tx now).0 ≡ ok g)
        × (store K f request.id g stream clocks ≡ some (response, g'))
        × (b' ≡ (new_file K b disk request tx now).1)
  unfolding do_yeet
  do_yeet-store h = elim (Result-cases (new_file K b disk request tx now).0) [
    | inr (e, x) ↦ absurd (ground arith)
    | inl (g, x) ↦ elim (Option-cases (store K f request.id g stream clocks)) [
      | inl y ↦ absurd (ground arith)
      | inr ((r, g2), y) ↦ (g, x, ground arith, ground arith)
    ]
  ]

  -- When an upload that got a guard ends, the response and the one message to the backbone agree: 201
  -- with the data of a summary and `Success` with that summary, or 500 and `Failed`; provided that
  -- the receiver of the message is there.
  pub do_yeet-Agrees :
      ((tx : K.OneshotSender) → K.delivers tx ≡ true)
      → {response : Response (YeetBody K)} {g' : FileWriterGuard K} {b' : Backbone K}
        {m : List TransferMethod}
      → do_yeet K f b disk request tx now stream clocks ≡ some (response, some g', b', m)
      → Agrees K request.id clocks response g'
  do_yeet-Agrees alive {response} {g'} h =
      let (g, opened, stored, _) = do_yeet-store h in
      let o = new_file-Opened K b disk request tx now g opened in
      store-Agrees K alive f request.id g g' stream clocks response
        (rw o.is_new (inl (tx, refl, refl))) stored

  -- The response 201 of an upload of which the bytes `fed` were handed over.
  pub record Carries (fed : List ℕ) (expires : ℕ) (response : Response (YeetBody K)) : Type 0 where
    pub status : response.status ≡ 201
    pub headers :
        response.headers
        ≡ ("expires", expiration_as_rfc1123 K expires clocks.instant_now clocks.system_now)
          ∷ ("yy-id", K.guid_text request.id)
          ∷ []
    pub body :
        response.body
        ≡ json (record {
          id = request.id;
          file_size_bytes = length fed % word;
          hashes = record {
            md5 = K.hex_encode (K.md5_compute (K.md5_consume K.md5_new fed));
            sha256 = K.hex_encode (K.sha_finalize_into (K.sha_update K.sha_new fed) (zeros 32));
          };
        })

  -- What an upload with the answer 201 has done: `g` took the whole stream and holds its bytes, and
  -- the summary `s` and the response are those of the bytes that were handed to its writes.
  pub record Stores (A : IsAppending K.files) (response : Response (YeetBody K)) : Type 0 where
    pub opened : FileWriterGuard K
    pub g : FileWriterGuard K
    pub s : WriteSummary
    pub is_opened : (new_file K b disk request tx now).0 ≡ ok opened
    pub took : take_stream K f opened stream ≡ some (ok tt, g)
    pub finalized : (Guard.finalize K g no_sync clocks.completed).0 ≡ ok s
    pub answer : response ≡ created K request.id s clocks
    pub feeds : Feeds K opened g (contents stream)
    pub describes : Describes K s (fed_by feeds.cs)
    pub carries : Carries (fed_by feeds.cs) (clocks.completed + temporal_lease) response
    pub holds : Holds K A g (contents stream)
    pub length_fits :
        (request.expected_size ≡ none)
        ⊎ (request.expected_size ≡ some (length (contents stream) % word))
    pub md5_fits :
        (request.content_md5 ≡ none)
        ⊎ (request.content_md5 ≡ some (K.md5_compute (K.md5_consume K.md5_new (fed_by feeds.cs))))

  created-Carries :
      (s : WriteSummary) (fed : List ℕ) {response : Response (YeetBody K)}
      → response ≡ created K request.id s clocks
      → Describes K s fed
      → s.expires ≡ clocks.completed + temporal_lease
      → Carries fed (clocks.completed + temporal_lease) response
  created-Carries s fed answer d expires = rw answer (record {
    status = refl;
    headers = rw expires refl;
    body = rw (d.md5, d.sha256, d.size) refl;
  })

  pub store-eq_created :
      (g : FileWriterGuard K) {response : Response (YeetBody K)} {g' : FileWriterGuard K}
      → store K f request.id g stream clocks ≡ some (response, g')
      → response.status ≡ 201
      → (g1 : FileWriterGuard K) × (s : WriteSummary) × (take_stream K f g stream
          ≡ some (ok tt, g1))
        × ((Guard.finalize K g1 no_sync clocks.completed).0 ≡ ok s)
        × (response ≡ created K request.id s clocks)
  unfolding store
  store-eq_created g h is_created = elim (Option-cases (take_stream K f g stream)) [
    | inl e ↦ absurd (ground arith)
    | inr ((err x, g1), e) ↦ absurd (ground arith)
    | inr ((ok _, g1), e) ↦ elim (Result-cases (Guard.finalize K g1 no_sync clocks.completed).0) [
      | inl (s, x) ↦ (g1, s, e, x, ground arith)
      | inr (y, x) ↦ absurd (ground arith)
    ]
  ]

  module _ (A : IsAppending K.files) (streaming : IsStreaming K.digests)
      (fresh : IsFresh K.files A) where
    -- If a successful write appends the part of its chunk that it takes, a new file is empty, and the
    -- digests are those of a stream however it is cut: an upload that is answered with 201 has
    -- stored exactly the bytes of its stream in the file, and the length that the request announced
    -- is theirs. The id and the expiry in the response are those of the upload. The size and both
    -- digests in it, the summary, and the MD5 digest that the request announced are of the bytes
    -- that were handed to the writes. These are the bytes of the stream, or more than them, as a
    -- write that takes a part of its chunk is followed by one of the rest. Sizes are those of 64-bit
    -- words.
    pub do_yeet-Stores :
        {response : Response (YeetBody K)} {g' : FileWriterGuard K} {b' : Backbone K}
        {m : List TransferMethod}
        → do_yeet K f b disk request tx now stream clocks ≡ some (response, some g', b', m)
        → response.status ≡ 201
        → Stores A response
    do_yeet-Stores h is_created =
        let (g, opened, stored, _) = do_yeet-store h in
        let o = new_file-Opened K b disk request tx now g opened in
        let (g1, s, took, finalized, answer) = store-eq_created g stored is_created in
        let writer = Writer.new K o.writer request.file_name in
        let empty =
          fresh.written_new disk (K.uuid_of request.id) o.file o.writer o.created o.opened in
        let took' = subst (λ x. take_stream K f x stream ≡ some (ok tt, g1)) o.is_new took in
        let held =
          take_stream-Holds K A f _ g1 [] stream
            (new-Holds K A writer tx temporal_lease request.expected_size request.content_md5 empty)
            took' in
        let feeds = take_stream-Feeds K f g g1 stream took in
        let hashes =
          subst (λ x. Hashes K x (fed_by feeds.cs)) feeds.reached
            (calls-Hashes K streaming g feeds.cs [] (
              subst (λ x. Hashes K x []) (sym o.is_new)
                (record {
                  writer = writer;
                  is_open = refl;
                  digested = new-Digested K streaming o.writer request.file_name;
                }))) in
        let announced =
          take_stream-Announces K request.expected_size request.content_md5 f _ g1 stream
            (refl, refl, refl) took' in
        let a = (finalize-ok_iff K g1 no_sync clocks.completed s).0 finalized in
        let expires : s.expires ≡ clocks.completed + temporal_lease = ground (
          arith,
          finalize-eq-ok K a.writer no_sync g1.expiration clocks.completed a.completed,
          announced,
        ) in
        let describes =
          finalize-Hashes K g1 no_sync clocks.completed (fed_by feeds.cs) hashes finalized in
        record {
          opened = g;
          g = g1;
          s = s;
          is_opened = opened;
          took = took;
          finalized = finalized;
          answer = answer;
          feeds = feeds;
          describes = describes;
          carries = created-Carries s (fed_by feeds.cs) answer describes expires;
          holds = held;
          length_fits = ground (arith, a.length_fits, held.counted, announced);
          md5_fits = ground (arith, a.md5_fits, describes.md5, announced);
        }
