-- ===== src/Server/Integrity.antt =====
-- The digests that a download carries (bins/server/src/handlers/yoink.rs), and the bytes that were
-- uploaded.
use mathlib.Core.Path.{subst}
use yeet_yoink.Common.{
  ℕ, ◌≡◌, refl, ap, ◌∙◌, ◌⊎◌, inl, inr, Bool, String, List, Option, none, some, Result, ok, err,
  arith, false, get_elem?, Option-cases,
}
use yeet_yoink.Common.Dict.{lookup}
use yeet_yoink.Crates.{Crates, IsStreaming}
use yeet_yoink.Distribution.{
  WriteSummary, GetFileReaderError, unknown_file, file_expired, file_error,
}
use yeet_yoink.Distribution.Hash.{zeros}
use yeet_yoink.Backbone.Reader.{FileReader}
use yeet_yoink.Backbone.Table.{get_file}
use yeet_yoink.Backbone.World.{Upload, World, Evolves, new_world}
use yeet_yoink.Backbone.World.Stored.{get_file-Vouches}
use yeet_yoink.Backbone.World.Vouches.{Vouches}
use yeet_yoink.Metrics.Transfer.{TransferMethod}
use yeet_yoink.Server.Http.{Response}
use yeet_yoink.Server.Yoink.{
  Headers, YoinkBody, Clocks, file_headers, respond, do_yoink, map_file_reader_error_to_response,
}
use yeet_yoink.Server.Yoink.Digests.{header, HasDigests, file_headers-HasDigests}

module _ (K : Crates) where
  -- An upload of the id that has ended well, and whose bytes have the digests in these headers. The
  -- MD5 digest is the one that its request announced.
  pub record Matches (uploads : List (Upload K)) (id : K.ShortGuid) (headers : Headers)
      : Type 0 where
    pub place : ℕ
    pub upload : Upload K
    pub is_there : get_elem? uploads place ≡ some upload
    pub same_id : upload.request.id ≡ id
    pub is_closed : upload.is_open ≡ false
    pub md5 :
        header "content-md5" headers
        ≡ some (K.base64_encode (K.md5_compute (K.md5_consume K.md5_new upload.fed)))
    pub sha256 :
        header "etag" headers
        ≡ some
            (K.base64_encode (K.sha_finalize_into (K.sha_update K.sha_new upload.fed) (zeros 32)))
    pub announced :
        (upload.request.content_md5 ≡ none)
        ⊎ (upload.request.content_md5 ≡ some (K.md5_compute (K.md5_consume K.md5_new upload.fed)))

  Vouches-Matches :
      (uploads : List (Upload K)) (id : K.ShortGuid) (s : WriteSummary) (headers : Headers)
      → Vouches K uploads id s
      → HasDigests K id (some s) headers
      → Matches uploads id headers
  Vouches-Matches uploads id s headers v (md5, sha256) = record {
    place = v.place;
    upload = v.upload;
    is_there = v.is_there;
    same_id = v.same_id;
    is_closed = v.approved.is_closed;
    md5 = md5 ∙ ap (λ d. some (K.base64_encode d)) v.approved.describes.md5;
    sha256 = sha256 ∙ ap (λ d. some (K.base64_encode d)) v.approved.describes.sha256;
    announced =
        subst (λ d. (v.upload.request.content_md5 ≡ none) ⊎ (v.upload.request.content_md5 ≡ some d))
          v.approved.describes.md5 v.approved.md5_fits;
  }

  error-headers :
      (e : GetFileReaderError K) → (map_file_reader_error_to_response K e).headers ≡ List.[]
  error-headers (unknown_file id) = refl
  error-headers (file_expired id) = refl
  error-headers (file_error id e) = refl

  answer-Matches :
      IsStreaming K.digests
      → {listens : Bool} {w : World K} → Evolves K (new_world K listens) w
      → (disk : K.Disk) (id : K.ShortGuid) (clocks : Clocks K)
      → (got : Option (Result (GetFileReaderError K) (FileReader K)))
      → get_file K w.backbone disk id ≡ got
      → {response : Response (YoinkBody K)} {tracked : List TransferMethod} (v : String)
      → respond K id clocks got ≡ some (response, tracked)
      → header "content-md5" response.headers ≡ some v
      → Matches w.uploads id response.headers
  unfolding lookup
  answer-Matches streaming r disk id clocks none found v h carries = absurd (ground arith)
  answer-Matches streaming r disk id clocks (some (err e)) found v h carries =
      absurd (ground (arith, h, error-headers e, carries))
  answer-Matches streaming {w = w} r disk id clocks (some (ok f)) found {response} v h carries =
      let same : file_headers K id f clocks ≡ response.headers = ground arith in
      let digests =
        subst (HasDigests K id f.summary) same (file_headers-HasDigests K id f clocks) in
      elim (Option-cases f.summary) [
        | inl e ↦ absurd (ground (arith, subst (λ o. HasDigests K id o response.headers) e digests))
        | inr (s, e) ↦
            Vouches-Matches w.uploads id s response.headers
              (get_file-Vouches K streaming r disk id f s found e)
              (subst (λ o. HasDigests K id o response.headers) e digests)
      ]

  -- If the digests are those of a stream, then in every run in which each lifetime handler hears
  -- what its own guard has sent: a response of /yoink that has a Content-MD5 header has, in that
  -- header and in the ETag, the digests of the bytes that the client of an upload of this id handed
  -- to its writes, and this upload has ended. If its request announced an MD5 digest, it is the same.
  pub do_yoink-Matches :
      IsStreaming K.digests
      → {listens : Bool} {w : World K} → Evolves K (new_world K listens) w
      → (disk : K.Disk) (id : K.ShortGuid) (clocks : Clocks K)
      → {response : Response (YoinkBody K)} {tracked : List TransferMethod} (v : String)
      → do_yoink K w.backbone disk id clocks ≡ some (response, tracked)
      → header "content-md5" response.headers ≡ some v
      → Matches w.uploads id response.headers
  unfolding do_yoink
  do_yoink-Matches streaming {w = w} r disk id clocks v h carries =
      answer-Matches streaming r disk id clocks (get_file K w.backbone disk id) refl v h carries
