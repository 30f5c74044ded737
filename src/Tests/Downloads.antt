-- ===== src/Tests/Downloads.antt =====
-- Downloads from the run of the backbone, and the bridge of the backends.
use yeet_yoink.Common.{ℕ, ◌≡◌, ◌↔◌, refl, List, [], ◌∷◌, some, ok}
use yeet_yoink.Backbone.Reader.{FileReader}
use yeet_yoink.Backbone.Record.{leasing}
use yeet_yoink.Backbone.System.Duties.{duties}
use yeet_yoink.Metrics.Transfer.{TransferMethod}
use yeet_yoink.Server.Http.{Response}
use yeet_yoink.Server.Yoink.{YoinkBody, Clocks, file_headers, do_yoink}
use yeet_yoink.Server.Yoink.Answers.{Answers, do_yoink-Answers, do_yoink-not_found_iff}
use yeet_yoink.Server.Yoink.Headers.{names}
use yeet_yoink.Crates.{ready}
use yeet_yoink.Common.{◌++◌, ◌+◌, length}
use yeet_yoink.Backbone.Reader.{poll_read}
use yeet_yoink.Backbone.Reader.Counts.{poll_read-counts}
use yeet_yoink.Tests.Toy.{toy}
use yeet_yoink.Tests.Systems.{leased, leased-Reach, leased-upload, upload}

abbrev clocks : Clocks toy
clocks = record { age_now = 2_000_000_007; instant_now = 8; system_now = 100 }

do_yoink-Answers_example : Answers toy leased 0 clocks upload (leasing 300_000_000_005)
do_yoink-Answers_example = do_yoink-Answers toy leased-Reach 0 clocks 0 upload leased-upload refl

do_yoink-not_found_iff_example :
    (response : Response (YoinkBody toy)) × (tracked : List TransferMethod) × (do_yoink toy leased 0
        43 clocks
      ≡ some (response, tracked))
    × ((response.status ≡ 404) ↔ (duties toy 43 leased ≡ 0))
do_yoink-not_found_iff_example = do_yoink-not_found_iff toy leased-Reach 0 43 clocks

abbrev reader : FileReader toy
reader = record {
  inner = 42;
  content_type = some "text/plain";
  created = 7;
  expiration_duration = 300_000_000_000;
  summary = upload.inner.summary;
}

header_names :
    names (file_headers toy 42 reader clocks)
    ≡ "content-length" ∷ "etag" ∷ "content-md5" ∷ "yy-file-md5" ∷ "yy-file-sha256"
      ∷ "content-disposition" ∷ "content-type" ∷ "age" ∷ "expires" ∷ []
unfolding file_headers
header_names = refl

poll_read-counts_example :
    let (polled, filled, r', counted) = poll_read toy reader (9 ∷ []) in
    (polled ≡ ready (ok tt))
    × (filled ≡ (9 ∷ []) ++ 7 ∷ [])
    × (r' ≡ reader)
    × (counted ≡ some (length {A = ℕ} (9 ∷ []) + length {A = ℕ} (7 ∷ [])))
    × ((counted ≡ some (length {A = ℕ} (7 ∷ []))) ↔ (◌≡◌ {A = List ℕ} (9 ∷ []) []))
poll_read-counts_example = poll_read-counts toy reader (9 ∷ []) (7 ∷ []) (ok tt) 42 refl
