-- ===== src/Server/Yoink/Digests.antt =====
-- The headers of a download that carry the digests.
use yeet_yoink.Common.{
  ◌≡◌, refl, String, [], ◌∷◌, ◌++◌, Bool, true, false, Option, none, some, text_eq, if◌then◌else◌,
}
use yeet_yoink.Common.Dict.{lookup}
use yeet_yoink.Crates.{Crates, FileSize, exactly, not_exact}
use yeet_yoink.Distribution.{WriteSummary}
use yeet_yoink.Backbone.Reader.{FileReader}
use yeet_yoink.Backbone.Reader
use yeet_yoink.Server.Yoink.{
  Headers, Clocks, file_headers, summary_headers, type_headers, length_headers, is_empty,
  unwrap_or_empty, default_content_disposition_header, content_disposition_from_optional_name,
}
use yeet_yoink.Server.Yoink.Headers.{default-name, optional-name, last_headers, hash_headers}

-- The value of a header.
abbrev pub header : String → Headers → Option String
header name headers = lookup text_eq name headers

module _ (K : Crates) (id : K.ShortGuid) where
  -- The digests of the summary, and nothing without one.
  abbrev pub HasDigests : Option WriteSummary → Headers → Type 0
  HasDigests none headers = header "content-md5" headers ≡ none
  HasDigests (some s) headers =
      (header "content-md5" headers ≡ some (K.base64_encode s.hashes.md5))
      × (header "etag" headers ≡ some (K.base64_encode s.hashes.sha256))

  parts-HasDigests :
      (size : FileSize) (s : Option WriteSummary) (name value age expires content_type : String)
      (untyped : Bool)
      → name ≡ "content-disposition"
      → HasDigests s (
          length_headers K size
          ++ (hash_headers K id s ++ (name, value) ∷ [])
          ++ (if untyped then [] else ("content-type", content_type) ∷ [])
          ++ last_headers K id age expires)
  unfolding lookup
  parts-HasDigests (exactly n) none name value age expires t true e = rw e refl
  parts-HasDigests (exactly n) none name value age expires t false e = rw e refl
  parts-HasDigests (exactly n) (some s) name value age expires t untyped e = (refl, refl)
  parts-HasDigests not_exact none name value age expires t true e = rw e refl
  parts-HasDigests not_exact none name value age expires t false e = rw e refl
  parts-HasDigests not_exact (some s) name value age expires t untyped e = (refl, refl)

  all-HasDigests :
      (size : FileSize) (s : Option WriteSummary) (content_type age expires : String)
      → HasDigests s (
          length_headers K size
          ++ summary_headers K id content_type s
          ++ type_headers K content_type
          ++ last_headers K id age expires)
  all-HasDigests size none content_type age expires =
      parts-HasDigests size none (default_content_disposition_header K id content_type).0
        (default_content_disposition_header K id content_type).1 age expires content_type
        (is_empty content_type) (default-name K id content_type)
  all-HasDigests size (some s) content_type age expires =
      parts-HasDigests size (some s)
        (content_disposition_from_optional_name K id content_type s.file_name).0
        (content_disposition_from_optional_name K id content_type s.file_name).1 age expires
        content_type (is_empty content_type) (optional-name K id content_type s.file_name)

  pub file_headers-HasDigests :
      (file : FileReader K) (clocks : Clocks K)
      → HasDigests file.summary (file_headers K id file clocks)
  unfolding file_headers
  file_headers-HasDigests file clocks =
      all-HasDigests (Reader.file_size K file) file.summary (unwrap_or_empty K file.content_type) _
        _
