-- ===== src/Server/Yoink/Headers.antt =====
-- The headers of a file that is handed out.
use yeet_yoink.Common.{
  ◌≡◌, refl, String, List, [], ◌∷◌, ◌++◌, Bool, true, false, not, ◌&&◌, Option, none, some,
  Bool-cases, inl, inr, text_eq, if◌then◌else◌,
}
use yeet_yoink.Crates.{Crates, FileSize, exactly, not_exact}
use yeet_yoink.Distribution.{WriteSummary}
use yeet_yoink.Backbone.Reader.{FileReader}
use yeet_yoink.Backbone.Reader
use yeet_yoink.Server.Yoink.{
  Headers, Clocks, file_headers, summary_headers, type_headers, length_headers, is_empty,
  unwrap_or_empty, default_content_disposition_header, content_disposition_from_optional_name,
}

abbrev pub names : Headers → List String
names [] = []
names ((name, value) ∷ headers) = name ∷ names headers

abbrev occurs : String → List String → Bool
occurs name [] = false
occurs name (x ∷ xs) = if text_eq.beq name x then true else occurs name xs

abbrev pub distinct : List String → Bool
distinct [] = true
distinct (x ∷ xs) = not (occurs x xs) && distinct xs

module _ (K : Crates) (id : K.ShortGuid) where
  pub default-name :
      (content_type : String)
      → (default_content_disposition_header K id content_type).0 ≡ "content-disposition"
  default-name content_type = elim (Bool-cases (is_empty content_type)) [
    | inl e ↦ rw e refl
    | inr e ↦ elim (Bool-cases (is_empty (unwrap_or_empty K (K.extension content_type)))) [
      | inl f ↦ rw (e, f) refl
      | inr f ↦ rw (e, f) refl
    ]
  ]

  pub optional-name :
      (content_type : String) (file_name : Option String)
      → (content_disposition_from_optional_name K id content_type file_name).0
        ≡ "content-disposition"
  optional-name content_type none = default-name content_type
  optional-name content_type (some file_name) = refl

  abbrev pub last_headers : String → String → Headers
  last_headers age expires = ("age", age) ∷ ("expires", expires) ∷ []

  abbrev pub hash_headers : Option WriteSummary → Headers
  hash_headers none = []
  hash_headers (some s) =
      ("etag", K.base64_encode s.hashes.sha256)
      ∷ ("content-md5", K.base64_encode s.hashes.md5)
      ∷ ("yy-file-md5", K.hex_encode s.hashes.md5)
      ∷ ("yy-file-sha256", K.hex_encode s.hashes.sha256)
      ∷ []

  parts-distinct :
      (size : FileSize) (s : Option WriteSummary) (name value age expires content_type : String)
      (untyped : Bool)
      → name ≡ "content-disposition"
      → distinct (
          names (
            length_headers K size
            ++ (hash_headers s ++ (name, value) ∷ [])
            ++ (if untyped then [] else ("content-type", content_type) ∷ [])
            ++ last_headers age expires))
        ≡ true
  parts-distinct (exactly n) none name value age expires t true e = rw e refl
  parts-distinct (exactly n) none name value age expires t false e = rw e refl
  parts-distinct (exactly n) (some s) name value age expires t true e = rw e refl
  parts-distinct (exactly n) (some s) name value age expires t false e = rw e refl
  parts-distinct not_exact none name value age expires t true e = rw e refl
  parts-distinct not_exact none name value age expires t false e = rw e refl
  parts-distinct not_exact (some s) name value age expires t true e = rw e refl
  parts-distinct not_exact (some s) name value age expires t false e = rw e refl

  all-distinct :
      (size : FileSize) (s : Option WriteSummary) (content_type age expires : String)
      → distinct (
          names (
            length_headers K size
            ++ summary_headers K id content_type s
            ++ type_headers K content_type
            ++ last_headers age expires))
        ≡ true
  all-distinct size none content_type age expires =
      parts-distinct size none (default_content_disposition_header K id content_type).0
        (default_content_disposition_header K id content_type).1 age expires content_type
        (is_empty content_type) (default-name content_type)
  all-distinct size (some s) content_type age expires =
      parts-distinct size (some s)
        (content_disposition_from_optional_name K id content_type s.file_name).0
        (content_disposition_from_optional_name K id content_type s.file_name).1 age expires
        content_type (is_empty content_type) (optional-name content_type s.file_name)

  -- No header stands twice among those of a file, whatever is known of it: with or without a size, a
  -- summary, a file name and a content type.
  file_headers-distinct :
      (file : FileReader K) (clocks : Clocks K)
      → distinct (names (file_headers K id file clocks)) ≡ true
  unfolding file_headers
  file_headers-distinct file clocks =
      all-distinct (Reader.file_size K file) file.summary (unwrap_or_empty K file.content_type) _ _
