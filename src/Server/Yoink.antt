-- ===== src/Server/Yoink.antt =====
-- bins/server/src/handlers/yoink.rs: handing out a file.
pub mod Answers
pub mod Headers
pub mod Digests
use yeet_yoink.Common.{
  ℕ, ◌/◌, ◌==◌, ◌||◌, String, ◌<>◌, Bool, true, false, List, [], ◌∷◌, ◌++◌, Option, none, some,
  Result, ok, err, decimal, text_eq, if◌then◌else◌,
}
use yeet_yoink.Crates.{Crates, FileSize, exactly, not_exact}
use yeet_yoink.Distribution.{
  WriteSummary, GetFileReaderError, unknown_file, file_expired, file_error,
}
use yeet_yoink.Backbone.Reader.{FileReader, file_age, file_size, expiration_date}
use yeet_yoink.Backbone.Table.{Backbone, get_file}
use yeet_yoink.Metrics.Transfer.{TransferMethod}
use yeet_yoink.Server.Http.{Problem, Response, expiration_as_rfc1123}

-- The body is the file's reader as a stream, or a problem.
pub data YoinkBody (K : Crates) : Type 0 where
  stream : FileReader K → YoinkBody K
  problem : Problem → YoinkBody K

abbrev pub Headers : Type 0
Headers = List (String × String)

-- `String::is_empty`
abbrev is_empty : String → Bool
is_empty s = text_eq.beq s ""

module _ (K : Crates) where
  -- `ASCII_CONTROLS`: the crate's `CONTROLS` with ten characters, by their codes.
  abbrev ascii_controls : ℕ → Bool
  ascii_controls c =
      K.controls c
      || (c == 32)
      || (c == 34)
      || (c == 60)
      || (c == 62)
      || (c == 92)
      || (c == 94)
      || (c == 96)
      || (c == 123)
      || (c == 124)
      || (c == 125)

  abbrev attachment : String → String × String
  attachment name = ("content-disposition", "attachment; filename=\"" <> name <> "\"")

  abbrev unwrap_or_empty : Option String → String
  unwrap_or_empty none = ""
  unwrap_or_empty (some t) = t

  abbrev pub default_content_disposition_header : K.ShortGuid → String → String × String
  default_content_disposition_header id content_type =
      if is_empty content_type
      then attachment (K.guid_text id)
      else (let ext = unwrap_or_empty (K.extension content_type) in
          if is_empty ext
          then attachment (K.guid_text id)
          else attachment (K.guid_text id <> "." <> ext))

  abbrev pub content_disposition_from_optional_name :
      K.ShortGuid → String → Option String → String × String
  content_disposition_from_optional_name id content_type none =
      default_content_disposition_header id content_type
  content_disposition_from_optional_name id content_type (some file_name) =
      attachment (K.utf8_percent_encode ascii_controls file_name)

  abbrev file_problem : ℕ → K.ShortGuid → String → Headers → Response (YoinkBody K)
  file_problem status id detail values = record {
    status = status;
    headers = [];
    body = problem (record {
      title = "File not found";
      detail = detail;
      problem_instance = some ("/yoink/" <> K.guid_text id);
      values = values;
    });
  }

  abbrev pub map_file_reader_error_to_response : GetFileReaderError K → Response (YoinkBody K)
  map_file_reader_error_to_response (unknown_file id) =
      file_problem 404 id ("The file with ID " <> K.guid_text id <> " could not be found")
        (("id", K.guid_text id) ∷ [])
  map_file_reader_error_to_response (file_expired id) =
      file_problem 410 id ("The file with ID " <> K.guid_text id <> " has expired")
        (("id", K.guid_text id) ∷ [])
  map_file_reader_error_to_response (file_error id e) =
      file_problem 500 id ("Unable to process file: " <> K.tempfile_error_text e)
        (("id", K.guid_text id) ∷ ("error", K.tempfile_error_text e) ∷ [])

  abbrev length_headers : FileSize → Headers
  length_headers (exactly size) = ("content-length", decimal size) ∷ []
  length_headers not_exact = []

  abbrev pub summary_headers : K.ShortGuid → String → Option WriteSummary → Headers
  summary_headers id content_type none = default_content_disposition_header id content_type ∷ []
  summary_headers id content_type (some s) =
      ("etag", K.base64_encode s.hashes.sha256)
      ∷ ("content-md5", K.base64_encode s.hashes.md5)
      ∷ ("yy-file-md5", K.hex_encode s.hashes.md5)
      ∷ ("yy-file-sha256", K.hex_encode s.hashes.sha256)
      ∷ content_disposition_from_optional_name id content_type s.file_name
      ∷ []

  abbrev type_headers : String → Headers
  type_headers content_type =
      if is_empty content_type then [] else ("content-type", content_type) ∷ []

  -- The clocks' readings: an instant for the age, and both clocks for the expiration.
  pub record Clocks : Type 0 where
    pub age_now : ℕ
    pub instant_now : ℕ
    pub system_now : ℕ

  unfoldable pub file_headers : K.ShortGuid → FileReader K → Clocks → Headers
  file_headers id file clocks =
      let content_type = unwrap_or_empty file.content_type in
      length_headers (file_size K file)
      ++ summary_headers id content_type file.summary
      ++ type_headers content_type
      ++ ("age", decimal (file_age K file clocks.age_now / 1_000_000_000))
        ∷ (
          "expires",
          expiration_as_rfc1123 K (expiration_date K file) clocks.instant_now clocks.system_now,
        )
        ∷ []

  -- The part of `do_yoink` behind `get_file`.
  abbrev pub respond :
      K.ShortGuid
      → Clocks
      → Option (Result (GetFileReaderError K) (FileReader K))
      → Option (Response (YoinkBody K) × List TransferMethod)
  respond id clocks none = none
  respond id clocks (some (err e)) = some (map_file_reader_error_to_response e, [])
  respond id clocks (some (ok file)) = some (
    record { status = 200; headers = file_headers id file clocks; body = stream file },
    TransferMethod.fetch ∷ [],
  )

  -- `do_yoink`: the response, and the transfers that were tracked; `none` if `get_file` has none.
  unfoldable pub do_yoink :
      Backbone K
      → K.Disk
      → K.ShortGuid
      → Clocks
      → Option (Response (YoinkBody K) × List TransferMethod)
  do_yoink b disk id clocks = respond id clocks (get_file K b disk id)
