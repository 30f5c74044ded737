-- ===== src/Distribution/Metadata.antt =====
-- crates/file-distribution/src/protobuf.rs: the metadata that is stored with a file, as the message
-- of proto/metadata.proto.
use yeet_yoink.Common.{ℕ, String, List, Option, some, Result}
use yeet_yoink.Crates.{Crates}
use yeet_yoink.Distribution.{WriteSummary}

-- `Hashes` of the message.
pub record HashesMessage : Type 0 where
  pub md5 : List ℕ
  pub sha256 : List ℕ

pub record ItemMetadata : Type 0 where
  pub id : List ℕ
  pub file_name : Option String
  pub hashes : Option HashesMessage

-- The crate prost over the generated message, and `ShortGuid::as_bytes`.
pub record Prost (K : Crates) : Type 1 where
  pub as_bytes : K.ShortGuid → List ℕ
  pub EncodeError : Type 0
  pub encode_error_text : EncodeError → String
  pub encode : ItemMetadata → Result EncodeError (List ℕ)
  pub decode : List ℕ → Option ItemMetadata

module _ (K : Crates) (P : Prost K) where
  -- `ItemMetadata::new`
  unfoldable pub new : K.ShortGuid → WriteSummary → ItemMetadata
  new id summary = record {
    id = P.as_bytes id;
    file_name = summary.file_name;
    hashes = some (record { md5 = summary.hashes.md5; sha256 = summary.hashes.sha256 });
  }

  abbrev pub serialize_to_proto : ItemMetadata → Result P.EncodeError (List ℕ)
  serialize_to_proto metadata = P.encode metadata
