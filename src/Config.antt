-- ===== src/Config.antt =====
-- crates/app-config/src: the configuration, as it is once it is read.
pub mod Connection
pub mod Load
use yeet_yoink.Common.{
  ℕ, String, List, [], ◌∷◌, Option, Result, ok, err, map_err, Bool, ◌≡◌, false, text_eq,
  if◌then◌else◌,
}

-- The crate url.
pub record Urls : Type 1 where
  pub Url : Type 0
  pub ParseError : Type 0
  pub parse : String → Result ParseError Url
  pub scheme : Url → String
  pub url_text : Url → String

-- The text of a URL parses to that URL, and is not empty.
pub record IsPrinted (U : Urls) : Type 0 where
  pub parse-text : (u : U.Url) → U.parse (U.url_text u) ≡ ok u
  pub text_filled : (u : U.Url) → text_eq.beq (U.url_text u) "" ≡ false

pub data MemcacheConnectionStringError : Type 0 where
  invalid_format : MemcacheConnectionStringError

pub record MemcacheConnectionString : Type 0 where
  pub text : String

-- `Display`
abbrev pub connection_error_text : MemcacheConnectionStringError → String
connection_error_text invalid_format = "Invalid connection string format"

-- `MemcacheConnectionString::new`
unfoldable pub new :
    (U : Urls) → String → Result MemcacheConnectionStringError MemcacheConnectionString
new U s = elim (U.parse s) [
  | err e ↦ err invalid_format
  | ok url ↦
      if text_eq.beq (U.scheme url) "memcache"
      then ok (record { text = U.url_text url })
      else err invalid_format
]

-- `FromStr`
abbrev pub from_str :
    (U : Urls) → String → Result MemcacheConnectionStringError MemcacheConnectionString
from_str U s = new U s

-- `deserialize`, from the text in the configuration, with the error as text.
abbrev pub deserialize : (U : Urls) → String → Result String MemcacheConnectionString
deserialize U s = map_err connection_error_text (new U s)

-- `PartialEq<&str>`
abbrev pub equals_text : MemcacheConnectionString → String → Bool
equals_text c other = text_eq.beq c.text other

-- `Display`
abbrev pub connection_text : MemcacheConnectionString → String
connection_text c = c.text

-- `Serialize`, as the text that is handed to the serializer.
abbrev pub serialize : MemcacheConnectionString → String
serialize c = c.text

unfoldable pub get_urls : MemcacheConnectionString → List String
get_urls c = if text_eq.beq c.text "" then [] else c.text ∷ []

-- `DEFAULT_EXPIRATION`, in seconds.
abbrev pub default_expiration : ℕ
default_expiration = 3600

-- `expiration_sec` is a u32.
pub record MemcacheBackendConfig : Type 0 where
  pub tag : String
  pub connection_string : MemcacheConnectionString
  pub expiration_sec : Option ℕ

pub record BackendsConfig : Type 0 where
  pub memcache : List MemcacheBackendConfig

pub record AppConfig : Type 0 where
  pub version : ℕ
  pub backends : BackendsConfig
