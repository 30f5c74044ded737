-- ===== src/Server/Http.antt =====
-- What a handler answers, as far as the source sets it: a status, the headers and a body. The
-- headers that axum adds by itself are left out.
use yeet_yoink.Common.{ℕ, ◌+◌, ◌-◌, String, List, Option}
use yeet_yoink.Crates.{Crates}

-- The calls of the `problemdetails` builder.
pub record Problem : Type 0 where
  pub title : String
  pub detail : String
  pub problem_instance : Option String
  pub values : List (String × String)

-- `Hashes` of yeet.rs, in hex.
pub record Hashes : Type 0 where
  pub md5 : String
  pub sha256 : String

-- `SuccessfulUploadResponse` of yeet.rs
pub record SuccessfulUploadResponse (K : Crates) : Type 0 where
  pub id : K.ShortGuid
  pub file_size_bytes : ℕ
  pub hashes : Hashes

pub record Response {ℓ} (B : Type ℓ) : Type ℓ where
  pub status : ℕ
  pub headers : List (String × String)
  pub body : B

-- `expiration_as_rfc1123` of handlers/mod.rs, given the readings of the two clocks. The difference of
-- instants is zero if it would be negative.
abbrev pub expiration_as_rfc1123 : (K : Crates) → ℕ → ℕ → ℕ → String
expiration_as_rfc1123 K expires instant_now system_now =
    K.rfc1123 (system_now + (expires - instant_now))
