-- ===== src/Metrics/Http.antt =====
-- crates/metrics/src/http.rs: the calls that were answered, how long they took, and those in flight.
pub mod Methods
use yeet_yoink.Common.{
  ℕ, ◌+◌, ◌-◌, ◌%◌, ◌≡◌, ◌==◌, ◌&&◌, List, String, Bool, true, false, Eq, add_word, word, bytes_eq,
  if◌then◌else◌,
}

-- The crate hyper's `Method` and the floating-point numbers, with `Duration::as_secs_f64`.
pub record Http : Type 1 where
  pub Method : Type 0
  pub method_eq : Eq Method
  pub method_text : Method → String
  pub get : Method
  pub options : Method
  pub post : Method
  pub put : Method
  pub delete : Method
  pub head : Method
  pub patch : Method
  pub F64 : Type 0
  pub add_f64 : F64 → F64 → F64
  pub as_secs_f64 : ℕ → F64

-- Methods are told apart by their texts, and the named ones have these.
pub record HasNames (H : Http) : Type 0 where
  pub get_name : H.method_text H.get ≡ "GET"
  pub options_name : H.method_text H.options ≡ "OPTIONS"
  pub post_name : H.method_text H.post ≡ "POST"
  pub put_name : H.method_text H.put ≡ "PUT"
  pub delete_name : H.method_text H.delete ≡ "DELETE"
  pub head_name : H.method_text H.head ≡ "HEAD"
  pub patch_name : H.method_text H.patch ≡ "PATCH"
  pub same_text : (m n : H.Method) → H.method_text m ≡ H.method_text n → m ≡ n

module _ (H : Http) where
  pub data HttpMethod : Type 0 where
    options get post put delete head patch : HttpMethod
    unhandled : H.Method → HttpMethod

  -- `Display`
  unfoldable pub http_method_text : HttpMethod → String
  http_method_text options = "OPTIONS"
  http_method_text get = "GET"
  http_method_text post = "POST"
  http_method_text put = "PUT"
  http_method_text delete = "DELETE"
  http_method_text head = "HEAD"
  http_method_text patch = "PATCH"
  http_method_text (unhandled other) = H.method_text other

  -- `From<&Method>`
  unfoldable pub from_method : H.Method → HttpMethod
  from_method m =
      if H.method_eq.beq m H.get
      then get
      else if H.method_eq.beq m H.options
      then options
      else if H.method_eq.beq m H.post
      then post
      else if H.method_eq.beq m H.put
      then put
      else if H.method_eq.beq m H.delete
      then delete
      else if H.method_eq.beq m H.head
      then head
      else if H.method_eq.beq m H.patch
      then patch
      else unhandled m

  -- The derived `PartialEq`
  unfoldable pub same_http_method : HttpMethod → HttpMethod → Bool
  same_http_method options options = true
  same_http_method get get = true
  same_http_method post post = true
  same_http_method put put = true
  same_http_method delete delete = true
  same_http_method head head = true
  same_http_method patch patch = true
  same_http_method (unhandled m) (unhandled n) = H.method_eq.beq m n
  same_http_method _ _ = false

  -- A path is its bytes.
  pub record Labels : Type 0 where
    pub method : HttpMethod
    pub path : List ℕ
    pub status : ℕ

  abbrev same_labels : Labels → Labels → Bool
  same_labels a b =
      same_http_method a.method b.method && bytes_eq a.path b.path && (a.status == b.status)

  -- `TRACK_ENDPOINT`, `TRACK_DURATION` and `TRACK_IN_FLIGHT`. The gauge is an atomic 64-bit word.
  pub record HttpMetrics : Type 0 where
    pub track_endpoint : Labels → ℕ
    pub track_duration : Labels → H.F64
    pub track_in_flight : List ℕ → ℕ

  unfoldable pub track : List ℕ → H.Method → ℕ → ℕ → HttpMetrics → HttpMetrics
  unfolding same_http_method
  track path method status elapsed m =
      let labels : Labels = record { method = from_method method; path = path; status = status } in
      record m {
        track_endpoint = λ l.
            if same_labels l labels then add_word (m.track_endpoint l) 1 else m.track_endpoint l;
        track_duration = λ l.
            if same_labels l labels
            then H.add_f64 (m.track_duration l) (H.as_secs_f64 elapsed)
            else m.track_duration l;
      }

  unfoldable pub inc_in_flight : List ℕ → HttpMetrics → HttpMetrics
  inc_in_flight path m = record m {
    track_in_flight =
        λ p. if bytes_eq p path then add_word (m.track_in_flight p) 1 else m.track_in_flight p;
  }

  -- The gauge wraps around below zero.
  unfoldable pub dec_in_flight : List ℕ → HttpMetrics → HttpMetrics
  dec_in_flight path m = record m {
    track_in_flight = λ p.
        if bytes_eq p path then (m.track_in_flight p + (word - 1)) % word else m.track_in_flight p;
  }
