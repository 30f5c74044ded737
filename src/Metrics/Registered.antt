-- ===== src/Metrics/Registered.antt =====
-- The registry of crates/metrics/src/lib.rs: what http.rs and transfer.rs register with it.
use yeet_yoink.Common.{String, List, [], ◌∷◌, ◌++◌, Option, none, some}

-- `prometheus_client::registry::Unit`, as far as it is used.
pub data MetricUnit : Type 0 where
  seconds bytes : MetricUnit

-- The families of counters and gauges, by the names of their statics.
pub data Family : Type 0 where
  track_endpoint track_duration track_in_flight transfer_sizes transfer_count : Family

pub record Registered : Type 0 where
  pub name : String
  pub help : String
  pub measure : Option MetricUnit
  pub family : Family

-- `Registry::register` and `Registry::register_with_unit`
abbrev register_family : List Registered → String → String → Family → List Registered
register_family registry name help family =
    registry ++ record { name = name; help = help; measure = none; family = family } ∷ []

abbrev register_with_unit :
    List Registered → String → String → MetricUnit → Family → List Registered
register_with_unit registry name help measure family =
    registry ++ record { name = name; help = help; measure = some measure; family = family } ∷ []

abbrev pub register_http_requests : List Registered → List Registered
register_http_requests registry =
    let r1 =
      register_family registry "http_requests" "Number of HTTP requests received" track_endpoint in
    let r2 =
      register_with_unit r1 "http_duration" "Duration of HTTP requests executed" seconds
        track_duration in
    register_family r2 "http_requests_in_flight" "Number of requests that are currently in flight"
      track_in_flight

abbrev pub register_transfer_metrics : List Registered → List Registered
register_transfer_metrics registry =
    let r1 =
      register_with_unit registry "transfer_size" "Number of bytes received or sent" bytes
        transfer_sizes in
    register_family r1 "transfer" "Number of transfers initiated" transfer_count

-- `Metrics::new`
abbrev pub new_metrics : List Registered
new_metrics = register_transfer_metrics (register_http_requests [])

-- `Metrics::encode_into` and `Metrics::encode`, and the handler of /metrics, given the crate
-- prometheus-client's `encode`, which appends to the text.
module _ (encode_text : String → List Registered → String) where
  abbrev pub encode_into : List Registered → String → String
  encode_into metrics buffer = encode_text buffer metrics

  abbrev pub encode : List Registered → String
  encode metrics = encode_into metrics ""

  abbrev pub render_metrics : String
  render_metrics = encode new_metrics
