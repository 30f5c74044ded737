-- ===== src/Server/Routes.antt =====
-- The endpoints: the `map_..._endpoint` functions of bins/server/src/handlers, and the router that
-- `serve_requests` of bins/server/src/main.rs makes of them.
use yeet_yoink.Common.{String, List, [], ◌∷◌, ◌++◌}
use yeet_yoink.Server.Health.{HealthCheck, startup, readiness, liveness, full, compact, complex}

-- `axum::routing::get` and `post`
pub data Verb : Type 0 where
  get post : Verb

-- `render_metrics`, `shutdown`, `do_yeet`, `do_yoink`, and the health handlers.
pub data Endpoint : Type 0 where
  metrics_handler stop_handler yeet_handler yoink_handler : Endpoint
  health_endpoint : HealthCheck → Endpoint

pub record Route : Type 0 where
  pub path : String
  pub verb : Verb
  pub endpoint : Endpoint

-- `Router::route`
abbrev pub route : List Route → String → Verb → Endpoint → List Route
route router path verb endpoint =
    router ++ record { path = path; verb = verb; endpoint = endpoint } ∷ []

abbrev pub map_metrics_endpoint : List Route → List Route
map_metrics_endpoint router = route router "/metrics" get metrics_handler

abbrev pub map_shutdown_endpoint : List Route → List Route
map_shutdown_endpoint router = route router "/stop" post stop_handler

abbrev pub map_yeet_endpoint : List Route → List Route
map_yeet_endpoint router = route router "/yeet" post yeet_handler

abbrev pub map_yoink_endpoint : List Route → List Route
map_yoink_endpoint router = route router "/yoink/:id" get yoink_handler

abbrev pub map_health_endpoints : List Route → List Route
map_health_endpoints router =
    let r1 = route router "/health" get (health_endpoint (full compact)) in
    let r2 = route r1 "/startupz" get (health_endpoint startup) in
    let r3 = route r2 "/readyz" get (health_endpoint readiness) in
    let r4 = route r3 "/livez" get (health_endpoint liveness) in
    route r4 "/healthz" get (health_endpoint (full complex))

abbrev pub app : List Route
app =
    map_health_endpoints
      (map_yoink_endpoint (map_yeet_endpoint (map_shutdown_endpoint (map_metrics_endpoint []))))
