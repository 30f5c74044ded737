-- ===== src/Server/Health.antt =====
-- bins/server/src/handlers/health.rs and bins/server/src/health.rs: the health endpoints.
use yeet_yoink.Common.{String, []}
use yeet_yoink.Server.Http.{Response}

pub data HealthCheckFormat : Type 0 where
  compact complex : HealthCheckFormat

pub data HealthCheck : Type 0 where
  startup readiness liveness : HealthCheck
  full : HealthCheckFormat → HealthCheck

pub data HealthState : Type 0 where
  healthy degraded failed : HealthState

-- `Display`
abbrev pub health_state_text : HealthState → String
health_state_text healthy = "Healthy"
health_state_text degraded = "Degraded"
health_state_text failed = "Failed"

-- No check is implemented yet.
unfoldable pub handle_health : HealthCheck → HealthState
handle_health startup = healthy
handle_health readiness = healthy
handle_health liveness = healthy
handle_health (full compact) = healthy
handle_health (full complex) = healthy

-- `IntoResponse`; a text is answered with status 200.
abbrev pub into_response : HealthState → Response String
into_response state = record { status = 200; headers = []; body = health_state_text state }
