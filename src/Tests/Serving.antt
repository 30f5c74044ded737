-- ===== src/Tests/Serving.antt =====
-- Two servers over a channel that counts its signals, and a run of the whole program.
use yeet_yoink.Common.{
  ℕ, ◌+◌, ◌≤◌, ◌≡◌, ◌≢◌, ◌↔◌, refl, String, ◌<>◌, false, List, [], ◌∷◌, some, none, ok, err, arith,
  length, ltb, get_elem?, Result,
}
use yeet_yoink.Backend.Memcache.{collect}
use yeet_yoink.Config.{AppConfig}
use yeet_yoink.Config.Load.{ConfigFiles}
use yeet_yoink.Server.Serve.{
  Hyper, HttpServer, Serving, bind_next, server_stopped, ServeEvent, binds, stops, asked,
  interrupted, serve_event, serve_all, returned, exit_success,
}
use yeet_yoink.Server.Serve.Events.{any_refused, any_failed, count_stops}
use yeet_yoink.Server.Serve.Outcome.{verdict, serve_all-verdict}
use yeet_yoink.Server.Serve.Subscribed.{IsBroadcast}
use yeet_yoink.Server.Serve.Shutdown.{CanStop, shutdown-Ends}
use yeet_yoink.Server.Main.{Environment, exits, main}
use yeet_yoink.Server.Main.Exit.{Succeeds, main-success_iff}
use yeet_yoink.Tests.Toy.{toy}
use yeet_yoink.Tests.Backends.{memcached}

abbrev hyper : Hyper
hyper = record {
  SocketAddr = ℕ;
  BindError = String;
  ServerError = String;
  Sender = ℕ;
  Receiver = ℕ;
  channel = λ capacity. 0;
  send = λ tx. tx + 1;
  subscribe = λ tx. tx;
  received = λ tx rx. ltb rx tx;
}

hyper-IsBroadcast : IsBroadcast hyper
hyper-IsBroadcast = record {
  Subscribed = λ tx rx. rx ≤ tx;
  subscribe-Subscribed = λ tx. omega arith;
  send-Subscribed = λ tx rx h. omega arith;
  received-send = λ tx rx h. ground arith;
  received-subscribe = λ tx. ground arith;
}

abbrev addresses : List ℕ
addresses = 8080 ∷ 8081 ∷ []

-- A signal comes before the second address is bound.
abbrev before : List (ServeEvent hyper)
before = binds (ok tt) ∷ interrupted ∷ []

abbrev one_bound : Serving hyper
one_bound = record {
  shutdown_tx = 1;
  http_sockets = 8081 ∷ [];
  servers = record { addr = 8080; shutdown_rx = 0 } ∷ [];
  exit_code = none;
}

abbrev both_bound : Serving hyper
both_bound = record {
  shutdown_tx = 1;
  http_sockets = [];
  servers = record { addr = 8080; shutdown_rx = 0 } ∷ record { addr = 8081; shutdown_rx = 1 } ∷ [];
  exit_code = none;
}

abbrev one_failed : Serving hyper
one_failed = record {
  shutdown_tx = 2;
  http_sockets = [];
  servers = record { addr = 8080; shutdown_rx = 0 } ∷ [];
  exit_code = some 1;
}

abbrev all_events : List (ServeEvent hyper)
all_events = binds (ok tt) ∷ binds (ok tt) ∷ stops 1 (err "accept") ∷ stops 0 (ok tt) ∷ []

abbrev all_gone : Serving hyper
all_gone = record { shutdown_tx = 2; http_sockets = []; servers = []; exit_code = some 1 }

serve_all-verdict_example :
    (◌≡◌ {A = Result ℕ (Unit {0})} (err 1) (verdict hyper all_events))
    × (any_refused hyper all_events ≡ false → count_stops hyper all_events ≡ length addresses)
unfolding serve_all serve_event bind_next server_stopped returned
serve_all-verdict_example =
    serve_all-verdict hyper 0 addresses all_events all_gone (err 1) refl refl

shutdown-Ends_example :
    ¬ CanStop hyper hyper-IsBroadcast both_bound (length one_bound.servers)
    × ((i : ℕ) (server : HttpServer hyper)
        → get_elem? one_failed.servers i ≡ some server
        → CanStop hyper hyper-IsBroadcast one_failed i)
    × ((es : List (ServeEvent hyper)) × (c : Serving hyper) × (serve_all hyper one_failed es
          ≡ some c)
        × (any_failed hyper es ≡ false)
        × (c.exit_code ≡ one_failed.exit_code)
        × (returned hyper c ≢ none))
unfolding serve_all serve_event bind_next server_stopped
shutdown-Ends_example =
    shutdown-Ends hyper hyper-IsBroadcast 0 addresses before [] (stops 1 (err "accept")) one_bound
      both_bound one_failed one_failed refl refl refl refl refl

-- The files hold one configuration.
abbrev config_files : ConfigFiles
config_files = record {
  PathBuf = String;
  join = λ dir name. dir <> "/" <> name;
  Files = AppConfig;
  Config = AppConfig;
  ConfigError = String;
  build = λ files sources. ok files;
  try_deserialize = λ config. ok config;
}

abbrev environment : Environment toy memcached config_files hyper
environment = record {
  config_local_dir = some "/etc/yeet-yoink";
  files = record { version = 1; backends = record { memcache = [] } };
  config_file = none;
  bind_http = 8080 ∷ [];
  early_signals = 1;
  events = binds (ok tt) ∷ asked ∷ stops 0 (ok tt) ∷ [];
  strong_count = 1;
}

runs_well : main toy memcached config_files hyper environment ≡ exits exit_success
unfolding main collect serve_event bind_next server_stopped
runs_well = refl

main-success_iff_example :
    (main toy memcached config_files hyper environment ≡ exits exit_success)
    ↔ Succeeds toy memcached config_files hyper environment
main-success_iff_example = main-success_iff toy memcached config_files hyper environment
