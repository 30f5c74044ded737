-- ===== src/Server/Main.antt =====
-- bins/server/src/main.rs: how the program starts, and with which exit code it ends.
pub mod Exit
use yeet_yoink.Common.{
  ℕ, zero, suc, ◌==◌, List, Option, none, some, Result, ok, err, true, if◌then◌else◌,
}
use yeet_yoink.Crates.{Crates}
use yeet_yoink.Config.{AppConfig}
use yeet_yoink.Config.Load.{ConfigFiles, load}
use yeet_yoink.Backend.Memcache.{
  Memcached, MemcacheBackend, try_from_config, construction_error_text,
}
use yeet_yoink.Backbone.Table.{Backbone}
use yeet_yoink.Backbone.Table
use yeet_yoink.Backbone.Accessor.{FileAccessorBridge, set_backbone}
use yeet_yoink.Backbone.Accessor
use yeet_yoink.Server.Registry.{BackendRegistry, new_builder, add_backends, build, get_sender}
use yeet_yoink.Server.Serve.{
  Hyper, ServeEvent, signal_handler, serve_requests, exit_success, exit_failure,
}

-- How a run of `main` ends.
pub data Ending : Type 0 where
  exits : ℕ → Ending
  panics : Ending
  still_serving : Ending

module _ (K : Crates) (M : Memcached K) (C : ConfigFiles) (N : Hyper) where
  pub record AppState : Type 0 where
    pub shutdown_tx : N.Sender
    pub backbone : Backbone K

  -- What `main` meets: the project directory, the files, the arguments, the signals of the OS
  -- before the servers start, what happens while they run, and how many references to the
  -- backbone there are at the end.
  pub record Environment : Type 0 where
    pub config_local_dir : Option C.PathBuf
    pub files : C.Files
    pub config_file : Option C.PathBuf
    pub bind_http : List N.SocketAddr
    pub early_signals : ℕ
    pub events : List (ServeEvent N)
    pub strong_count : ℕ

  -- What `main` holds when it starts to serve.
  pub record Started : Type 0 where
    pub registry : BackendRegistry K (MemcacheBackend K M)
    pub file_accessor : FileAccessorBridge K
    pub app_state : AppState

  -- The shutdown channel, after some signals.
  abbrev pub signalled : ℕ → N.Sender
  signalled zero = N.channel 1
  signalled (suc n) = signal_handler N (signalled n)

  -- The registry, the backbone with its event sender, and the bridge between them.
  unfoldable pub start_backbone :
      Environment → BackendRegistry K (MemcacheBackend K M) → Result Ending Started
  unfolding set_backbone get_sender
  start_backbone env registry =
      let (backend_sender, registry') = get_sender K (MemcacheBackend K M) registry in
      elim backend_sender [
        | none ↦ err panics
        | some _ ↦ elim (set_backbone K (Accessor.new K) 0) [
          | none ↦ err panics
          | some file_accessor ↦ ok (record {
            registry = registry';
            file_accessor = file_accessor;
            app_state = record {
              shutdown_tx = signalled env.early_signals;
              backbone = Table.new K true;
            };
          })
        ]
      ]

  unfoldable pub start_up : Environment → Result Ending Started
  unfolding load add_backends start_backbone
  start_up env = elim env.config_local_dir [
    | none ↦ err (exits exit_failure)
    | some config_dir ↦ elim (load C env.files config_dir env.config_file) [
      | err _ ↦ err (exits exit_failure)
      | ok cfg ↦
          elim (add_backends K (MemcacheBackend K M) (construction_error_text K M)
            (new_builder K (MemcacheBackend K M)) (try_from_config K M cfg)) [
              | err _ ↦ err (exits exit_failure)
              | ok builder ↦ start_backbone env (build K (MemcacheBackend K M) builder)
            ]
    ]
  ]

  abbrev pub unwrap_or_success : Result ℕ (Unit {0}) → ℕ
  unwrap_or_success (err exit_code) = exit_code
  unwrap_or_success (ok _) = exit_success

  -- The assertion of `shut_down_backbone`, and the exit code.
  abbrev pub shut_down_backbone : ℕ → Result ℕ (Unit {0}) → Ending
  shut_down_backbone strong_count result =
      if strong_count == 1 then exits (unwrap_or_success result) else panics

  unfoldable pub main : Environment → Ending
  unfolding start_up serve_requests
  main env = elim (start_up env) [
    | err ending ↦ ending
    | ok started ↦ elim (serve_requests N started.app_state.shutdown_tx env.bind_http env.events) [
      | none ↦ still_serving
      | some result ↦ shut_down_backbone env.strong_count result
    ]
  ]
