-- ===== src/Server/Serve.antt =====
-- bins/server/src/main.rs: the HTTP servers, from the binding of their sockets to their end.
pub mod Events
pub mod Outcome
pub mod Subscribed
pub mod Shutdown
use yeet_yoink.Common.{
  ℕ, List, [], ◌∷◌, ◌++◌, Bool, Option, none, some, Result, ok, err, remove_at, if◌then◌else◌,
}

-- tokio's broadcast channel of unit values, and hyper's server. A sender carries what was sent.
pub record Hyper : Type 1 where
  pub SocketAddr : Type 0
  pub BindError : Type 0
  pub ServerError : Type 0
  pub Sender : Type 0
  pub Receiver : Type 0
  -- `broadcast::channel`, without the first receiver.
  pub channel : ℕ → Sender
  pub send : Sender → Sender
  pub subscribe : Sender → Receiver
  -- Whether `recv` is ready.
  pub received : Sender → Receiver → Bool

-- `ExitCode::SUCCESS`, `ExitCode::FAILURE` and exitcode's `NOPERM`.
abbrev pub exit_success : ℕ
exit_success = 0

abbrev pub exit_failure : ℕ
exit_failure = 1

abbrev pub noperm : ℕ
noperm = 77

module _ (N : Hyper) where
  pub record HttpServer : Type 0 where
    pub addr : N.SocketAddr
    pub shutdown_rx : N.Receiver

  -- `serve_requests` at a loop: the addresses that are left to bind, the servers that have not
  -- stopped, and the exit code so far.
  pub record Serving : Type 0 where
    pub shutdown_tx : N.Sender
    pub http_sockets : List N.SocketAddr
    pub servers : List HttpServer
    pub exit_code : Option ℕ

  abbrev pub start_serving : N.Sender → List N.SocketAddr → Serving
  start_serving shutdown_tx http_sockets = record {
    shutdown_tx = shutdown_tx;
    http_sockets = http_sockets;
    servers = [];
    exit_code = none;
  }

  -- `POST /stop`, the handler of OS signals, and `stop_all_servers`.
  abbrev pub shutdown : N.Sender → N.Sender
  shutdown shutdown_tx = N.send shutdown_tx

  abbrev pub signal_handler : N.Sender → N.Sender
  signal_handler shutdown_tx = N.send shutdown_tx

  abbrev pub stop_all_servers : N.Sender → N.Sender
  stop_all_servers shutdown_tx = N.send shutdown_tx

  -- One round of the loop over the addresses. A failure to bind drops the servers and returns.
  unfoldable pub bind_next : Serving → Result N.BindError (Unit {0}) → Option Serving
  bind_next s bound = elim s.http_sockets [
    | [] ↦ none
    | addr ∷ rest ↦ elim bound [
      | ok _ ↦ some (record s {
        http_sockets = rest;
        servers = s.servers ++ record { addr = addr; shutdown_rx = N.subscribe s.shutdown_tx } ∷ [];
      })
      | err _ ↦ some (record s { http_sockets = []; servers = []; exit_code = some noperm })
    ]
  ]

  abbrev pub or_failure : Option ℕ → Option ℕ
  or_failure none = some exit_failure
  or_failure (some exit_code) = some exit_code

  -- The end of a round of the loop over the results: the other servers shut down, too.
  abbrev pub shut_down_others : Serving → List HttpServer → Option ℕ → Serving
  shut_down_others s rest exit_code = record s {
    servers = rest;
    exit_code = exit_code;
    shutdown_tx = N.send s.shutdown_tx;
  }

  -- One round of the loop over the results: server `i` has stopped. It stops without an error only
  -- when its receiver is ready.
  unfoldable pub server_stopped : Serving → ℕ → Result N.ServerError (Unit {0}) → Option Serving
  server_stopped s i result = elim s.http_sockets [
    | _ ∷ _ ↦ none
    | [] ↦ elim (remove_at s.servers i) [
      | none ↦ none
      | some (server, rest) ↦ elim result [
        | ok _ ↦
            if N.received s.shutdown_tx server.shutdown_rx
            then some (shut_down_others s rest s.exit_code)
            else none
        | err _ ↦ some (shut_down_others s rest (or_failure s.exit_code))
      ]
    ]
  ]

  -- The servers run concurrently and stop in any order; a shutdown is asked for at any time.
  pub data ServeEvent : Type 0 where
    binds : Result N.BindError (Unit {0}) → ServeEvent
    stops : ℕ → Result N.ServerError (Unit {0}) → ServeEvent
    asked interrupted : ServeEvent

  unfoldable pub serve_event : Serving → ServeEvent → Option Serving
  serve_event s (binds bound) = bind_next s bound
  serve_event s (stops i result) = server_stopped s i result
  serve_event s asked = some (record s { shutdown_tx = shutdown s.shutdown_tx })
  serve_event s interrupted = some (record s { shutdown_tx = signal_handler s.shutdown_tx })

  unfoldable pub serve_all : Serving → List ServeEvent → Option Serving
  serve_all s [] = some s
  serve_all s (e ∷ es) = elim (serve_event s e) [ none ↦ none | some s' ↦ serve_all s' es ]

  -- What `serve_requests` returns, once there is nothing left to wait for.
  unfoldable pub returned : Serving → Option (Result ℕ (Unit {0}))
  returned s = elim s.http_sockets [
    | _ ∷ _ ↦ none
    | [] ↦ elim s.servers [
      | _ ∷ _ ↦ none
      | [] ↦ elim s.exit_code [ some exit_code ↦ some (err exit_code) | none ↦ some (ok tt) ]
    ]
  ]

  -- `serve_requests`, given the events of its run; `none` as long as it has not returned.
  unfoldable pub serve_requests :
      N.Sender → List N.SocketAddr → List ServeEvent → Option (Result ℕ (Unit {0}))
  unfolding serve_all returned
  serve_requests shutdown_tx http_sockets events =
      elim (serve_all (start_serving shutdown_tx http_sockets) events) [
        | none ↦ none
        | some s ↦ returned s
      ]
