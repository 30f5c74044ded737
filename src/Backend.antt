-- ===== src/Backend.antt =====
-- crates/backend-traits: what the backbone tells the backends, and what a backend is.
pub mod Memcache
use yeet_yoink.Common.{ℕ, Bool, String, List, [], ◌∷◌, ◌++◌, Option, Result, ok, err, if◌then◌else◌}
use yeet_yoink.Crates.{Crates, IoError}
use yeet_yoink.Distribution.{WriteSummary, FileAccessorError}
use yeet_yoink.Backbone.Reader.{FileReader}

-- `BackendCommand`
pub data BackendCommand (K : Crates) : Type 0 where
  distribute_file : K.ShortGuid → WriteSummary → BackendCommand K

-- `BackendCommandSendError`: the channel is closed, and gives the command back.
pub data BackendCommandSendError (K : Crates) : Type 0 where
  send_error : BackendCommand K → BackendCommandSendError K

-- `BackendCommandSender`: the commands that went through its channel, oldest first, and whether the
-- receiver is still there.
pub record BackendCommandSender (K : Crates) : Type 0 where
  pub passed : List (BackendCommand K)
  pub listens : Bool

-- `send`; the wait for room is over.
unfoldable pub send :
    {K : Crates}
    → BackendCommandSender K
    → BackendCommand K
    → Result (BackendCommandSendError K) (Unit {0}) × BackendCommandSender K
send s command =
    if s.listens
    then (ok tt, record s { passed = s.passed ++ command ∷ [] })
    else (err (send_error command), s)

-- `DistributionError`. The error of a backend and that of a blocking task are kept as text.
pub data DistributionError (K : Crates) : Type 0 where
  backend_specific : String → DistributionError K
  file_accessor : FileAccessorError K → DistributionError K
  io : IoError → DistributionError K
  join : String → DistributionError K

-- `FileProvider`, a `GetFile` instance, as it answers at some time.
abbrev pub FileProvider : Crates → Type 0
FileProvider K = K.ShortGuid → Result (FileAccessorError K) (FileReader K)

-- `Backend`, with the state `S` that its `distribute_file` works on; `none` is a panic.
pub record Backend (K : Crates) (S : Type 0) : Type 0 where
  pub tag : String
  pub state : S
  pub distribute :
      S
      → K.ShortGuid
      → WriteSummary
      → FileProvider K
      → Option (Result (DistributionError K) (Unit {0}) × S)

-- `BackendInfo`, with the default of its second method.
pub record BackendInfo : Type 0 where
  pub backend_name : String
  pub backend_version : String

abbrev pub no_version : String
no_version = ""

-- `RegisterBackendError`
pub data RegisterBackendError : Type 0 where
  try_create_from_config : String → RegisterBackendError
