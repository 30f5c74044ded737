-- ===== src/Server/Commands.antt =====
-- bins/server/src/commands.rs and logging.rs: the arguments of the program and its way to log.
use yeet_yoink.Common.{
  String, List, [], ◌∷◌, Bool, true, false, Option, none, some, Result, ok, err, map_err, text_eq,
  if◌then◌else◌,
}

pub data LoggingStyle : Type 0 where
  compact json : LoggingStyle

-- `SocketAddr::from_str` and its error's text, and `Path::is_file`.
pub record System : Type 1 where
  pub SocketAddr : Type 0
  pub AddrParseError : Type 0
  pub from_str : String → Result AddrParseError SocketAddr
  pub addr_error_text : AddrParseError → String
  pub is_file : String → Bool

unfoldable pub logging_style : String → Result String LoggingStyle
logging_style s =
    if text_eq.beq s "simple"
    then ok compact
    else if text_eq.beq s "compact"
    then ok compact
    else if text_eq.beq s "json"
    then ok json
    else err "Either simple or json must be specified"

module _ (S : System) where
  abbrev pub socket_addr : String → Result String S.SocketAddr
  socket_addr s = map_err S.addr_error_text (S.from_str s)

  abbrev pub valid_file : String → Result String String
  valid_file value =
      if S.is_file value
      then ok value
      else err "The provided path does not point to an existing file."

  -- What the parser of an argument makes of its text.
  pub data Parsed : Type 0 where
    style_value : LoggingStyle → Parsed
    socket_value : S.SocketAddr → Parsed
    file_value : String → Parsed

  abbrev parsed : {A : Type 0} → (A → Parsed) → Result String A → Result String Parsed
  parsed f (ok a) = ok (f a)
  parsed f (err e) = err e

  -- One `Arg`: its names, its default, whether it takes several values, and its parser.
  pub record Arg : Type 0 where
    pub name : String
    pub short : Option String
    pub long : String
    pub env : String
    pub value_name : String
    pub default_value : Option String
    pub help : String
    pub many_values : Bool
    pub value_parser : String → Result String Parsed
    pub help_heading : String

  -- The arguments of `build_command`.
  abbrev pub build_command : List Arg
  build_command =
      record {
        name = "logging_style";
        short = none;
        long = "log";
        env = "APP_LOG_STYLE";
        value_name = "STYLE";
        default_value = some "simple";
        help = "The logging style to use (simple, json)";
        many_values = false;
        value_parser = λ s. parsed style_value (logging_style s);
        help_heading = "Logging";
      }
      ∷ record {
        name = "bind_http";
        short = none;
        long = "http";
        env = "APP_SERVER_BIND_HTTP";
        value_name = "SOCKET";
        default_value = some "127.0.0.1:8080";
        help = "The socket to bind insecure HTTP on";
        many_values = true;
        value_parser = λ s. parsed socket_value (socket_addr s);
        help_heading = "Server";
      }
      ∷ record {
        name = "config_file";
        short = some "c";
        long = "config";
        env = "APP_CONFIG_FILE";
        value_name = "PATH";
        default_value = none;
        help = "The config file to load";
        many_values = false;
        value_parser = λ s. parsed file_value (valid_file s);
        help_heading = "Configuration";
      }
      ∷ []

-- What `initialize` sets on the formatter of tracing-subscriber.
pub record Formatter : Type 0 where
  pub with_file : Bool
  pub with_line_number : Bool
  pub with_thread_ids : Bool
  pub with_target : Bool
  pub as_json : Bool

unfoldable pub initialize : LoggingStyle → Formatter
initialize style =
    let formatter : Formatter = record {
      with_file = false;
      with_line_number = false;
      with_thread_ids = true;
      with_target = true;
      as_json = false;
    } in
    elim style [ compact ↦ formatter | json ↦ record formatter { as_json = true } ]

-- The argument has a default, so `unwrap` finds a value; `none` is its panic.
abbrev pub initialize_from_matches : Option LoggingStyle → Option Formatter
initialize_from_matches none = none
initialize_from_matches (some style) = some (initialize style)
