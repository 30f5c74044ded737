-- ===== src/Config/Load.antt =====
-- crates/app-config/src/lib.rs: the files that a configuration is read from.
use yeet_yoink.Common.{
  Bool, true, false, String, List, [], ◌∷◌, ◌++◌, Option, none, some, Result, ok, err,
}
use yeet_yoink.Config.{AppConfig}

pub data FileFormat : Type 0 where
  yaml : FileFormat

-- `File::from(path).format(format).required(required)` of the crate config.
pub record Source (PathBuf : Type 0) : Type 0 where
  pub path : PathBuf
  pub format : FileFormat
  pub required : Bool

-- The crate config, over the files there are, and `Path::join`.
pub record ConfigFiles : Type 1 where
  pub PathBuf : Type 0
  pub join : PathBuf → String → PathBuf
  pub Files : Type 0
  pub Config : Type 0
  pub ConfigError : Type 0
  -- `ConfigBuilder::build`, given the sources in the order in which they were added.
  pub build : Files → List (Source PathBuf) → Result ConfigError Config
  pub try_deserialize : Config → Result ConfigError AppConfig

module _ (C : ConfigFiles) where
  abbrev yaml_file : C.PathBuf → Bool → Source C.PathBuf
  yaml_file path required = record { path = path; format = yaml; required = required }

  -- Add the default configuration.
  abbrev pub default_sources : C.PathBuf → List (Source C.PathBuf)
  default_sources config_dir =
      yaml_file (C.join config_dir "default.yml") false
      ∷ yaml_file (C.join config_dir "default.yaml") false
      ∷ []

  -- The sources, in the order in which `load` adds them.
  unfoldable pub sources : C.PathBuf → Option C.PathBuf → List (Source C.PathBuf)
  sources config_dir none = default_sources config_dir
  sources config_dir (some path) = default_sources config_dir ++ yaml_file path true ∷ []

  -- `AppConfig::load`
  unfoldable pub load : C.Files → C.PathBuf → Option C.PathBuf → Result C.ConfigError AppConfig
  unfolding sources
  load files config_dir config_file = elim (C.build files (sources config_dir config_file)) [
    | err e ↦ err e
    | ok config ↦ C.try_deserialize config
  ]
