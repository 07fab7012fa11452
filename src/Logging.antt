-- ===== src/Logging.antt =====
-- log/Log: the levels, and the setting up of spdlog, whose calls are requests to the surroundings.
pub mod Setup
use web_cloud_disk.Base.{
  ℕ, Bool, true, not, ◌||◌, Option, none, some, ◌++◌, Bytes, codes, beq, AppError, Result, success,
  failure, fail, if◌then◌else◌, is_empty,
}
use web_cloud_disk.Flow.{Flow, answer, call}
use web_cloud_disk.Config.Types.{Log}

-- `spdlog::level::level_enum`
pub data Level : Type 0 where
  trace debug info warn err critical off : Level

unfoldable pub parse_level : Bytes → Option Level
parse_level level =
    if beq level (codes "trace")
    then some trace
    else if beq level (codes "debug")
    then some debug
    else if beq level (codes "info")
    then some info
    else if beq level (codes "warn") || beq level (codes "warning")
    then some warn
    else if beq level (codes "error") || beq level (codes "err")
    then some err
    else if beq level (codes "critical")
    then some critical
    else if beq level (codes "off")
    then some off
    else none

pub data Request : Type 0 where
  console_sink : Request
  create_directories : Bytes → Request
  -- path, size and number of files
  file_sink : Bytes → ℕ → ℕ → Request
  -- the logger of the sinks made so far, as the default one
  set_default_logger : Level → Request
  shutdown : Request

-- Of a call that may throw, the reply is the exception's text or `none`; `create_directories` says
-- whether it went well.
abbrev pub Reply : Request → Type 0
Reply console_sink = Option Bytes
Reply (create_directories p) = Bool
Reply (file_sink p s n) = Option Bytes
Reply (set_default_logger l) = Option Bytes
Reply shutdown = Unit {0}

abbrev pub Action : Type 0
Action = Flow Request Reply (Result (Unit {0}))

-- The handler of an exception.
unfoldable pub or_throw : Option Bytes → Action → Action
or_throw none rest = rest
or_throw (some what) rest =
    answer (
      failure (record { status_code = 500; message = codes "Log initialization failed: " ++ what }))

-- From the test for sinks on.
unfoldable pub install : Level → Bool → Action
unfolding or_throw
install level has_sinks =
    if not has_sinks
    then answer (fail 500 "Logging requires at least one output sink")
    else call (set_default_logger level) λ thrown. or_throw thrown (answer (success tt))

-- `parent_path` of the standard library is a parameter.
module _ (parent_path : Bytes → Bytes) (config : Log) where
  unfoldable pub make_file_sink : Level → Action
  unfolding install
  make_file_sink level =
      call (file_sink config.file config.roll_size config.roll_files)
        λ thrown. or_throw thrown (install level true)

  -- The sink of the file, if there is one.
  unfoldable pub add_file : Level → Action
  unfolding make_file_sink
  add_file level =
      if is_empty config.file
      then install level config.console
      else if is_empty (parent_path config.file)
      then make_file_sink level
      else call (create_directories (parent_path config.file)) λ made.
        if not made
        then answer (
            failure (record {
              status_code = 500;
              message = codes "Failed to create log directory: " ++ parent_path config.file;
            }))
        else make_file_sink level

  unfoldable pub add_console : Level → Action
  unfolding add_file
  add_console level =
      if not config.console
      then add_file level
      else call console_sink λ thrown. or_throw thrown (add_file level)

  unfoldable pub init : Action
  unfolding add_console parse_level
  init = elim (parse_level config.level) [
    | none ↦ answer (
        failure
          (record { status_code = 500; message = codes "Invalid log level: " ++ config.level }))
    | some level ↦ add_console level
  ]
