-- ===== src/Programs.antt =====
-- The four programs from start to end: what their main functions share. A program is a series of
-- requests to its surroundings that ends with an exit.
pub mod UserService
pub mod FileService
pub mod Gateway
pub mod BackupWorker
pub mod Lifecycle
pub mod Conformance
pub mod Beginning
pub mod Working
pub mod Serving
pub mod Orderly
pub mod Sound
pub mod Limits
use web_cloud_disk.Base.{
  ℕ, Bool, not, Option, none, some, List, [], ◌∷◌, ◌++◌, Bytes, codes, Result, success, failure,
  if◌then◌else◌,
}
use web_cloud_disk.Flow.{Flow, answer, call, then_with}
use web_cloud_disk.CommandLine.{parse_config_command_line}
use web_cloud_disk.Config.Types.{Consul, Log}
use web_cloud_disk.Config.Load.{Opened, load_config_file}
use web_cloud_disk.Backend
use web_cloud_disk.Service.Instances
use web_cloud_disk.Logging
use web_cloud_disk.Gateway.Routes.{RouteTable}
use web_cloud_disk.Discovery.Client.{ConsulConfig}
use web_cloud_disk.Discovery.Registrar
use web_cloud_disk.Discovery.Registrar.{register_service, deregister_service}

-- The services that are added to an RPC server, by the objects that they call; the users' service has the
-- database of the accounts' one.
pub data RpcService : Type 0 where
  user_rpc : Instances.AuthService → RpcService
  file_rpc : Instances.FileService → RpcService

pub data Request : Type 0 where
  print_out print_err : Bytes → Request
  -- `absolute`, `INIReader` and `current_path` of `load_config_file`
  open_config : Bytes → Request
  logging : Logging.Request → Request
  backend : Backend.Request → Request
  consul : Registrar.Request → Request
  -- `init` of the gateway's Consul client
  init_discovery : ConsulConfig → Request
  -- `hasKeys` of the environment's credentials
  has_keys : Request
  -- `signal` for SIGINT and SIGTERM
  handle_signals : Request
  -- an RPC server's service with a limit on the size of requests; an HTTP server's routes; the port
  add_service : RpcService → ℕ → Request
  register_routes : RouteTable → Request
  start_server : ℕ → Request
  stop_server : Request
  -- until a signal comes
  wait : Request

abbrev pub Reply : Request → Type 0
Reply (print_out s) = Unit {0}
Reply (print_err s) = Unit {0}
Reply (open_config p) = Opened
Reply (logging c) = Logging.Reply c
Reply (backend c) = Backend.Reply c
Reply (consul c) = Registrar.Reply c
Reply (init_discovery c) = Bool
Reply has_keys = Bool
Reply handle_signals = Unit {0}
Reply (add_service s n) = Bool
Reply (register_routes t) = Unit {0}
Reply (start_server p) = Bool
Reply stop_server = Unit {0}
Reply wait = Unit {0}

-- `terminated` stands for an exception that leaves `main`, `out_of_rounds` for a loop that goes on.
pub data Exit : Type 0 where
  returned : ℕ → Exit
  terminated out_of_rounds : Exit

abbrev pub Program : Type 0
Program = Flow Request Reply Exit

-- The series of a component as a part of a program.
abbrev pub in_logging : {A : Type 0} → Flow Logging.Request Logging.Reply A → Flow Request Reply A
in_logging (answer a) = answer a
in_logging (call c k) = call (logging c) (λ r. in_logging (k r))

abbrev pub in_backend : {A : Type 0} → Flow Backend.Request Backend.Reply A → Flow Request Reply A
in_backend (answer a) = answer a
in_backend (call c k) = call (backend c) (λ r. in_backend (k r))

abbrev pub in_consul :
    {A : Type 0} → Flow Registrar.Request Registrar.Reply A → Flow Request Reply A
in_consul (answer a) = answer a
in_consul (call c k) = call (consul c) (λ r. in_consul (k r))

abbrev pub newline : Bytes
newline = 10 ∷ []

-- The texts of `usage`, by the program's name and what it calls its configuration.
unfoldable pub usage : Bytes → Bytes → Bytes
usage name what =
    codes "Usage: "
    ++ (name
        ++ (codes " -c <file>\n\nOptions:\n  -c, --config <file>    Path to the "
            ++ (what
                ++ codes " INI configuration\n  -h, --help             Show this help message\n")))

-- `options.value().config_file.value()`
unfoldable pub with_path : Option Bytes → (Bytes → Program) → Program
with_path none rest = answer terminated
with_path (some path) rest = rest path

unfoldable pub with_options : Bytes → List Bytes → (Bytes → Program) → Program
unfolding with_path
with_options usage_text arguments rest = elim (parse_config_command_line arguments) [
  | failure e ↦
      call (print_err (codes "Error: " ++ (e.message ++ (codes "\n\n" ++ usage_text))))
        (λ u. answer (returned 2))
  | success options ↦
      if options.show_help
      then call (print_out usage_text) (λ u. answer (returned 0))
      else with_path options.config_file rest
]

-- A result that is printed and ends the program if it is an error.
unfoldable pub or_exit : {A : Type 0} → Result A → (A → Program) → Program
or_exit (failure e) rest = call (print_err (e.message ++ newline)) (λ u. answer (returned 1))
or_exit (success a) rest = rest a

unfoldable pub with_config :
    {A : Type 0}
    → (Bytes → Bytes)
    → ((Bytes → Bytes → Bytes → Bytes) → Bytes → Result A)
    → Bytes
    → (A → Program)
    → Program
unfolding or_exit
with_config normal loader path rest =
    call (open_config path) λ opened. or_exit (load_config_file normal path opened loader) rest

-- `Log::init`, then the rest of `main` under a `LogShutdownGuard`.
unfoldable pub with_log : (Bytes → Bytes) → Log → Program → Program
unfolding or_exit
with_log parent_path log rest = then_with (in_logging (Logging.init parent_path log)) λ result.
    or_exit result λ u. then_with rest λ exit. call (logging Logging.shutdown) λ v. answer exit

-- The part of `main` behind a successful registration, and behind one that failed.
unfoldable pub announced : Bytes × Result (Unit {0}) → Program
announced (held, failure e) = call stop_server λ u. answer (returned 1)
announced (held, success v) = call wait λ u.
    then_with (in_consul (deregister_service held)) λ r. call stop_server λ w. answer (returned 0)

-- From the creation of the registrar on.
unfoldable pub announce : Consul → Bytes → Bytes → ℕ → Result Bytes → Program
unfolding announced
announce config service_name host port (failure e) = call stop_server λ u. answer (returned 1)
announce config service_name host port (success registrar) =
    then_with (in_consul (register_service config service_name host port registrar)) announced

-- The RPC server of the user service and the file service: from `add_service` on.
unfoldable pub serve : Consul → Bytes → Bytes → ℕ → RpcService → ℕ → Program
unfolding announce
serve config service_name host port rpc_service request_size_limit =
    call (add_service rpc_service request_size_limit) λ added.
      if not added
      then answer (returned 1)
      else call handle_signals λ u. call (start_server port) λ started.
        if not started
        then answer (returned 1)
        else then_with (in_consul (Registrar.create config))
            (announce config service_name host port)
