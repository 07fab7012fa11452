-- ===== src/Programs/Lifecycle.antt =====
-- What a program owes its surroundings, as a machine whose steps are exchanges.
use web_cloud_disk.Base.{ℕ, ◌≡◌, ◌≢◌, Bool, true, false, none, some, List, [], Bytes}
use web_cloud_disk.Flow.{answer, call}
use web_cloud_disk.CommandLine.{ConfigCommandLineOptions}
use web_cloud_disk.CommandLine.Forms.{Form}
use web_cloud_disk.Config.Load.{Opened}
use web_cloud_disk.Backend
use web_cloud_disk.Logging.{
  Level, console_sink, create_directories, file_sink, set_default_logger, shutdown,
}
use web_cloud_disk.Gateway.Routes.{RouteTable}
use web_cloud_disk.Discovery.Client.{ConsulConfig}
use web_cloud_disk.Discovery.Registrar.{WfConsulTask, init_client, register_task, deregister_task}
use web_cloud_disk.Programs.{
  Request, Reply, print_out, print_err, open_config, logging, backend, consul, init_discovery,
  RpcService, handle_signals, add_service, register_routes, start_server, stop_server, wait, Exit,
  returned, out_of_rounds, has_keys, Program,
}

-- A server that is registered with Consul, one that is not, and a worker without a server.
pub data Kind : Type 0 where
  registered unregistered batch : Kind

-- The requests that set up the storage and the connection to the broker.
abbrev pub IsSetup : Backend.Request → Type 0
IsSetup (Backend.create_directories p) = Unit
IsSetup (Backend.open_channel o) = Unit
IsSetup (Backend.declare_queue q) = Unit
IsSetup _ = ⊥

pub data Phase : Type 0 where
  -- the command line asks for this text on its use; it is wrong; it names a settings file, of which these
  -- contents are accepted
  asked : Bytes → Phase
  mistaken : Phase
  given : Bytes → (Opened → Bool) → Phase
  -- no log yet; something failed before the log was set up; ended without a log, with an exit code
  cold faulty : Phase
  refused : ℕ → Phase
  -- the log is set up; the server listens; Consul names an instance of it
  ready listening : Phase
  announced : Bytes → Phase
  -- the program was told to stop; Consul was told, and may have refused
  leaving : Bytes → Phase
  retired : Phase
  -- the broker has a consumer; the worker works on messages; it saw its stop flag; its consumer is gone
  consuming working told finished : Phase
  -- the server is stopped; the log is shut down. `true` is an orderly end
  stopped closed : Bool → Phase

pub data Step (kind : Kind) : Phase → (c : Request) → Reply c → Phase → Type 0 where
  help : (usage : Bytes) → Step kind (asked usage) (print_out usage) tt (refused 0)
  complain_of_line : (why : Bytes) → why ≢ [] → Step kind mistaken (print_err why) tt (refused 2)
  settings :
      (p : Bytes) (ok : Opened → Bool) (r : Opened)
      → ok r ≡ true
      → Step kind (given p ok) (open_config p) r cold
  no_settings :
      (p : Bytes) (ok : Opened → Bool) (r : Opened)
      → ok r ≡ false
      → Step kind (given p ok) (open_config p) r faulty
  -- the settings of the log may be of no use without an exchange
  complain_of_log : (why : Bytes) → why ≢ [] → Step kind cold (print_err why) tt (refused 1)
  complain : (why : Bytes) → why ≢ [] → Step kind faulty (print_err why) tt (refused 1)
  prepare_console : Step kind cold (logging console_sink) none cold
  no_console : (what : Bytes) → Step kind cold (logging console_sink) (some what) faulty
  prepare_directory : (p : Bytes) → Step kind cold (logging (create_directories p)) true cold
  no_directory : (p : Bytes) → Step kind cold (logging (create_directories p)) false faulty
  prepare_file : (p : Bytes) (s n : ℕ) → Step kind cold (logging (file_sink p s n)) none cold
  no_file :
      (p : Bytes) (s n : ℕ) (what : Bytes)
      → Step kind cold (logging (file_sink p s n)) (some what) faulty
  no_log :
      (l : Level) (what : Bytes)
      → Step kind cold (logging (set_default_logger l)) (some what) faulty
  log_ready : (l : Level) → Step kind cold (logging (set_default_logger l)) none ready
  prepare :
      (c : Backend.Request) (r : Backend.Reply c) → IsSetup c → Step kind ready (backend c) r ready
  discovery : (c : ConsulConfig) (r : Bool) → Step kind ready (init_discovery c) r ready
  service : (s : RpcService) (n : ℕ) (r : Bool) → Step kind ready (add_service s n) r ready
  routes : (t : RouteTable) → Step kind ready (register_routes t) tt ready
  signals : Step kind ready handle_signals tt ready
  no_start : (p : ℕ) → Step kind ready (start_server p) false ready
  start : (p : ℕ) → Step kind ready (start_server p) true listening
  client : (c : ConsulConfig) (r : Bool) → Step kind listening (consul (init_client c)) r listening
  no_registration :
      (n i a : Bytes) (p : ℕ) (r : WfConsulTask)
      → r.state_success ≡ false
      → Step kind listening (consul (register_task n i a p)) r listening
  registration :
      (n i a : Bytes) (p : ℕ) (r : WfConsulTask)
      → r.state_success ≡ true
      → Step kind listening (consul (register_task n i a p)) r (announced i)
  signalled : (i : Bytes) → Step kind (announced i) wait tt (leaving i)
  signalled_unregistered : kind ≡ unregistered → Step kind listening wait tt retired
  deregistration :
      (i : Bytes) (r : WfConsulTask) → Step kind (leaving i) (consul (deregister_task i)) r retired
  stop : Step kind retired stop_server tt (stopped true)
  stop_early : Step kind listening stop_server tt (stopped false)
  credentials : (r : Bool) → Step kind ready has_keys r ready
  no_consumer : (q : Bytes) → Step kind ready (backend (Backend.basic_consume_start q)) false ready
  consumer : (q : Bytes) → Step kind ready (backend (Backend.basic_consume_start q)) true consuming
  begin : kind ≡ batch → Step kind consuming handle_signals tt working
  work : (c : Backend.Request) (r : Backend.Reply c) → Step kind working (backend c) r working
  told_to_stop : Step kind working (backend Backend.should_stop) true told
  no_cancel : Step kind told (backend Backend.basic_cancel) false working
  cancel : Step kind told (backend Backend.basic_cancel) true finished
  close_finished : Step kind finished (logging shutdown) tt (closed true)
  close_working : Step kind working (logging shutdown) tt (closed false)
  close : (b : Bool) → Step kind (stopped b) (logging shutdown) tt (closed b)
  close_early : Step kind ready (logging shutdown) tt (closed false)

-- Where a program starts, by its command line.
pub data Starts (usage : Bytes) (accepts : Bytes → Opened → Bool) (arguments : List Bytes)
    : Phase → Type 0 where
  helped :
      (o : ConfigCommandLineOptions)
      → Form arguments o
      → o.show_help ≡ true
      → Starts usage accepts arguments (asked usage)
  configured :
      (o : ConfigCommandLineOptions) (p : Bytes)
      → Form arguments o
      → o.show_help ≡ false
      → o.config_file ≡ some p
      → Starts usage accepts arguments (given p (accepts p))
  wrong :
      ((o : ConfigCommandLineOptions) → Form arguments o → ⊥)
      → Starts usage accepts arguments mistaken

-- Where a program may end, and with which exit code.
pub data Ends (kind : Kind) : Phase → Exit → Type 0 where
  without_log : (n : ℕ) → Ends kind (refused n) (returned n)
  orderly : Ends kind (closed true) (returned 0)
  -- where the model's rounds are used up
  endless : kind ≡ batch → Ends kind (closed false) out_of_rounds
  failed : Ends kind (closed false) (returned 1)

-- Every exchange of the program is a step of the machine, whatever the reply is, and it ends where it may.
abbrev pub Conforms : Kind → Phase → Program → Type 0
Conforms kind p (answer e) = Ends kind p e
Conforms kind p (call c k) = (r : Reply c) → (q : Phase) × Step kind p c r q × Conforms kind q (k r)
