-- ===== src/Programs/Orderly.antt =====
-- The programs keep to the machine, from start to end.
use web_cloud_disk.Base.{ℕ, Bool, List, Bytes}
use web_cloud_disk.Config.Load.{
  Opened, load_user_service, load_file_service, load_gateway, load_backup_worker,
}
use web_cloud_disk.Programs.{Program}
use web_cloud_disk.Programs.Lifecycle.{
  Kind, registered, unregistered, batch, Phase, Starts, Conforms,
}
use web_cloud_disk.Messaging.Json.{JsonLibrary}
use web_cloud_disk.Programs.BackupWorker.{worker_usage, main_backup_worker}
use web_cloud_disk.Programs.Working.{run_backup_worker-Guarded}
use web_cloud_disk.Programs.Conformance.{with_log-Conforms}
use web_cloud_disk.Programs.Beginning.{loads, with_config-Conforms, with_options-Conforms}
use web_cloud_disk.Programs.UserService.{user_usage, main_user_service, run_user_service}
use web_cloud_disk.Programs.FileService.{file_usage, main_file_service}
use web_cloud_disk.Programs.Gateway.{gateway_usage, main_gateway}
use web_cloud_disk.Programs.Serving.{serve-Guarded, run_file_service-Guarded, run_gateway-Guarded}

pub data Process : Type 0 where
  user_service file_service gateway backup_worker : Process

abbrev pub kind : Process → Kind
kind user_service = registered
kind file_service = registered
kind gateway = unregistered
kind backup_worker = batch

abbrev pub usage_of : Process → Bytes
usage_of user_service = user_usage
usage_of file_service = file_usage
usage_of gateway = gateway_usage
usage_of backup_worker = worker_usage

-- Whether a program accepts what it reads of a settings file.
abbrev pub accepts : (Bytes → Bytes) → Process → Bytes → Opened → Bool
accepts normal user_service = loads (kind user_service) normal (λ get. load_user_service get normal)
accepts normal file_service = loads (kind file_service) normal (λ get. load_file_service get normal)
accepts normal gateway = loads (kind gateway) normal (λ get. load_gateway get normal)
accepts normal backup_worker =
    loads (kind backup_worker) normal (λ get. load_backup_worker get normal)

module _ {J : Type 0} (json : JsonLibrary J) (rounds : ℕ)
    (url_encode normal parent_path : Bytes → Bytes) (arguments : List Bytes) where
  abbrev pub main : Process → Program
  main user_service = main_user_service url_encode normal parent_path arguments
  main file_service = main_file_service url_encode normal parent_path arguments
  main gateway = main_gateway normal parent_path arguments
  main backup_worker = main_backup_worker json rounds normal parent_path arguments

  -- Whatever the command line, the files and the replies of its surroundings are, each program starts where
  -- the machine of Programs/Lifecycle puts its command line, keeps to that machine and ends where it
  -- allows. If help is asked for, it only prints its usage and returns 0. If the command line is none of
  -- the accepted ones, it only prints a message to the error stream and returns 2. Otherwise it first
  -- reads the file that is named; if it does not accept that, or if then a step of the log's set-up fails,
  -- it does nothing more than print a message to the error stream and return 1. Behind these comes the
  -- rest, and the log's shutdown comes last. A program that registers its server does so only when the
  -- server listens, waits only when that succeeded, and at the end asks Consul to remove the instance
  -- before it stops the server; a server that listens is stopped on every path. The worker takes messages
  -- only as a consumer of the broker. Once its log is set up, a program returns 0 only after a stop on a
  -- signal, the worker only after it saw its stop flag and cancelled its consumer, and a program with a
  -- server always returns.
  pub main-Conforms :
      (process : Process)
      → (p : Phase) × Starts (usage_of process) (accepts normal process) arguments p
        × Conforms (kind process) p (main process)
  unfolding main_user_service run_user_service main_file_service main_gateway main_backup_worker
  main-Conforms user_service =
      with_options-Conforms registered _ (accepts normal user_service) arguments _ λ path.
        with_config-Conforms registered normal _ path _ λ config.
          with_log-Conforms registered parent_path config.log _ (serve-Guarded _ _ _ _ _ _)
  main-Conforms file_service =
      with_options-Conforms registered _ (accepts normal file_service) arguments _ λ path.
        with_config-Conforms registered normal _ path _ λ config.
          with_log-Conforms registered parent_path config.log _
            (run_file_service-Guarded url_encode config)
  main-Conforms gateway =
      with_options-Conforms unregistered _ (accepts normal gateway) arguments _ λ path.
        with_config-Conforms unregistered normal _ path _ λ config.
          with_log-Conforms unregistered parent_path config.log _ (run_gateway-Guarded config)
  main-Conforms backup_worker =
      with_options-Conforms batch _ (accepts normal backup_worker) arguments _ λ path.
        with_config-Conforms batch normal _ path _ λ config.
          with_log-Conforms batch parent_path config.log _
            (run_backup_worker-Guarded json rounds config)
