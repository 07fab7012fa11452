-- ===== src/Programs/Limits.antt =====
-- The requests of the programs carry values within the limits, from start to end.
pub mod Shared
pub mod Serving
pub mod Servers
pub mod Worker
use web_cloud_disk.Base.{ℕ, List, Bytes}
use web_cloud_disk.Messaging.Json.{JsonLibrary}
use web_cloud_disk.Config.Load.{
  load_user_service, load_file_service, load_gateway, load_backup_worker,
}
use web_cloud_disk.Config.Accepted.{
  load_user_service-IsUserService, load_file_service-IsFileService, load_gateway-IsGateway,
  load_backup_worker-IsBackupWorker,
}
use web_cloud_disk.Programs.UserService.{main_user_service}
use web_cloud_disk.Programs.FileService.{main_file_service}
use web_cloud_disk.Programs.Gateway.{main_gateway}
use web_cloud_disk.Programs.BackupWorker.{main_backup_worker}
use web_cloud_disk.Programs.Orderly.{
  Process, user_service, file_service, gateway, backup_worker, main,
}
use web_cloud_disk.Programs.Limits.Shared.{
  SoundProgram, with_options-Sound, with_config-Sound, with_log-Sound,
}
use web_cloud_disk.Programs.Limits.Servers.{
  run_user_service-Sound, run_file_service-Sound, run_gateway-Sound,
}
use web_cloud_disk.Programs.Limits.Worker.{run_backup_worker-Sound}

module _ {J : Type 0} (json : JsonLibrary J) (rounds : ℕ)
    (url_encode normal parent_path : Bytes → Bytes) (arguments : List Bytes) where
  -- Whatever the command line, the settings file and the replies of the surroundings are, each program's requests
  -- carry values within limits. The service that is added to the user service's server hashes passwords in at
  -- least 600000 rounds, which fit an `int`, signs tokens with a secret of at least 32 bytes and an issuer
  -- that is given, and lets tokens live from a minute to a week. That of the file service admits files of at
  -- least one byte; its server's limit on a request fits 64 bits and leaves room for a file of the largest
  -- size admitted and exactly 2 MiB more or, if 64 bits do not hold that sum, is at least that size; and it
  -- publishes backups to a queue with a name, if at all. The gateway's limit exceeds 1 MiB. Queries are
  -- retried at most ten times. Servers listen at, and are registered with, a port from 1 to 65535; a
  -- registration names service, instance and address, and a removal an instance. Clients of Consul have a
  -- data centre and an address that is `http://` or `https://`, then a host without blanks and '@', and
  -- nothing more but a '/' at the end, the host being empty only before that; a health check's timeout does
  -- not exceed its interval; and the gateway's client asks for passing instances only. The broker's host,
  -- port, vhost, user, password and queue are all given; contents are copied to a bucket with a name, under
  -- a relative key; and a log file has a name and a size and is one of at most 1000.
  pub main-Sound :
      (process : Process)
      → SoundProgram (main json rounds url_encode normal parent_path arguments process)
  unfolding main_user_service main_file_service main_gateway main_backup_worker
  main-Sound user_service = with_options-Sound _ arguments _ λ path.
      with_config-Sound normal (λ get. load_user_service get normal) path _
        λ get working_dir config accepted.
          let ok = load_user_service-IsUserService get normal working_dir config accepted in
          with_log-Sound parent_path config.log _ ok.log
            (run_user_service-Sound url_encode config ok)
  main-Sound file_service = with_options-Sound _ arguments _ λ path.
      with_config-Sound normal (λ get. load_file_service get normal) path _
        λ get working_dir config accepted.
          let ok = load_file_service-IsFileService get normal working_dir config accepted in
          with_log-Sound parent_path config.log _ ok.log
            (run_file_service-Sound url_encode config ok)
  main-Sound gateway = with_options-Sound _ arguments _ λ path.
      with_config-Sound normal (λ get. load_gateway get normal) path _
        λ get working_dir config accepted.
          let ok = load_gateway-IsGateway get normal working_dir config accepted in
          with_log-Sound parent_path config.log _ ok.log (run_gateway-Sound config ok)
  main-Sound backup_worker = with_options-Sound _ arguments _ λ path.
      with_config-Sound normal (λ get. load_backup_worker get normal) path _
        λ get working_dir config accepted.
          let ok = load_backup_worker-IsBackupWorker get normal working_dir config accepted in
          with_log-Sound parent_path config.log _ ok.log
            (run_backup_worker-Sound json rounds config ok)
