-- ===== src/Programs/FileService.antt =====
-- file_service/main.cc.
use web_cloud_disk.Base.{some, List, Bytes, codes, Result, success, failure, if◌then◌else◌}
use web_cloud_disk.Flow.{answer, then_with}
use web_cloud_disk.Config.Types.{FileServiceConfig}
use web_cloud_disk.Config.Load.{load_file_service}
use web_cloud_disk.Database.{make_client}
use web_cloud_disk.Messaging.Publisher.{create}
use web_cloud_disk.Gateway.Routes.{request_limit}
use web_cloud_disk.Storage.Local.{file_storage, init}
use web_cloud_disk.Service.Instances.{FileService, new_file_service, set_backup_task_publisher}
use web_cloud_disk.Programs.{
  file_rpc, Program, returned, in_backend, usage, with_options, with_config, with_log, serve,
}

unfoldable pub file_usage : Bytes
file_usage = usage (codes "cloud_disk_file_service") (codes "file service")

-- The RPC server, once the file service is made.
unfoldable pub serve_files : FileServiceConfig → Result FileService → Program
serve_files config (failure e) = answer (returned 1)
serve_files config (success service) =
    serve config.consul config.consul.file_service_name config.rpc.file_service_host
      config.rpc.file_service_port (file_rpc service)
      (request_limit 2097152 config.storage.max_file_size)

-- The publisher that was made, handed to the file service.
unfoldable pub with_publisher : FileService → Result Bytes → Result FileService
unfolding set_backup_task_publisher
with_publisher service (failure e) = failure e
with_publisher service (success queue) = success (set_backup_task_publisher (some queue) service)

unfoldable pub made_file_service : (Bytes → Bytes) → FileServiceConfig → FileService
unfolding new_file_service
made_file_service url_encode config =
    new_file_service (make_client url_encode config.database) (file_storage config.storage.root)
      config.storage.max_file_size

-- Behind the set-up of the storage.
unfoldable pub with_storage : (Bytes → Bytes) → FileServiceConfig → Result (Unit {0}) → Program
unfolding serve_files with_publisher made_file_service
with_storage url_encode config (failure e) = answer (returned 1)
with_storage url_encode config (success u) =
    if config.backup_enabled
    then then_with (in_backend (create config.rabbitmq))
        (λ r. serve_files config (with_publisher (made_file_service url_encode config) r))
    else serve_files config (success (made_file_service url_encode config))

unfoldable pub run_file_service : (Bytes → Bytes) → FileServiceConfig → Program
unfolding with_storage
run_file_service url_encode config =
    then_with (in_backend (init (file_storage config.storage.root)))
      (with_storage url_encode config)

unfoldable pub main_file_service :
    (Bytes → Bytes) → (Bytes → Bytes) → (Bytes → Bytes) → List Bytes → Program
unfolding run_file_service
main_file_service url_encode normal parent_path arguments =
    with_options file_usage arguments λ path.
      with_config normal (λ get. load_file_service get normal) path
        λ config. with_log parent_path config.log (run_file_service url_encode config)
