-- ===== src/Programs/BackupWorker.antt =====
-- worker/main.cc.
use web_cloud_disk.Base.{ℕ, Option, none, some, List, Bytes, codes, Result, success, failure}
use web_cloud_disk.Flow.{answer, call, then_with}
use web_cloud_disk.Config.Types.{BackupWorkerConfig}
use web_cloud_disk.Config.Load.{load_backup_worker}
use web_cloud_disk.Messaging.Json.{JsonLibrary}
use web_cloud_disk.Storage.Local.{FileStorage, file_storage, init}
use web_cloud_disk.Storage.Oss.{OssBackupStorage}
use web_cloud_disk.Storage.Oss
use web_cloud_disk.Worker
use web_cloud_disk.Worker.Creation.{create_worker}
use web_cloud_disk.Programs.{
  has_keys, Program, Exit, returned, out_of_rounds, handle_signals, in_backend, usage, with_options,
  with_config, with_log,
}

unfoldable pub worker_usage : Bytes
worker_usage = usage (codes "cloud_disk_backup_worker") (codes "backup worker")

unfoldable pub worker_exit : Option (Result (Unit {0})) → Exit
worker_exit none = out_of_rounds
worker_exit (some (failure e)) = returned 1
worker_exit (some (success u)) = returned 0

-- The steps of `main` in turn, each with the result of the one before; the loop has `rounds` rounds.
module _ {J : Type 0} (json : JsonLibrary J) (rounds : ℕ) (config : BackupWorkerConfig) where
  abbrev pub storage : FileStorage
  storage = file_storage config.storage.root

  unfoldable pub run_worker : OssBackupStorage → Result (Unit {0}) → Program
  unfolding worker_exit
  run_worker oss (failure e) = answer (returned 1)
  run_worker oss (success u) =
      call handle_signals
        λ v. then_with (in_backend (Worker.run json storage oss rounds)) λ r. answer (worker_exit r)

  unfoldable pub with_oss : Result OssBackupStorage → Program
  unfolding run_worker
  with_oss (failure e) = answer (returned 1)
  with_oss (success oss) = then_with (in_backend (create_worker config.rabbitmq)) (run_worker oss)

  unfoldable pub with_worker_storage : Result (Unit {0}) → Program
  unfolding with_oss
  with_worker_storage (failure e) = answer (returned 1)
  with_worker_storage (success u) = call has_keys λ keys. with_oss (Oss.create keys config.oss)

  unfoldable pub run_backup_worker : Program
  unfolding with_worker_storage
  run_backup_worker = then_with (in_backend (init storage)) with_worker_storage

unfoldable pub main_backup_worker :
    {J : Type 0} → JsonLibrary J → ℕ → (Bytes → Bytes) → (Bytes → Bytes) → List Bytes → Program
unfolding run_backup_worker
main_backup_worker json rounds normal parent_path arguments =
    with_options worker_usage arguments λ path.
      with_config normal (λ get. load_backup_worker get normal) path
        λ config. with_log parent_path config.log (run_backup_worker json rounds config)
