-- ===== src/Worker.antt =====
-- worker/BackupWorker: the loop over the messages of the queue.
pub mod Safety
pub mod Rounds
pub mod Contents
pub mod Creation
use web_cloud_disk.Base.{
  ℕ, zero, suc, Bool, not, Option, none, some, Bytes, Result, success, failure, fail, if◌then◌else◌,
}
use web_cloud_disk.Flow.{Flow, answer, call, then_with}
use web_cloud_disk.Backend.{
  Delivery, broken, timeout, message, Request, Reply, should_stop, basic_consume, basic_reject,
  basic_ack, basic_cancel,
}
use web_cloud_disk.Messaging.Json.{JsonLibrary}
use web_cloud_disk.Messaging.BackupTask.{BackupTask, parse_backup_task}
use web_cloud_disk.Storage.Local.{FileStorage, path_for, exists}
use web_cloud_disk.Storage.Oss.{OssBackupStorage, backup_file}

-- The result of `run`; `none` means that the rounds given are used up.
abbrev pub Run : Type 0
Run = Flow Request Reply (Option (Result (Unit {0})))

-- The handler of an exception of the broker's client.
abbrev pub connection_failed : Run
connection_failed = answer (some (fail 500 "RabbitMQ backup worker connection failed"))

-- `BasicReject` or `BasicAck`, then the next round.
unfoldable pub reject_then : Run → Run
reject_then next = call basic_reject λ sent. if sent then next else connection_failed

unfoldable pub ack_then : Run → Run
ack_then next = call basic_ack λ sent. if sent then next else connection_failed

unfoldable pub settle_backup : Run → Result (Unit {0}) → Run
settle_backup next (failure e) = answer (some (failure e))
settle_backup next (success u) = ack_then next

module _ {J : Type 0} (json : JsonLibrary J) (files : FileStorage) (oss : OssBackupStorage) where
  unfoldable pub back_up : Run → BackupTask → Run
  unfolding reject_then ack_then settle_backup
  back_up next task = elim (path_for files task.hashcode) [
    | failure e ↦ reject_then next
    | success local_path ↦ then_with (exists files task.hashcode) λ there.
        if not there
        then reject_then next
        else then_with (backup_file oss task.hashcode local_path) (settle_backup next)
  ]

  unfoldable pub consumed : Run → Delivery → Run
  unfolding back_up
  consumed next broken = connection_failed
  consumed next timeout = next
  consumed next (message body) = elim (parse_backup_task json body) [
    | failure e ↦ reject_then next
    | success task ↦ back_up next task
  ]

  -- `BasicCancel` after the loop.
  abbrev pub cancelled : Run
  cancelled =
      call basic_cancel λ sent. if sent then answer (some (success tt)) else connection_failed

  -- The loop, for a number of rounds.
  unfoldable pub run : ℕ → Run
  unfolding consumed
  run zero = answer none
  run (suc rounds) =
      let rest = run rounds in
      call should_stop λ stop. if stop then cancelled else call basic_consume (consumed rest)
