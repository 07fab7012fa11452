-- ===== src/Examples/Messages.antt =====
-- Backup tasks and the worker at concrete values.
use web_cloud_disk.Base.{
  ◌+◌, ◌*◌, ◌^◌, ◌≡◌, refl, true, [], ◌∷◌, Bytes, success, arith, length, all,
}
use web_cloud_disk.Flow.{Always}
use web_cloud_disk.Numbers.Hex.{is_xdigit}
use web_cloud_disk.Storage.Local.{FileStorage, file_storage}
use web_cloud_disk.Storage.Disk.Sending.{Meets}
use web_cloud_disk.Storage.Local.Publish.{Keeps}
use web_cloud_disk.Storage.Oss.{OssBackupStorage}
use web_cloud_disk.Examples.Contents.{root, full_disk, full_disk-Intact}
use web_cloud_disk.Messaging.BackupTask.{
  BackupTask, is_valid_hashcode, task_members, serialize_backup_task, parse_backup_task,
}
use web_cloud_disk.Messaging.BackupTask.RoundTrip.{
  parse-serialize, parse-success, parse_wrapped_version,
}
use web_cloud_disk.Worker
use web_cloud_disk.Worker.Contents.{Whole, run-Copies}
use web_cloud_disk.Worker.Rounds.{NeedsTests, run-NeedsTests}
use web_cloud_disk.Worker.Safety.{Justified, run-Always}
use web_cloud_disk.Examples.Libraries.{crypto, json, json_laws}

abbrev hashcode : Bytes
hashcode =
    b'a' ∷ b'a' ∷ b'a' ∷ b'a' ∷ b'a' ∷ b'a' ∷ b'a' ∷ b'a' ∷ b'a' ∷ b'a' ∷ b'a' ∷ b'a' ∷ b'a' ∷ b'a'
    ∷ b'a' ∷ b'a' ∷ b'0' ∷ b'0' ∷ b'0' ∷ b'0' ∷ b'0' ∷ b'0' ∷ b'0' ∷ b'0' ∷ b'0' ∷ b'0' ∷ b'0'
    ∷ b'0' ∷ b'0' ∷ b'0' ∷ b'0' ∷ b'0' ∷ b'a' ∷ b'a' ∷ b'a' ∷ b'a' ∷ b'a' ∷ b'a' ∷ b'a' ∷ b'a'
    ∷ b'a' ∷ b'a' ∷ b'a' ∷ b'a' ∷ b'a' ∷ b'a' ∷ b'a' ∷ b'a' ∷ b'9' ∷ b'9' ∷ b'9' ∷ b'9' ∷ b'9'
    ∷ b'9' ∷ b'9' ∷ b'9' ∷ b'9' ∷ b'9' ∷ b'9' ∷ b'9' ∷ b'9' ∷ b'9' ∷ b'9' ∷ b'9' ∷ []

hashcode_valid : is_valid_hashcode hashcode ≡ true
unfolding is_valid_hashcode
hashcode_valid = refl

abbrev task : BackupTask
task = record { version = 1; hashcode = hashcode; size = 5 }

abbrev body : Bytes
body = json.dump (json.object (task_members json task))

task_serialized : serialize_backup_task json task ≡ success body
unfolding serialize_backup_task is_valid_hashcode
task_serialized = refl

parse-serialize_example : parse_backup_task json body ≡ success task
parse-serialize_example = parse-serialize json json_laws task body (omega arith) task_serialized

parse-success_example :
    (task.version ≡ 1) × (length hashcode ≡ 64) × (all is_xdigit hashcode ≡ true)
parse-success_example = parse-success json body task parse-serialize_example

parse_wrapped_version_example :
    parse_backup_task json (
      json.dump (
        json.object
          (task_members json (record { version = 1 + 3 * 2 ^ 32; hashcode = hashcode; size = 5 }))))
    ≡ success (record { version = 1; hashcode = hashcode; size = 5 })
parse_wrapped_version_example =
    parse_wrapped_version json json_laws 3 hashcode 5 (omega arith) hashcode_valid (omega arith)

abbrev files : FileStorage
files = record { root = b'/' ∷ b'd' ∷ []; temporary_root = b'/' ∷ b't' ∷ [] }

abbrev oss : OssBackupStorage
oss = record { bucket = b'b' ∷ []; key_prefix = b'k' ∷ b'/' ∷ [] }

run_example : Always (Justified json files oss) [] (Worker.run json files oss 10)
run_example = run-Always json files oss 10 []

rounds_example : NeedsTests 10 [] (Worker.run json files oss 10)
rounds_example = run-NeedsTests json files oss 10

copies_example :
    Meets []
      (Keeps crypto root)
      (Whole crypto json root oss)
      full_disk
      (Worker.run json (file_storage root) oss 3)
copies_example = run-Copies crypto json root oss 3 full_disk full_disk-Intact
