-- ===== src/Messaging/BackupTask.antt =====
-- messaging/BackupTask: the tasks that the file service hands to the backup worker.
pub mod RoundTrip
use web_cloud_disk.Base.{
  ℕ, Bool, true, false, not, ◌||◌, Option, none, some, List, [], ◌∷◌, Bytes, codes, Result, success,
  failure, fail, ◌==◌, if◌then◌else◌, length, all, reject_if,
}
use web_cloud_disk.Numbers.Hex.{is_xdigit}
use web_cloud_disk.Messaging.Json.{JsonLibrary}

pub record BackupTask : Type 0 where
  pub version : ℕ
  pub hashcode : Bytes
  pub size : ℕ

abbrev pub current_version : ℕ
current_version = 1

unfoldable pub is_valid_hashcode : Bytes → Bool
is_valid_hashcode hashcode = if not (length hashcode == 64) then false else all is_xdigit hashcode

unfoldable pub version_key : Bytes
unfolding codes
version_key = codes "version"

unfoldable pub hashcode_key : Bytes
unfolding codes
hashcode_key = codes "hashcode"

unfoldable pub size_key : Bytes
unfolding codes
size_key = codes "size"

-- The test behind the reading of the fields.
unfoldable pub supported : BackupTask → Result BackupTask
supported task =
    if not (task.version == current_version) || not (is_valid_hashcode task.hashcode)
    then fail 400 "Unsupported or invalid backup task message"
    else success task

module _ {J : Type 0} (json : JsonLibrary J) where
  abbrev pub task_members : BackupTask → List (Bytes × J)
  task_members task =
      (version_key, json.number task.version)
      ∷ (hashcode_key, json.text task.hashcode)
      ∷ (size_key, json.number task.size)
      ∷ []

  unfoldable pub serialize_backup_task : BackupTask → Result Bytes
  serialize_backup_task task =
      if not (task.version == current_version) || not (is_valid_hashcode task.hashcode)
      then fail 500 "Invalid backup task"
      else success (json.dump (json.object (task_members task)))

  -- The fields once `contains` found all three.
  unfoldable pub read_fields : Option J → Option J → Option J → Result BackupTask
  unfolding supported
  read_fields (some version) (some hashcode) (some size) =
      if not (json.is_number_unsigned version)
        || (not (json.is_string hashcode) || not (json.is_number_unsigned size))
      then fail 400 "Invalid backup task message"
      else supported (record {
        version = json.get_u32 version;
        hashcode = json.get_string hashcode;
        size = json.get_u64 size;
      })
  read_fields _ _ _ = fail 400 "Invalid backup task message"

  unfoldable pub parse_backup_task : Bytes → Result BackupTask
  unfolding read_fields
  parse_backup_task body = elim (json.parse body) [
    | none ↦ fail 400 "Invalid backup task message"
    | some j ↦
        if not (json.is_object j)
        then fail 400 "Invalid backup task message"
        else read_fields (json.member j version_key) (json.member j hashcode_key)
            (json.member j size_key)
  ]
