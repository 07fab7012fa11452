-- ===== src/Storage/Oss.antt =====
-- storage/OssBackupStorage: copies of contents in a bucket.
use web_cloud_disk.Base.{
  Bool, false, not, ◌||◌, [], ◌∷◌, ◌++◌, Bytes, Result, success, fail, ◌==◌, if◌then◌else◌,
  is_empty, length, all,
}
use web_cloud_disk.Numbers.Hex.{is_xdigit}
use web_cloud_disk.Flow.{answer, call}
use web_cloud_disk.Backend.{Task, is_regular_file, put_object}
use web_cloud_disk.Config.Types.{Oss}
use web_cloud_disk.Config.Sections.{starts_with_slash, ends_with_slash}

pub record OssBackupStorage : Type 0 where
  pub bucket : Bytes
  pub key_prefix : Bytes

-- `has_keys` says whether the environment holds credentials.
unfoldable pub create : Bool → Oss → Result OssBackupStorage
unfolding ends_with_slash
create has_keys config =
    if is_empty config.region || is_empty config.bucket
    then fail 500 "OSS region and bucket must not be empty"
    else if is_empty config.key_prefix || starts_with_slash config.key_prefix
    then fail 500 "OSS key prefix must be a non-empty relative prefix"
    else if not has_keys
    then fail 500 "OSS credentials are not configured"
    else success (record {
      bucket = config.bucket;
      key_prefix =
          if ends_with_slash config.key_prefix
          then config.key_prefix
          else config.key_prefix ++ b'/' ∷ [];
    })

unfoldable pub is_valid_hashcode : Bytes → Bool
is_valid_hashcode hashcode = if not (length hashcode == 64) then false else all is_xdigit hashcode

unfoldable pub backup_file : OssBackupStorage → Bytes → Bytes → Task (Unit {0})
unfolding is_valid_hashcode
backup_file s hashcode local_path =
    if not (is_valid_hashcode hashcode)
    then answer (fail 500 "Invalid file hash format")
    else call (is_regular_file local_path) λ status.
      if not status.regular
      then answer (fail 500 "OSS backup source file is unavailable")
      else call (put_object s.bucket (s.key_prefix ++ hashcode) local_path) λ stored.
        if not stored
        then answer (fail 500 "Failed to back up file to OSS")
        else answer (success tt)
