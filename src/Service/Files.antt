-- ===== src/Service/Files.antt =====
-- service/FileService.
pub mod Names
pub mod Upload
pub mod Footprint
pub mod Granted
pub mod Interleaved
pub mod Store
pub mod Recorded
pub mod Success
pub mod Download
use web_cloud_disk.Base.{
  ℕ, suc, ◌+◌, Bool, true, false, not, ◌||◌, Option, none, some, List, [], ◌∷◌, Bytes, codes,
  Result, success, failure, fail, ltb, beq, contains, ◌==◌, if◌then◌else◌, length, is_empty, drop,
}
use web_cloud_disk.Model.{FileInfo}
use web_cloud_disk.Flow.{Flow, answer, call, ◌>>=◌, then_with}
use web_cloud_disk.Backend.{Request, Reply, Task, compute}
use web_cloud_disk.Repository.Files.{list_by_user, find_owned, create_file}
use web_cloud_disk.Security.Crypto.{Crypto}
use web_cloud_disk.Security.Sha256.{hex}
use web_cloud_disk.Storage.Local.{FileStorage, path_for, exists, store_if_absent}
use web_cloud_disk.Messaging.Json.{JsonLibrary}
use web_cloud_disk.Messaging.BackupTask.{current_version}
use web_cloud_disk.Messaging.Publisher.{publish}

pub record UploadedFile : Type 0 where
  pub file_id : ℕ
  pub filename : Bytes

pub record DownloadFile : Type 0 where
  pub filename : Bytes
  pub path : Bytes

abbrev pub is_slash : ℕ → Bool
is_slash c = c == b'/' || c == b'\\'

-- `find_last_of("/\\")`
unfoldable pub find_last_slash : Bytes → Option ℕ
find_last_slash [] = none
find_last_slash (c ∷ s) = elim (find_last_slash s) [
  | some i ↦ some (suc i)
  | none ↦ if is_slash c then some 0 else none
]

unfoldable pub base_name : Bytes → Bytes
unfolding find_last_slash
base_name filename = elim (find_last_slash filename) [
  | none ↦ filename
  | some i ↦ drop (i + 1) filename
]

unfoldable pub dot : Bytes
unfolding codes
dot = codes "."

unfoldable pub dot_dot : Bytes
unfolding codes
dot_dot = codes ".."

unfoldable pub bad_name : Bytes → Bool
bad_name base =
    is_empty base
    || (beq base dot
        || (beq base dot_dot
            || (ltb 255 (length base)
                || (contains 0 base || (contains 13 base || contains 10 base)))))

unfoldable pub sanitize_filename : Bytes → Result Bytes
unfolding base_name bad_name
sanitize_filename filename =
    if bad_name (base_name filename)
    then fail 400 "Invalid filename"
    else success (base_name filename)

-- `backup_task_publisher_` is the publisher's queue, or `none` for the null pointer.
module _ {J : Type 0} (json : JsonLibrary J) (publisher : Option Bytes) where
  unfoldable pub try_publish_backup : Bytes → ℕ → Flow Request Reply (Unit {0})
  unfolding publish
  try_publish_backup hashcode size = elim publisher [
    | none ↦ answer tt
    | some queue ↦
        then_with
          (publish json queue
            (record { version = current_version; hashcode = hashcode; size = size }))
          (λ published. answer tt)
  ]

module _ (escape : Bytes → Bytes) (s : FileStorage) where
  unfoldable pub list : ℕ → Task (List FileInfo)
  unfolding list_by_user
  list user_id = list_by_user escape user_id

  abbrev not_found : Task DownloadFile
  not_found = answer (fail 404 "File not found")

  unfoldable pub prepare_download : FileInfo → Task DownloadFile
  unfolding exists
  prepare_download file = elim (path_for s file.hashcode) [
    | failure e ↦ not_found
    | success path ↦ then_with (exists s file.hashcode) λ there.
        if not there
        then not_found
        else answer (success (record { filename = file.filename; path = path }))
  ]

  unfoldable pub check_download : Option FileInfo → Task DownloadFile
  unfolding prepare_download
  check_download none = not_found
  check_download (some file) = prepare_download file

  unfoldable pub find_download : ℕ → ℕ → Task DownloadFile
  unfolding find_owned check_download
  find_download user_id file_id = do found ← find_owned escape user_id file_id; check_download found

module _ {J : Type 0} (escape : Bytes → Bytes) (crypto : Crypto) (json : JsonLibrary J)
    (s : FileStorage) (publisher : Option Bytes) (max_file_size : ℕ) where
  -- The rest of `upload` once the content is stored.
  unfoldable pub record_upload : ℕ → Bytes → Bytes → ℕ → Task UploadedFile
  unfolding create_file try_publish_backup
  record_upload user_id safe_filename content_hashcode file_size = do
    file_id ← create_file escape user_id safe_filename content_hashcode file_size
    call compute λ _.
        then_with (try_publish_backup json publisher content_hashcode file_size)
          λ _. answer (success (record { file_id = file_id; filename = safe_filename }))

  unfoldable pub upload : ℕ → Bytes → Bytes → Task UploadedFile
  unfolding store_if_absent record_upload
  upload user_id untrusted_filename content =
      if ltb max_file_size (length content)
      then answer (fail 413 "File size exceeds the limit")
      else do
        filename ← answer (sanitize_filename untrusted_filename)
        hashcode ← answer (hex crypto content)
        stored ← store_if_absent s hashcode content
        record_upload user_id filename hashcode (length content)
