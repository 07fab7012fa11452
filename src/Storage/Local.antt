-- ===== src/Storage/Local.antt =====
-- storage/FileStorage: contents at root/<hash>, written under root/.tmp and renamed.
pub mod Names
pub mod Publish
pub mod Footprint
use web_cloud_disk.Base.{
  ℕ, Bool, true, false, not, ◌&&◌, Option, none, some, [], ◌∷◌, ◌++◌, Bytes, codes, Result, success,
  failure, fail, ◌==◌, if◌then◌else◌, length, all,
}
use web_cloud_disk.Numbers.Hex.{is_xdigit, hex_text}
use web_cloud_disk.Flow.{Flow, answer, call, ◌>>=◌}
use web_cloud_disk.Backend.{
  FileStatus, Filled, Request, Reply, Task, rand_bytes, create_directories, is_regular_file,
  open_truncate, write_flush, remove, rename,
}
use web_cloud_disk.Storage.Paths.{◌//◌}

pub record FileStorage : Type 0 where
  pub root : Bytes
  pub temporary_root : Bytes

unfoldable pub tmp_name : Bytes
unfolding codes
tmp_name = codes ".tmp"

-- The constructor.
unfoldable pub file_storage : Bytes → FileStorage
file_storage root = record { root = root; temporary_root = root // tmp_name }

unfoldable pub is_valid_hashcode : Bytes → Bool
is_valid_hashcode hashcode = if not (length hashcode == 64) then false else all is_xdigit hashcode

-- The name behind the temporary folder: the hash, a dot and the random suffix.
unfoldable pub temporary_name : Bytes → Bytes → Bytes
temporary_name hashcode random_bytes = hashcode ++ (b'.' ∷ hex_text random_bytes)

module _ (s : FileStorage) where
  unfoldable pub init : Task (Unit {0})
  init = call (create_directories s.root) λ made.
      if not made
      then answer (fail 500 "Failed to create file storage directory")
      else call (create_directories s.temporary_root) λ made_temporary.
        if not made_temporary
        then answer (fail 500 "Failed to create temporary file directory")
        else answer (success tt)

  unfoldable pub path_for : Bytes → Result Bytes
  path_for hashcode =
      if not (is_valid_hashcode hashcode)
      then fail 500 "Invalid file hash format"
      else success (s.root // hashcode)

  unfoldable pub exists : Bytes → Flow Request Reply Bool
  exists hashcode = elim (path_for hashcode) [
    | failure e ↦ answer false
    | success path ↦
        call (is_regular_file path) (λ status. answer (status.regular && not status.error))
  ]

  unfoldable pub temporary_path_of : Bytes → Option (Filled 8) → Result Bytes
  temporary_path_of hashcode none = fail 500 "Failed to generate temporary filename"
  temporary_path_of hashcode (some random_bytes) =
      success (s.temporary_root // temporary_name hashcode random_bytes.bytes)

  unfoldable pub temporary_path : Bytes → Task Bytes
  temporary_path hashcode = call (rand_bytes 8) (λ r. answer (temporary_path_of hashcode r))

-- After a failed `rename`: another request may have published the same content meanwhile.
unfoldable pub settle : Bytes → Bytes → Task Bool
settle temp_path final_path = call (is_regular_file final_path) λ status.
    if status.regular && not status.error
    then call (remove temp_path) (λ _. answer (success false))
    else call (remove temp_path) (λ _. answer (fail 500 "Failed to save file"))

-- From the opening of the temporary file on.
unfoldable pub write_and_publish : Bytes → Bytes → Bytes → Task Bool
unfolding settle
write_and_publish temp_path final_path content = call (open_truncate temp_path) λ opened.
    if not opened
    then answer (fail 500 "Failed to create temporary upload file")
    else call (write_flush temp_path content) λ written.
      if not written
      then call (remove temp_path) (λ _. answer (fail 500 "Failed to write file"))
      else call (rename temp_path final_path)
          λ renamed. if renamed then answer (success true) else settle temp_path final_path

module _ (s : FileStorage) where
  unfoldable pub store_if_absent : Bytes → Bytes → Task Bool
  unfolding temporary_path write_and_publish
  store_if_absent hashcode content = do
    final_path ← answer (path_for s hashcode)
    call (is_regular_file final_path) λ status.
        if status.regular then answer (success false) else do
          temp_path ← temporary_path s hashcode
          write_and_publish temp_path final_path content
