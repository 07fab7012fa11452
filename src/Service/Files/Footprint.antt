-- ===== src/Service/Files/Footprint.antt =====
-- Which paths an upload touches, whatever the other requests do.
use web_cloud_disk.Base.{
  ℕ, ◌≡◌, true, Option, Bytes, Result, success, failure, ltb, length, Bool-cases, Option-cases,
  Result-cases, inl, inr,
}
use web_cloud_disk.Flow.{Flow, answer, call, ◌>>=◌, then_with}
use web_cloud_disk.Backend.{Request, Reply, compute}
use web_cloud_disk.Repository.Files.{create_file, read_created_file}
use web_cloud_disk.Security.Crypto.{Crypto}
use web_cloud_disk.Security.Sha256.{hex}
use web_cloud_disk.Storage.Paths.{◌//◌}
use web_cloud_disk.Storage.Disk.{Files}
use web_cloud_disk.Storage.Disk.Footprint.{Leaves, Leaves->>=, Leaves-then_with}
use web_cloud_disk.Storage.Local.{file_storage, is_valid_hashcode, store_if_absent}
use web_cloud_disk.Storage.Local.Footprint.{OnlyAt, OnlyAt-same, temp, store_if_absent-Leaves}
use web_cloud_disk.Messaging.Json.{JsonLibrary}
use web_cloud_disk.Messaging.BackupTask.{BackupTask, serialize_backup_task}
use web_cloud_disk.Messaging.Publisher.{publish}
use web_cloud_disk.Service.Files.{
  UploadedFile, sanitize_filename, try_publish_backup, record_upload, upload,
}

module _ {J : Type 0} (escape : Bytes → Bytes) (crypto : Crypto) (json : JsonLibrary J)
    (root : Bytes) (publisher : Option Bytes) (max_file_size : ℕ) (h drawn name : Bytes)
    (user_id size : ℕ) (valid : is_valid_hashcode h ≡ true) where
  abbrev Own : Files → Files → Type 0
  Own = OnlyAt (temp root h drawn valid) (root // h)

  abbrev LeavesOwn : {A : Type 0} → Flow Request Reply A → Type 0
  LeavesOwn = Leaves drawn Own

  Own-same : (f f' : Files) → f' ≡ f → Own f f'
  Own-same = OnlyAt-same (temp root h drawn valid) (root // h)

  publish-Leaves : (queue : Bytes) (task : BackupTask) → LeavesOwn (publish json queue task)
  unfolding publish
  publish-Leaves queue task = elim (Result-cases (serialize_backup_task json task)) [
    | inr (x, e) ↦ rw (e, ◌>>=◌) tt
    | inl (body, e) ↦
        rw (e, ◌>>=◌)
          λ f f' sent eff.
            (Own-same f f' eff, elim (Bool-cases sent) [ inl b ↦ rw b tt | inr b ↦ rw b tt ])
  ]

  try_publish-Leaves : LeavesOwn (try_publish_backup json publisher h size)
  unfolding try_publish_backup
  try_publish-Leaves = elim (Option-cases publisher) [
    | inl e ↦ rw e tt
    | inr (queue, e) ↦
        rw e
          (Leaves-then_with drawn Own (publish json queue _) _ (publish-Leaves queue _) (λ a. tt))
  ]

  created-Leaves :
      (r : Result ℕ)
      → LeavesOwn {A = Result UploadedFile} (
          answer r >>= λ file_id. call compute λ u.
            then_with
              (try_publish_backup json publisher h size)
              λ v. answer (success (record { file_id = file_id; filename = name })))
  created-Leaves (failure e) = tt
  created-Leaves (success id) = λ f f' u eff. (
    Own-same f f' eff,
    Leaves-then_with drawn Own (try_publish_backup json publisher h size) _ try_publish-Leaves
        (λ a. tt),
  )

  record_upload-Leaves : LeavesOwn (
      record_upload escape crypto json
        (file_storage root)
        publisher
        max_file_size
        user_id
        name
        h
        size)
  unfolding record_upload create_file
  record_upload-Leaves f f' task eff = (Own-same f f' eff, created-Leaves (read_created_file task))

  -- An upload touches its temporary file and the file under the hash of its content, and no other.
  pub upload-Leaves :
      (untrusted_filename content : Bytes)
      → size ≡ length content
      → sanitize_filename untrusted_filename ≡ success name
      → hex crypto content ≡ success h
      → Leaves drawn (OnlyAt (temp root h drawn valid) (root // h)) (
          upload escape crypto json
            (file_storage root)
            publisher
            max_file_size
            user_id
            untrusted_filename
            content)
  unfolding upload
  upload-Leaves untrusted_filename content sized sanitized hashed =
      elim (Bool-cases (ltb max_file_size (length content))) [
        | inl big ↦ rw big tt
        | inr fits ↦
            rw (fits, sanitized, hashed, ← sized, ◌>>=◌)
              (Leaves->>= drawn Own (store_if_absent (file_storage root) h content) _
                (store_if_absent-Leaves root h drawn valid content) (λ new. record_upload-Leaves))
      ]
