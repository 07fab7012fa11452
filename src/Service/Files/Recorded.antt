-- ===== src/Service/Files/Recorded.antt =====
-- What an upload that succeeds has had recorded.
use web_cloud_disk.Base.{
  ℕ, ◌≡◌, refl, Option, List, [], Bytes, Result, success, failure, ltb, length, Bool-cases, inl,
  inr,
}
use web_cloud_disk.Flow.{
  answer, call, ◌>>=◌, then_with, Exchange, Ensures, Ensures->>=, Ensures-Seen, Ensures-then_with,
  Seen, Seen-last, Seen-append,
}
use web_cloud_disk.Backend.{MySqlReply, Request, Reply, mysql, compute}
use web_cloud_disk.Repository.Files.{create_file_sql, create_file, read_created_file}
use web_cloud_disk.Security.Crypto.{Crypto}
use web_cloud_disk.Security.Sha256.{hex}
use web_cloud_disk.Storage.Local.{FileStorage, store_if_absent}
use web_cloud_disk.Messaging.Json.{JsonLibrary}
use web_cloud_disk.Service.Files.{
  UploadedFile, sanitize_filename, try_publish_backup, record_upload, upload,
}

module _ {J : Type 0} (escape : Bytes → Bytes) (crypto : Crypto) (json : JsonLibrary J)
    (s : FileStorage) (publisher : Option Bytes) (max_file_size : ℕ) (h name : Bytes)
    (user_id size : ℕ) where
  abbrev pub inserted : MySqlReply → Exchange Request Reply
  inserted task = record {
    command = mysql (create_file_sql escape user_id name h size);
    reply = task;
  }

  -- The INSERT that was confirmed with the ID that is returned.
  abbrev pub Recorded : List (Exchange Request Reply) → Result UploadedFile → Type 0
  Recorded past (success u) =
      (task : MySqlReply) × Seen (inserted task) past × (read_created_file task ≡ success u.file_id)
  Recorded past (failure e) = Unit

  created-Recorded :
      (past : List (Exchange Request Reply)) (task : MySqlReply) (r : Result ℕ)
      → read_created_file task ≡ r
      → Seen (inserted task) past
      → Ensures Recorded past (
          answer r >>= λ file_id. call compute λ u.
            then_with
              (try_publish_backup json publisher h size)
              λ v. answer (success (record { file_id = file_id; filename = name })))
  created-Recorded past task (failure e) c seen = tt
  created-Recorded past task (success file_id) c seen = λ u.
      Ensures-then_with (λ past' v. Seen (inserted task) past') Recorded _
        (try_publish_backup json publisher h size) _
        (Ensures-Seen (inserted task) _ _ (Seen-append (inserted task) past _ seen))
        (λ past' v later. (task, later, c))

  record_upload-Recorded :
      (past : List (Exchange Request Reply))
      → Ensures Recorded past
          (record_upload escape crypto json s publisher max_file_size user_id name h size)
  unfolding record_upload create_file
  record_upload-Recorded past =
      λ task. created-Recorded _ task (read_created_file task) refl (Seen-last past (inserted task))

  -- An upload of a good name that succeeds was recorded under the cleaned name and the content's hash, and
  -- returns the ID of that record.
  pub upload-Recorded :
      (untrusted_filename content : Bytes)
      → size ≡ length content
      → sanitize_filename untrusted_filename ≡ success name
      → hex crypto content ≡ success h
      → Ensures Recorded []
          (upload escape crypto json s publisher max_file_size user_id untrusted_filename content)
  unfolding upload
  upload-Recorded untrusted_filename content sized sanitized hashed =
      elim (Bool-cases (ltb max_file_size (length content))) [
        | inl big ↦ rw (big, Ensures) tt
        | inr fits ↦
            rw (fits, sanitized, hashed, ← sized, ◌>>=◌)
              (Ensures->>= Recorded [] (store_if_absent s h content) _
                (λ past stored. record_upload-Recorded past) (λ past e. tt))
      ]
