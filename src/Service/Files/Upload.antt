-- ===== src/Service/Files/Upload.antt =====
-- Uploads on a disk that other requests write to as well.
use web_cloud_disk.Base.{
  ℕ, ◌≡◌, refl, true, Option, some, Bytes, Result, success, failure, ltb, length, Bool-cases,
  Option-cases, inl, inr, Result-cases,
}
use web_cloud_disk.Flow.{Flow, answer, call, ◌>>=◌, then_with}
use web_cloud_disk.Backend.{Request, Reply, Task, compute}
use web_cloud_disk.Repository.Files.{create_file_sql, create_file, read_created_file}
use web_cloud_disk.Security.Crypto.{Crypto}
use web_cloud_disk.Security.Sha256.{hex}
use web_cloud_disk.Storage.Paths.{◌//◌}
use web_cloud_disk.Storage.Disk.{Files, Safe, Safe->>=, Safe-then_with}
use web_cloud_disk.Storage.Local.{file_storage, is_valid_hashcode, store_if_absent}
use web_cloud_disk.Storage.Local.Publish.{Intact, Keeps, Rely, StoreOutcome, store_if_absent-Safe}
use web_cloud_disk.Messaging.Json.{JsonLibrary}
use web_cloud_disk.Messaging.BackupTask.{BackupTask, serialize_backup_task}
use web_cloud_disk.Messaging.Publisher.{publish}
use web_cloud_disk.Service.Files.{
  UploadedFile, sanitize_filename, try_publish_backup, record_upload, upload,
}

module _ {J : Type 0} (escape : Bytes → Bytes) (crypto : Crypto) (json : JsonLibrary J)
    (root : Bytes) (publisher : Option Bytes) (max_file_size : ℕ) (h drawn name : Bytes)
    (user_id size : ℕ) (valid : is_valid_hashcode h ≡ true) where
  -- The whole content of the hash lies at its path.
  abbrev pub Content : Files → Type 0
  Content f = (x : Bytes) × (f (root // h) ≡ some x) × (hex crypto x ≡ success h)

  -- The only query is the INSERT of this upload, sent when the content lies in place.
  abbrev pub AtInsert : Files → Bytes → Type 0
  AtInsert f sql = (sql ≡ create_file_sql escape user_id name h size) × Content f

  abbrev pub UploadOutcome : Files → Result UploadedFile → Type 0
  UploadOutcome f (success u) = (u.filename ≡ name) × Intact crypto root f × Content f
  UploadOutcome f (failure e) = Intact crypto root f

  abbrev SafeUpload : Files → Task UploadedFile → Type 0
  SafeUpload =
      Safe drawn (Rely crypto root h drawn valid) (Keeps crypto root) AtInsert UploadOutcome

  Content-kept :
      (f f' : Files) → Intact crypto root f → Content f → Keeps crypto root f f' → Content f'
  Content-kept f f' i (x, p, q) k = elim (Option-cases (f' (root // h))) [
    | inl e ↦ absurd (k.kept h valid (λ n. cc) e)
    | inr (y, e) ↦ (y, e, k.intact i h y valid e)
  ]

  same_files : (f f' : Files) → f' ≡ f → Keeps crypto root f f'
  same_files f f' e = rw e (record { intact = λ i. i; kept = λ k v n. n })

  -- What a part of the upload after the storing leaves as it is.
  abbrev Lies : {A : Type 0} → Files → A → Type 0
  Lies f a = Intact crypto root f × Content f

  abbrev SafeRest : {A : Type 0} → (Files → A → Type 0) → Files → Flow Request Reply A → Type 0
  SafeRest = Safe drawn (Rely crypto root h drawn valid) (Keeps crypto root) AtInsert

  -- A request that leaves the files alone.
  lies_on :
      (f f₁ f₂ : Files)
      → Intact crypto root f × Content f
      → Rely crypto root h drawn valid f f₁
      → f₂ ≡ f₁
      → Intact crypto root f₂ × Content f₂
  lies_on f f₁ f₂ (i, c) (k, t) e = rw e (k.intact i, Content-kept f f₁ i c k)

  publish_rest :
      (f : Files) (queue : Bytes) (task : BackupTask)
      → Lies f tt
      → SafeRest Lies f (publish json queue task)
  unfolding publish
  publish_rest f queue task l = elim (Result-cases (serialize_backup_task json task)) [
    | inr (x, e) ↦ rw (e, ◌>>=◌) l
    | inl (body, e) ↦
        rw (e, ◌>>=◌)
          λ f₁ r sent f₂ eff. (
            tt,
            same_files f₁ f₂ eff,
            elim (Bool-cases sent) [
              | inl b ↦ rw b (lies_on f f₁ f₂ l r eff)
              | inr b ↦ rw b (lies_on f f₁ f₂ l r eff)
            ],
          )
  ]

  try_publish_rest :
      (f : Files) → Lies f tt → SafeRest Lies f (try_publish_backup json publisher h size)
  unfolding try_publish_backup
  try_publish_rest f l = elim (Option-cases publisher) [
    | inl e ↦ rw e l
    | inr (queue, e) ↦ rw e (
        Safe-then_with drawn _ _ AtInsert Lies Lies f (publish json queue _) _
          (publish_rest f queue _ l) (λ f' a q. q))
  ]

  created_rest :
      (f : Files) (r : Result ℕ)
      → Lies f tt
      → SafeUpload f (
          answer r >>= λ file_id. call compute λ u.
            then_with
              (try_publish_backup json publisher h size)
              λ v. answer (success (record { file_id = file_id; filename = name })))
  created_rest f (failure e) (i, c) = i
  created_rest f (success id) l = λ f₁ r u f₂ eff.
      let l₂ = lies_on f f₁ f₂ l r eff in
      (
        tt,
        same_files f₁ f₂ eff,
        Safe-then_with drawn _ _ AtInsert Lies UploadOutcome f₂
            (try_publish_backup json publisher h size) _ (try_publish_rest f₂ l₂)
            (λ f' a q. (refl, q.0, q.1)),
      )

  record_rest :
      (f : Files)
      → Lies f tt
      → SafeUpload f (
          record_upload escape crypto json
            (file_storage root)
            publisher
            max_file_size
            user_id
            name
            h
            size)
  unfolding record_upload create_file
  record_rest f l = λ f₁ r task f₂ eff.
      let l₂ = lies_on f f₁ f₂ l r eff in
      (
        (refl, (lies_on f f₁ f₁ l r refl).1),
        same_files f₁ f₂ eff,
        created_rest f₂ (read_created_file task) l₂,
      )

  module _ (untrusted_filename content : Bytes) (sized : size ≡ length content)
      (sanitized : sanitize_filename untrusted_filename ≡ success name)
      (hashed : hex crypto content ≡ success h) where
    -- While other requests keep contents intact and in place and draw other temporary names, an upload
    -- of a content with a good name sends no query but the INSERT of its user, its cleaned name, its
    -- hash and its size, and only while the whole content lies at its path; on success it does so at
    -- the end too, and the name returned is the cleaned one. At every step contents stay intact and in
    -- place.
    pub upload-Safe :
        (f : Files)
        → Intact crypto root f
        → Safe drawn (Rely crypto root h drawn valid) (Keeps crypto root) AtInsert UploadOutcome f (
            upload escape crypto json
              (file_storage root)
              publisher
              max_file_size
              user_id
              untrusted_filename
              content)
    unfolding upload
    upload-Safe f i = elim (Bool-cases (ltb max_file_size (length content))) [
      | inl big ↦ rw big i
      | inr fits ↦
          rw (fits, sanitized, hashed, ← sized, ◌>>=◌)
            (Safe->>= drawn _ _ AtInsert (StoreOutcome crypto root h drawn valid) UploadOutcome f
              (store_if_absent (file_storage root) h content) _
              (store_if_absent-Safe crypto root h drawn valid AtInsert content hashed f i)
              (λ f' new q. record_rest f' (q.0, q.1)) (λ f' e q. q.0))
    ]
