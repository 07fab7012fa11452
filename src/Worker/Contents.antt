-- ===== src/Worker/Contents.antt =====
-- What the worker copies to the bucket, on a disk that the file service writes to.
use web_cloud_disk.Base.{
  ℕ, zero, suc, ◌≡◌, ◌≢◌, refl, Bool, true, false, not, fail, if◌then◌else◌, ◌&&◌, none, some, [],
  ◌++◌, Bytes, success, Bool-cases, Option-cases, Result-cases, inl, inr,
}
use web_cloud_disk.Flow.{answer, then_with}
use web_cloud_disk.Backend.{Delivery, broken, timeout, message, Request, put_object}
use web_cloud_disk.Security.Crypto.{Crypto}
use web_cloud_disk.Security.Sha256.{hex}
use web_cloud_disk.Messaging.Json.{JsonLibrary}
use web_cloud_disk.Messaging.BackupTask.{BackupTask, parse_backup_task}
use web_cloud_disk.Storage.Paths.{◌//◌}
use web_cloud_disk.Storage.Disk.{Files}
use web_cloud_disk.Storage.Disk.Sending.{Meets}
use web_cloud_disk.Storage.Local.{file_storage, is_valid_hashcode, path_for}
use web_cloud_disk.Storage.Local.Publish.{Intact, Keeps}
use web_cloud_disk.Storage.Oss
use web_cloud_disk.Storage.Oss.{OssBackupStorage, backup_file}
use web_cloud_disk.Worker.Safety.{exists_at}
use web_cloud_disk.Worker.{Run, reject_then, ack_then, settle_backup, back_up, consumed, run}

module _ {J : Type 0} (crypto : Crypto) (json : JsonLibrary J) (root : Bytes)
    (oss : OssBackupStorage) where
  -- What is copied is the whole content of the hash in its key.
  abbrev pub Whole : Files → Request → Type 0
  Whole f (put_object bucket key path) =
      (h x : Bytes) × (bucket ≡ oss.bucket)
      × (key ≡ oss.key_prefix ++ h)
      × (path ≡ root // h)
      × (f path ≡ some x)
      × (hex crypto x ≡ success h)
  Whole f _ = Unit

  abbrev pub Copies : Files → Run → Type 0
  Copies = Meets [] (Keeps crypto root) Whole

  Intact-same : (f f' : Files) → f' ≡ f → Intact crypto root f → Intact crypto root f'
  Intact-same f f' e i = rw e i

  -- The next rounds, from any intact files.
  abbrev Goes : Run → Type 0
  Goes next = (f : Files) → Intact crypto root f → Copies f next

  reject-Copies : (next : Run) → Goes next → Goes (reject_then next)
  unfolding reject_then
  reject-Copies next goes f i = λ f₁ k. (
    tt,
    λ sent f₂ e. elim (Bool-cases sent) [
      | inl b ↦ rw (b, e) (goes f₁ (k.intact i))
      | inr b ↦ rw b tt
    ],
  )

  settled-Copies :
      (next : Run) (stored : Bool)
      → Goes next
      → (f : Files) → Intact crypto root f
      → Copies f (
          then_with
            (if not stored
              then answer (fail 500 "Failed to back up file to OSS")
              else answer (success tt))
            (settle_backup next))
  unfolding settle_backup ack_then
  settled-Copies next false goes f i = tt
  settled-Copies next true goes f i = λ f₁ k. (
    tt,
    λ sent f₂ e. elim (Bool-cases sent) [
      | inl b ↦ rw (b, e) (goes f₁ (k.intact i))
      | inr b ↦ rw b tt
    ],
  )

  module _ (h : Bytes) (valid : is_valid_hashcode h ≡ true) where
    Whole-at :
        (f : Files)
        → Intact crypto root f
        → f (root // h) ≢ none
        → Whole f (put_object oss.bucket (oss.key_prefix ++ h) (root // h))
    Whole-at f i there = elim (Option-cases (f (root // h))) [
      | inl e ↦ absurd (there e)
      | inr (x, e) ↦ (h, x, refl, refl, refl, e, i h x valid e)
    ]

    copied-Copies :
        (next : Run)
        → Goes next
        → (f : Files) → Intact crypto root f
        → Copies f (then_with (backup_file oss h (root // h)) (settle_backup next))
    unfolding backup_file settle_backup
    copied-Copies next goes f i = elim (Bool-cases (Oss.is_valid_hashcode h)) [
      | inr e ↦ rw (e, then_with, settle_backup) tt
      | inl e ↦
          rw (e, then_with)
            λ f₁ k₁. (
              tt,
              λ seen f₂ (same, there). elim (Bool-cases seen.regular) [
                | inr g ↦ rw (g, then_with, settle_backup) tt
                | inl g ↦
                    rw (g, then_with)
                      λ f₃ k₃.
                        let i₃ = k₃.intact (Intact-same f₁ f₂ same (k₁.intact i)) in
                        (
                          Whole-at f₃ i₃ (k₃.kept h valid (rw same (there g))),
                          λ stored f₄ e₄.
                              settled-Copies next stored goes f₄ (Intact-same f₃ f₄ e₄ i₃),
                        )
              ],
            )
    ]

  placed :
      (h : Bytes)
      → is_valid_hashcode h ≡ true
      → path_for (file_storage root) h ≡ success (root // h)
  unfolding path_for file_storage
  placed h e = rw e refl

  misplaced :
      (h : Bytes)
      → is_valid_hashcode h ≡ false
      → path_for (file_storage root) h ≡ fail 500 "Invalid file hash format"
  unfolding path_for
  misplaced h e = rw e refl

  back_up-Copies :
      (next : Run) (task : BackupTask)
      → Goes next
      → (f : Files) → Intact crypto root f
      → Copies f (back_up json (file_storage root) oss next task)
  unfolding back_up
  back_up-Copies next task goes f i = elim (Bool-cases (is_valid_hashcode task.hashcode)) [
    | inr e ↦ rw (misplaced task.hashcode e, Meets) (reject-Copies next goes f i)
    | inl e ↦
        rw
          (
            placed task.hashcode e,
            exists_at json (file_storage root) oss task.hashcode (root // task.hashcode)
                (placed task.hashcode e),
            Meets,
          )
          λ f₁ k₁. (
            tt,
            λ seen f₂ (same, there). elim (Bool-cases (seen.regular && not seen.error)) [
              | inr g ↦
                  rw (g, Meets) (reject-Copies next goes f₂ (Intact-same f₁ f₂ same (k₁.intact i)))
              | inl g ↦
                  rw (g, Meets)
                    (copied-Copies task.hashcode e next goes f₂
                      (Intact-same f₁ f₂ same (k₁.intact i)))
            ],
          )
  ]

  consumed-Copies :
      (next : Run) (d : Delivery)
      → Goes next
      → (f : Files) → Intact crypto root f
      → Copies f (consumed json (file_storage root) oss next d)
  unfolding consumed
  consumed-Copies next broken goes f i = tt
  consumed-Copies next timeout goes f i = goes f i
  consumed-Copies next (message body) goes f i = elim (Result-cases (parse_backup_task json body)) [
    | inr (x, e) ↦ rw (e, Meets) (reject-Copies next goes f i)
    | inl (task, e) ↦ rw (e, Meets) (back_up-Copies next task goes f i)
  ]

  -- While the others keep contents intact and in place, whatever the messages are and however the broker and
  -- the bucket reply, each file that the worker copies is, when it is copied, the whole content of the hash
  -- that its key ends in, copied from under that hash to the bucket of the settings.
  pub run-Copies :
      (rounds : ℕ) (f : Files)
      → Intact crypto root f
      → Meets [] (Keeps crypto root) Whole f (run json (file_storage root) oss rounds)
  unfolding run
  run-Copies zero f i = tt
  run-Copies (suc rounds) f i = λ f₁ k₁. (
    tt,
    λ stop f₂ e₂. elim (Bool-cases stop) [
      | inl e ↦
          rw (e, Meets)
            λ f₃ k₃. (
              tt,
              λ sent f₄ e₄. elim (Bool-cases sent) [
                | inl b ↦ rw (b, Meets) tt
                | inr b ↦ rw (b, Meets) tt
              ],
            )
      | inr e ↦
          rw (e, Meets)
            λ f₃ k₃. (
              tt,
              λ d f₄ e₄.
                  consumed-Copies (run json (file_storage root) oss rounds) d (run-Copies rounds) f₄
                    (Intact-same f₃ f₄ e₄ (k₃.intact (Intact-same f₁ f₂ e₂ (k₁.intact i)))),
            )
    ],
  )
