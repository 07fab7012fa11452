-- ===== src/Worker/Safety.antt =====
-- When a message is acknowledged, and when it is given up.
use web_cloud_disk.Base.{
  ℕ, zero, suc, ◌≡◌, refl, inl, inr, Bool, true, false, not, ◌&&◌, List, [], ◌∷◌, ◌++◌, Bytes,
  AppError, success, failure, fail, if◌then◌else◌, arith, Bool-cases, Result-cases,
}
use web_cloud_disk.Flow.{answer, call, then_with, Exchange, Always}
use web_cloud_disk.Backend.{
  Delivery, broken, timeout, message, FileStatus, Request, Reply, basic_consume, basic_reject,
  basic_ack, is_regular_file, put_object,
}
use web_cloud_disk.Messaging.Json.{JsonLibrary}
use web_cloud_disk.Messaging.BackupTask.{BackupTask, parse_backup_task}
use web_cloud_disk.Storage.Local.{FileStorage, path_for, exists}
use web_cloud_disk.Storage.Oss.{OssBackupStorage, backup_file}
use web_cloud_disk.Storage.Oss.{is_valid_hashcode as oss_valid}
use web_cloud_disk.Worker.{Run, reject_then, ack_then, settle_backup, back_up, consumed, run}

abbrev Past : Type 0
Past = List (Exchange Request Reply)

-- The past with one more exchange.
abbrev pub and_then : Past → (c : Request) → Reply c → Past
and_then past c r = past ++ record { command = c; reply = r } ∷ []

module _ {J : Type 0} (json : JsonLibrary J) (files : FileStorage) (oss : OssBackupStorage) where
  -- What came last is a message with a task, two looks at its content that both found a regular file, the
  -- first without an error, and the copying of the content to the bucket under the task's hash, with
  -- success.
  pub record BackedUp (past : Past) : Type 0 where
    pub before : Past
    pub body : Bytes
    pub task : BackupTask
    pub path : Bytes
    pub seen : FileStatus
    pub seen_again : FileStatus
    pub seen_regular : seen.regular ≡ true
    pub seen_without_error : seen.error ≡ false
    pub seen_again_regular : seen_again.regular ≡ true
    pub parsed : parse_backup_task json body ≡ success task
    pub placed : path_for files task.hashcode ≡ success path
    pub exchanged :
        past
        ≡ and_then
            (and_then
              (and_then (and_then before basic_consume (message body)) (is_regular_file path) seen)
              (is_regular_file path)
              seen_again)
            (put_object oss.bucket (oss.key_prefix ++ task.hashcode) path)
            true

  -- What came last is a message that holds no task, or the failed look at the content of its task.
  pub data Hopeless : Past → Type 0 where
    unreadable :
        (before : Past) (body : Bytes) (e : AppError)
        → parse_backup_task json body ≡ failure e
        → Hopeless (and_then before basic_consume (message body))
    misplaced :
        (before : Past) (body : Bytes) (task : BackupTask) (e : AppError)
        → parse_backup_task json body ≡ success task
        → path_for files task.hashcode ≡ failure e
        → Hopeless (and_then before basic_consume (message body))
    unavailable :
        (before : Past) (body : Bytes) (task : BackupTask) (path : Bytes) (seen : FileStatus)
        → parse_backup_task json body ≡ success task
        → path_for files task.hashcode ≡ success path
        → (seen.regular && not seen.error) ≡ false
        → Hopeless
            (and_then (and_then before basic_consume (message body)) (is_regular_file path) seen)

  abbrev pub Justified : Past → Request → Type 0
  Justified past basic_ack = BackedUp past
  Justified past basic_reject = Hopeless past
  Justified past _ = Unit {0}

  abbrev Steps : Run → Type 0
  Steps next = (past : Past) → Always Justified past next

  reject-Always :
      (past : Past) (next : Run)
      → Steps next
      → Hopeless past
      → Always Justified past (reject_then next)
  unfolding reject_then
  reject-Always past next steps h =
      (h, λ sent. elim (Bool-cases sent) [ inl e ↦ rw e (steps _) | inr e ↦ rw e tt ])

  ack-Always :
      (past : Past) (next : Run)
      → Steps next
      → BackedUp past
      → Always Justified past (ack_then next)
  unfolding ack_then
  ack-Always past next steps h =
      (h, λ sent. elim (Bool-cases sent) [ inl e ↦ rw e (steps _) | inr e ↦ rw e tt ])

  settled-Always :
      (past : Past) (next : Run) (stored : Bool)
      → Steps next
      → (stored ≡ true → BackedUp past)
      → Always Justified past (
          then_with
            (if not stored
              then answer (fail 500 "Failed to back up file to OSS")
              else answer (success tt))
            (settle_backup next))
  unfolding settle_backup
  settled-Always past next stored steps h = elim (Bool-cases stored) [
    | inl e ↦ rw e (ack-Always past next steps (h e))
    | inr e ↦ rw e tt
  ]

  copied-Always :
      (before : Past) (body : Bytes) (task : BackupTask) (path : Bytes)
      → parse_backup_task json body ≡ success task
      → path_for files task.hashcode ≡ success path
      → (next : Run) → Steps next
      → (seen : FileStatus) → (seen.regular && not seen.error) ≡ true
      → Always Justified
          (and_then (and_then before basic_consume (message body)) (is_regular_file path) seen)
          (then_with (backup_file oss task.hashcode path) (settle_backup next))
  unfolding backup_file settle_backup
  copied-Always before body task path parsed placed next steps seen fine =
      elim (Bool-cases (oss_valid task.hashcode)) [
        | inl e ↦
            rw (e, then_with)
              (
                tt,
                λ seen_again. elim (Bool-cases seen_again.regular) [
                  | inl g ↦
                      rw (g, then_with)
                        (
                          tt,
                          λ stored. settled-Always _ next stored steps λ t. record {
                            before = before;
                            body = body;
                            task = task;
                            path = path;
                            seen = seen;
                            seen_again = record { regular = true; error = seen_again.error };
                            seen_regular = ground arith;
                            seen_without_error = ground arith;
                            seen_again_regular = refl;
                            parsed = parsed;
                            placed = placed;
                            exchanged = rw t refl;
                          },
                        )
                  | inr g ↦ rw (g, then_with, settle_backup) tt
                ],
              )
        | inr e ↦ rw (e, then_with, settle_backup) tt
      ]

  pub exists_at :
      (hashcode path : Bytes)
      → path_for files hashcode ≡ success path
      → exists files hashcode
        ≡ call (is_regular_file path) (λ status. answer (status.regular && not status.error))
  unfolding exists
  exists_at hashcode path e = rw (e, exists) refl

  back_up-Always :
      (before : Past) (body : Bytes) (task : BackupTask)
      → parse_backup_task json body ≡ success task
      → (next : Run) → Steps next
      → Always Justified
          (and_then before basic_consume (message body))
          (back_up json files oss next task)
  unfolding back_up
  back_up-Always before body task parsed next steps =
      elim (Result-cases (path_for files task.hashcode)) [
        | inl (path, e) ↦
            rw (e, exists_at task.hashcode path e, Always)
              (
                tt,
                λ seen. elim (Bool-cases (seen.regular && not seen.error)) [
                  | inl g ↦ rw g (copied-Always before body task path parsed e next steps seen g)
                  | inr g ↦ rw g (
                      reject-Always _ next steps
                        (unavailable before body task path seen parsed e g))
                ],
              )
        | inr (err, e) ↦
            rw (e, Always) (reject-Always _ next steps (misplaced before body task err parsed e))
      ]

  consumed-Always :
      (before : Past) (next : Run) (d : Delivery)
      → Steps next
      → Always Justified (and_then before basic_consume d) (consumed json files oss next d)
  unfolding consumed
  consumed-Always before next broken steps = tt
  consumed-Always before next timeout steps = steps _
  consumed-Always before next (message body) steps =
      elim (Result-cases (parse_backup_task json body)) [
        | inl (task, e) ↦ rw (e, Always) (back_up-Always before body task e next steps)
        | inr (err, e) ↦ rw (e, Always) (reject-Always _ next steps (unreadable before body err e))
      ]

  -- In every run, whatever the messages, the files and the bucket do: a message is acknowledged only
  -- right after two looks found its content to be a regular file and it was copied to the bucket with
  -- success, and rejected only right after it was found to hold no valid task, or one whose hash has no path,
  -- or right after the look at its content found no regular file or an error.
  pub run-Always : (rounds : ℕ) (past : Past) → Always Justified past (run json files oss rounds)
  unfolding run
  run-Always zero past = tt
  run-Always (suc rounds) past = (
    tt,
    λ stop. elim (Bool-cases stop) [
      | inl e ↦ rw e (tt, λ sent. elim (Bool-cases sent) [ inl g ↦ rw g tt | inr g ↦ rw g tt ])
      | inr e ↦ rw e (tt, λ d. consumed-Always _ (run json files oss rounds) d (run-Always rounds))
    ],
  )
