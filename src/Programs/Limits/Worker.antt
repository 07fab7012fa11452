-- ===== src/Programs/Limits/Worker.antt =====
-- The backup worker.
use web_cloud_disk.Base.{
  ℕ, zero, suc, ◌≡◌, ◌≢◌, refl, Bool, false, [], ◌∷◌, ◌++◌, Bytes, Result, success, failure,
  Bool-cases, Result-cases, inl, inr, arith,
}
use web_cloud_disk.Flow.{Uses, Uses-then_with}
use web_cloud_disk.Backend.{Delivery, broken, timeout, message}
use web_cloud_disk.Config.Types.{Oss, RabbitMq, BackupWorkerConfig}
use web_cloud_disk.Config.Sections.{starts_with_slash}
use web_cloud_disk.Config.WellFormed.{IsRabbitMq}
use web_cloud_disk.Config.Accepted.{IsBackupWorker}
use web_cloud_disk.Messaging.Json.{JsonLibrary}
use web_cloud_disk.Messaging.BackupTask.{BackupTask, parse_backup_task}
use web_cloud_disk.Messaging.Publisher.{channel_options}
use web_cloud_disk.Storage.Local.{FileStorage, path_for, exists}
use web_cloud_disk.Storage.Oss
use web_cloud_disk.Storage.Oss.{OssBackupStorage, backup_file}
use web_cloud_disk.Worker.{Run, reject_then, ack_then, settle_backup, back_up, consumed, run}
use web_cloud_disk.Worker.Creation.{create_worker}
use web_cloud_disk.Programs.BackupWorker.{
  run_worker, with_oss, with_worker_storage, run_backup_worker,
}
use web_cloud_disk.Programs.Sound.{SoundBackend, Sound, in_backend-Sound}
use web_cloud_disk.Programs.Limits.Shared.{Any, SoundProgram}
use web_cloud_disk.Programs.Limits.Servers.{init-Sound}

abbrev SoundOss : OssBackupStorage → Type 0
SoundOss oss =
    (oss.bucket ≢ []) × (oss.key_prefix ≢ []) × (starts_with_slash oss.key_prefix ≡ false)

key_relative :
    (prefix hashcode : Bytes)
    → prefix ≢ []
    → starts_with_slash prefix ≡ false
    → starts_with_slash (prefix ++ hashcode) ≡ false
key_relative [] hashcode n s = absurd (n refl)
key_relative (c ∷ prefix) hashcode n s = s

closed-SoundPrefix :
    (p : Bytes)
    → p ≢ []
    → starts_with_slash p ≡ false
    → (p ++ b'/' ∷ [] ≢ []) × (starts_with_slash (p ++ b'/' ∷ []) ≡ false)
closed-SoundPrefix [] n s = absurd (n refl)
closed-SoundPrefix (c ∷ p) n s = (λ e. cc e, s)

create-SoundOss :
    (keys : Bool) (config : Oss) (oss : OssBackupStorage)
    → Oss.create keys config ≡ success oss
    → SoundOss oss
unfolding Oss.create
create-SoundOss keys config oss e = (
  ground arith,
  ground (arith, closed-SoundPrefix config.key_prefix),
  ground (arith, closed-SoundPrefix config.key_prefix),
)

module _ {J : Type 0} (json : JsonLibrary J) (files : FileStorage) (oss : OssBackupStorage)
    (ok : SoundOss oss) where
  abbrev SoundRun : Run → Type 0
  SoundRun = Uses SoundBackend Any

  reject-Sound : (next : Run) → SoundRun next → SoundRun (reject_then next)
  unfolding reject_then
  reject-Sound next h =
      (tt, λ sent. elim (Bool-cases sent) [ inl e ↦ rw (e, Uses) h | inr e ↦ rw (e, Uses) tt ])

  settle-Sound :
      (next : Run) (r : Result (Unit {0})) → SoundRun next → SoundRun (settle_backup next r)
  unfolding settle_backup ack_then
  settle-Sound next (failure e) h = tt
  settle-Sound next (success u) h =
      (tt, λ sent. elim (Bool-cases sent) [ inl e ↦ rw (e, Uses) h | inr e ↦ rw (e, Uses) tt ])

  backup_file-Sound :
      (hashcode path : Bytes) → Uses SoundBackend Any (backup_file oss hashcode path)
  unfolding backup_file
  backup_file-Sound hashcode path = elim (Bool-cases (Oss.is_valid_hashcode hashcode)) [
    | inr e ↦ rw (e, Uses) tt
    | inl e ↦
        rw (e, Uses)
          (
            tt,
            λ status. elim (Bool-cases status.regular) [
              | inr g ↦ rw (g, Uses) tt
              | inl g ↦
                  rw (g, Uses)
                    (
                      (ok.0, key_relative oss.key_prefix hashcode ok.1 ok.2),
                      λ stored. elim (Bool-cases stored) [
                        | inl b ↦ rw (b, Uses) tt
                        | inr b ↦ rw (b, Uses) tt
                      ],
                    )
            ],
          )
  ]

  exists-Sound : (hashcode : Bytes) → Uses SoundBackend Any (exists files hashcode)
  unfolding exists
  exists-Sound hashcode = elim (Result-cases (path_for files hashcode)) [
    | inl (p, e) ↦ rw (e, Uses) (tt, λ status. tt)
    | inr (x, e) ↦ rw (e, Uses) tt
  ]

  back_up-Sound :
      (next : Run) (task : BackupTask) → SoundRun next → SoundRun (back_up json files oss next task)
  unfolding back_up
  back_up-Sound next task h = elim (Result-cases (path_for files task.hashcode)) [
    | inr (x, e) ↦ rw (e, Uses) (reject-Sound next h)
    | inl (p, e) ↦
        rw (e, Uses)
          (Uses-then_with SoundBackend Any Any _ _ (exists-Sound task.hashcode) λ there u.
            elim (Bool-cases there) [
              | inr b ↦ rw (b, Uses) (reject-Sound next h)
              | inl b ↦
                  rw (b, Uses)
                    (Uses-then_with SoundBackend Any Any _ (settle_backup next)
                      (backup_file-Sound task.hashcode p) (λ r v. settle-Sound next r h))
            ])
  ]

  consumed-Sound :
      (next : Run) (d : Delivery) → SoundRun next → SoundRun (consumed json files oss next d)
  unfolding consumed
  consumed-Sound next broken h = tt
  consumed-Sound next timeout h = h
  consumed-Sound next (message body) h = elim (Result-cases (parse_backup_task json body)) [
    | inr (x, e) ↦ rw (e, Uses) (reject-Sound next h)
    | inl (t, e) ↦ rw (e, Uses) (back_up-Sound next t h)
  ]

  run-Sound : (rounds : ℕ) → SoundRun (run json files oss rounds)
  unfolding run
  run-Sound zero = tt
  run-Sound (suc rounds) = (
    tt,
    λ stop. elim (Bool-cases stop) [
      | inl e ↦
          rw (e, Uses)
            (
              tt,
              λ sent. elim (Bool-cases sent) [ inl b ↦ rw (b, Uses) tt | inr b ↦ rw (b, Uses) tt ],
            )
      | inr e ↦
          rw (e, Uses) (tt, λ d. consumed-Sound (run json files oss rounds) d (run-Sound rounds))
    ],
  )

create_worker-Sound :
    (rabbitmq : RabbitMq) → IsRabbitMq rabbitmq → Uses SoundBackend Any (create_worker rabbitmq)
unfolding create_worker channel_options
create_worker-Sound rabbitmq ok = (
  (ok.0, ok.1, ok.4, ok.2, ok.3),
  λ opened. elim (Bool-cases opened) [
    | inr o ↦ rw (o, Uses) tt
    | inl o ↦
        rw (o, Uses)
          (
            ok.5,
            λ declared. elim (Bool-cases declared) [
              | inr d ↦ rw (d, Uses) tt
              | inl d ↦
                  rw (d, Uses)
                    (
                      ok.5,
                      λ consuming. elim (Bool-cases consuming) [
                        | inl c ↦ rw (c, Uses) tt
                        | inr c ↦ rw (c, Uses) tt
                      ],
                    )
            ],
          )
  ],
)

module _ {J : Type 0} (json : JsonLibrary J) (rounds : ℕ) (config : BackupWorkerConfig)
    (ok : IsBackupWorker config) where
  run_worker-Sound :
      (oss : OssBackupStorage)
      → SoundOss oss
      → (r : Result (Unit {0})) → SoundProgram (run_worker json rounds config oss r)
  unfolding run_worker
  run_worker-Sound oss sound (failure e) = tt
  run_worker-Sound oss sound (success u) = (
    tt,
    λ v.
        Uses-then_with Sound Any Any _ _
          (in_backend-Sound Any _ (run-Sound json _ oss sound rounds)) (λ r w. tt),
  )

  with_oss-Sound :
      (r : Result OssBackupStorage)
      → ((oss : OssBackupStorage) → r ≡ success oss → SoundOss oss)
      → SoundProgram (with_oss json rounds config r)
  unfolding with_oss
  with_oss-Sound (failure e) sound = tt
  with_oss-Sound (success oss) sound =
      Uses-then_with Sound Any Any _ (run_worker json rounds config oss)
        (in_backend-Sound Any _ (create_worker-Sound config.rabbitmq ok.rabbitmq))
        (λ r u. run_worker-Sound oss (sound oss refl) r)

  with_worker_storage-Sound :
      (r : Result (Unit {0})) → SoundProgram (with_worker_storage json rounds config r)
  unfolding with_worker_storage
  with_worker_storage-Sound (failure e) = tt
  with_worker_storage-Sound (success u) =
      (tt, λ keys. with_oss-Sound (Oss.create keys config.oss) (create-SoundOss keys config.oss))

  pub run_backup_worker-Sound : SoundProgram (run_backup_worker json rounds config)
  unfolding run_backup_worker
  run_backup_worker-Sound =
      Uses-then_with Sound Any Any _ (with_worker_storage json rounds config)
        (in_backend-Sound Any _ (init-Sound _)) (λ r u. with_worker_storage-Sound r)
