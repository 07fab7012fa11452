-- ===== src/Programs/Working.antt =====
-- The backup worker keeps to the machine of the programs.
use web_cloud_disk.Base.{
  ℕ, zero, suc, refl, Bool, true, false, not, some, codes, Result, success, failure, AppError,
  if◌then◌else◌, Bool-cases, Result-cases, inl, inr,
}
use web_cloud_disk.Flow.{Flow, answer, call, then_with}
use web_cloud_disk.Config.Types.{BackupWorkerConfig, RabbitMq}
use web_cloud_disk.Backend
use web_cloud_disk.Backend.{Delivery, broken, timeout, message}
use web_cloud_disk.Messaging.Json.{JsonLibrary}
use web_cloud_disk.Messaging.BackupTask.{BackupTask, parse_backup_task}
use web_cloud_disk.Storage.Local.{FileStorage, path_for, exists}
use web_cloud_disk.Storage.Oss
use web_cloud_disk.Storage.Oss.{OssBackupStorage, backup_file}
use web_cloud_disk.Worker.{
  Run, reject_then, ack_then, settle_backup, back_up, consumed, cancelled, connection_failed, run,
}
use web_cloud_disk.Worker.Creation.{create_worker, failed_to_initialize}
use web_cloud_disk.Programs
use web_cloud_disk.Programs.{Program, returned, in_backend}
use web_cloud_disk.Programs.BackupWorker.{
  worker_exit, storage, run_worker, with_oss, with_worker_storage, run_backup_worker,
}
use web_cloud_disk.Programs.Lifecycle.{
  batch, Phase, ready, consuming, working, told, finished, closed, Step, Ends, Conforms,
}
use web_cloud_disk.Programs.Conformance.{Guarded, failed-Guarded, backend-Guarded, init-OnlySetup}

-- A part of the loop, from a phase to the end of the program.
abbrev Runs : Phase → Run → Type 0
Runs p m = Guarded batch p (then_with (in_backend m) λ r. answer (worker_exit r))

failed-Runs : (e : AppError) → Runs working (answer (some (failure e)))
unfolding worker_exit
failed-Runs e = λ v. (closed false, Step.close_working, Ends.failed)

-- While messages are worked on, every request is allowed.
work-Runs :
    {A : Type 0} (m : Flow Backend.Request Backend.Reply A) (k : A → Run)
    → ((a : A) → Runs working (k a))
    → Runs working (then_with m k)
work-Runs (answer a) k h = h a
work-Runs (call c f) k h = λ r. (working, Step.work c r, work-Runs (f r) k h)

sent-Runs :
    (c : Backend.Request) (to_bool : Backend.Reply c → Bool) (next : Run)
    → Runs working next
    → (r : Backend.Reply c) → Runs working (if to_bool r then next else connection_failed)
sent-Runs c to_bool next h r = elim (Bool-cases (to_bool r)) [
  | inl s ↦ rw s h
  | inr s ↦ rw s (failed-Runs _)
]

reject_then-Runs : (next : Run) → Runs working next → Runs working (reject_then next)
unfolding reject_then
reject_then-Runs next h =
    λ sent. (working, Step.work _ sent, sent-Runs Backend.basic_reject (λ r. r) next h sent)

settle_backup-Runs :
    (next : Run) → Runs working next → (r : Result (Unit {0})) → Runs working (settle_backup next r)
unfolding settle_backup ack_then
settle_backup-Runs next h (failure e) = failed-Runs e
settle_backup-Runs next h (success u) =
    λ sent. (working, Step.work _ sent, sent-Runs Backend.basic_ack (λ r. r) next h sent)

module _ {J : Type 0} (json : JsonLibrary J) (files : FileStorage) (oss : OssBackupStorage) where
  -- The flag was seen: success once the consumer is cancelled.
  cancelled-Runs : Runs told (cancelled json files oss)
  unfolding worker_exit
  cancelled-Runs = λ sent. ended sent
    where
      ended :
          (sent : Bool)
          → (q : Phase) × Step batch told (Programs.backend Backend.basic_cancel) sent q
            × Runs q (if sent then answer (some (success tt)) else connection_failed)
      ended true = (finished, Step.cancel, λ v. (closed true, Step.close_finished, Ends.orderly))
      ended false = (
        working,
        Step.no_cancel,
        failed-Runs (record {
          status_code = 500;
          message = codes "RabbitMQ backup worker connection failed";
        }),
      )

  back_up-Runs :
      (next : Run) (task : BackupTask)
      → Runs working next
      → Runs working (back_up json files oss next task)
  unfolding back_up
  back_up-Runs next task h = elim (Result-cases (path_for files task.hashcode)) [
    | inr (e, p) ↦ rw (p, Conforms) (reject_then-Runs next h)
    | inl (path, p) ↦
        rw (p, Conforms)
          (work-Runs (exists files task.hashcode) _ λ there. elim (Bool-cases there) [
            | inr t ↦ rw (t, Conforms) (reject_then-Runs next h)
            | inl t ↦
                rw (t, Conforms)
                  (work-Runs (backup_file oss task.hashcode path) _ (settle_backup-Runs next h))
          ])
  ]

  consumed-Runs :
      (next : Run)
      → Runs working next
      → (d : Delivery) → Runs working (consumed json files oss next d)
  unfolding consumed
  consumed-Runs next h broken = failed-Runs _
  consumed-Runs next h timeout = h
  consumed-Runs next h (message body) = elim (Result-cases (parse_backup_task json body)) [
    | inr (e, p) ↦ rw (p, Conforms) (reject_then-Runs next h)
    | inl (task, p) ↦ rw (p, Conforms) (back_up-Runs next task h)
  ]

  round-Runs :
      (next : Run)
      → Runs working next
      → (stop : Bool)
      → (q : Phase) × Step batch working (Programs.backend Backend.should_stop) stop q
        × Runs q (
            if stop
            then cancelled json files oss
            else call Backend.basic_consume (consumed json files oss next))
  round-Runs next h true = (told, Step.told_to_stop, cancelled-Runs)
  round-Runs next h false =
      (working, Step.work _ false, λ d. (working, Step.work _ d, consumed-Runs next h d))

  run-Runs : (rounds : ℕ) → Runs working (run json files oss rounds)
  unfolding run worker_exit
  run-Runs zero = λ v. (closed false, Step.close_working, Ends.endless refl)
  run-Runs (suc rounds) = round-Runs (run json files oss rounds) (run-Runs rounds)

-- A consumer, or a failure before there is one.
create_worker-Guarded :
    (rabbitmq : RabbitMq) (k : Result (Unit {0}) → Program)
    → Guarded batch consuming (k (success tt))
    → ((e : AppError) → Guarded batch ready (k (failure e)))
    → Guarded batch ready (then_with (in_backend (create_worker rabbitmq)) k)
unfolding create_worker
create_worker-Guarded rabbitmq k consumes fails = λ opened. (
  ready,
  Step.prepare _ opened tt,
  elim (Bool-cases opened) [
    | inr o ↦ rw (o, Conforms) (fails _)
    | inl o ↦
        rw (o, Conforms)
          λ declared. (
            ready,
            Step.prepare _ declared tt,
            elim (Bool-cases declared) [
              | inr d ↦ rw (d, Conforms) (fails _)
              | inl d ↦ rw (d, Conforms) λ started. consumer_started started
            ],
          )
  ],
)
  where
    consumer_started :
        (started : Bool)
        → (q : Phase) × Step batch ready
            (Programs.backend (Backend.basic_consume_start rabbitmq.queue))
            started
            q
          × Guarded batch q (
              then_with
                (in_backend (if not started then failed_to_initialize else answer (success tt)))
                k)
    consumer_started true = (consuming, Step.consumer _, consumes)
    consumer_started false = (
      ready,
      Step.no_consumer _,
      fails (record {
        status_code = 500;
        message = codes "Failed to initialize RabbitMQ backup worker";
      }),
    )

module _ {J : Type 0} (json : JsonLibrary J) (rounds : ℕ) (config : BackupWorkerConfig) where
  with_oss-Guarded :
      (made : Result OssBackupStorage) → Guarded batch ready (with_oss json rounds config made)
  unfolding with_oss run_worker
  with_oss-Guarded (failure e) = failed-Guarded batch
  with_oss-Guarded (success oss) =
      create_worker-Guarded config.rabbitmq (run_worker json rounds config oss)
        (λ v. (working, Step.begin refl, run-Runs json (storage json rounds config) oss rounds))
        (λ e. failed-Guarded batch)

  pub run_backup_worker-Guarded : Guarded batch ready (run_backup_worker json rounds config)
  unfolding run_backup_worker with_worker_storage
  run_backup_worker-Guarded =
      backend-Guarded batch _ (with_worker_storage json rounds config)
        (init-OnlySetup (storage json rounds config)) stored
    where
      stored :
          (made : Result (Unit {0}))
          → Guarded batch ready (with_worker_storage json rounds config made)
      stored (failure e) = failed-Guarded batch
      stored (success u) =
          λ keys. (ready, Step.credentials keys, with_oss-Guarded (Oss.create keys config.oss))
