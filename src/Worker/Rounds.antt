-- ===== src/Worker/Rounds.antt =====
-- How many rounds the worker needs.
use web_cloud_disk.Base.{
  ℕ, zero, suc, ◌+◌, ◌≤◌, ◌≡◌, inl, inr, Bool, true, false, not, ◌&&◌, none, List, [], ◌∷◌, ◌++◌,
  Bytes, Result, success, failure, fail, if◌then◌else◌, Bool-cases, Result-cases, arith,
}
use web_cloud_disk.Flow.{answer, then_with, Exchange, Ensures}
use web_cloud_disk.Backend.{
  Delivery, broken, timeout, message, Request, Reply, should_stop, basic_consume, basic_reject,
  basic_ack, is_regular_file,
}
use web_cloud_disk.Messaging.Json.{JsonLibrary}
use web_cloud_disk.Messaging.BackupTask.{BackupTask, parse_backup_task}
use web_cloud_disk.Storage.Local.{FileStorage, path_for}
use web_cloud_disk.Storage.Oss.{OssBackupStorage, backup_file}
use web_cloud_disk.Storage.Oss.{is_valid_hashcode as oss_valid}
use web_cloud_disk.Worker.{Run, reject_then, ack_then, settle_backup, back_up, consumed, run}
use web_cloud_disk.Worker.Safety.{exists_at}

abbrev Past : Type 0
Past = List (Exchange Request Reply)

abbrev goes_on : (c : Request) → Reply c → ℕ
goes_on should_stop false = 1
goes_on should_stop true = 0
goes_on _ r = 0

-- How often the stop flag was found not set.
abbrev pub tests_passed : Past → ℕ
tests_passed [] = 0
tests_passed (x ∷ xs) = goes_on x.command x.reply + tests_passed xs

tests_passed-append : (xs ys : Past) → tests_passed (xs ++ ys) ≡ tests_passed xs + tests_passed ys
tests_passed-append [] ys = omega arith
tests_passed-append (x ∷ xs) ys = omega (arith, tests_passed-append xs ys)

-- A series that runs out of rounds has passed at least `b` tests.
abbrev pub NeedsTests : ℕ → Past → Run → Type 0
NeedsTests b = Ensures λ past r. r ≡ none → b ≤ tests_passed past

-- `next` passes `k` tests more before it runs out.
abbrev Takes : ℕ → Run → Type 0
Takes k next = (b : ℕ) (past : Past) → b ≤ k + tests_passed past → NeedsTests b past next

module _ (k : ℕ) (next : Run) (takes : Takes k next) where
  -- One more exchange, which is not a test.
  later :
      (b : ℕ) (past : Past) (c : Request) (r : Reply c)
      → b ≤ k + tests_passed past
      → NeedsTests b (past ++ record { command = c; reply = r } ∷ []) next
  later b past c r h =
      takes b _ (omega (arith, tests_passed-append past (record { command = c; reply = r } ∷ [])))

  reject-Takes : Takes k (reject_then next)
  unfolding reject_then
  reject-Takes b past h = λ sent. elim (Bool-cases sent) [
    | inl e ↦ rw e (later b past basic_reject true h)
    | inr e ↦ rw e λ n. absurd (cc n)
  ]

  settle-Takes : (r : Result (Unit {0})) → Takes k (settle_backup next r)
  unfolding settle_backup ack_then
  settle-Takes (failure x) b past h = λ n. absurd (cc n)
  settle-Takes (success u) b past h = λ sent. elim (Bool-cases sent) [
    | inl e ↦ rw e (later b past basic_ack true h)
    | inr e ↦ rw e λ n. absurd (cc n)
  ]

  grow :
      (b : ℕ) (past : Past) (c : Request) (r : Reply c)
      → b ≤ k + tests_passed past
      → b ≤ k + tests_passed (past ++ record { command = c; reply = r } ∷ [])
  grow b past c r h =
      omega (arith, tests_passed-append past (record { command = c; reply = r } ∷ []))

  stored-Takes :
      (stored : Bool)
      → Takes k (
          then_with
            (if not stored
              then answer (fail 500 "Failed to back up file to OSS")
              else answer (success tt))
            (settle_backup next))
  stored-Takes true b past h = settle-Takes (success tt) b past h
  stored-Takes false b past h = settle-Takes (fail 500 "Failed to back up file to OSS") b past h

  module _ {J : Type 0} (json : JsonLibrary J) (files : FileStorage) (oss : OssBackupStorage) where
    copied-Takes :
        (hashcode path : Bytes)
        → Takes k (then_with (backup_file oss hashcode path) (settle_backup next))
    unfolding backup_file settle_backup
    copied-Takes hashcode path b past h = elim (Bool-cases (oss_valid hashcode)) [
      | inr e ↦ rw (e, then_with) λ n. absurd (cc n)
      | inl e ↦
          rw (e, then_with)
            λ seen. elim (Bool-cases seen.regular) [
              | inr g ↦ rw (g, then_with) λ n. absurd (cc n)
              | inl g ↦
                  rw (g, then_with)
                    λ stored.
                      stored-Takes stored b _
                        (grow b _ _ stored (grow b past (is_regular_file path) _ h))
            ]
    ]

    back_up-Takes : (task : BackupTask) → Takes k (back_up json files oss next task)
    unfolding back_up
    back_up-Takes task b past h = elim (Result-cases (path_for files task.hashcode)) [
      | inr (x, e) ↦ rw (e, Ensures) (reject-Takes b past h)
      | inl (path, e) ↦
          rw (e, exists_at json files oss task.hashcode path e, Ensures)
            λ seen. elim (Bool-cases (seen.regular && not seen.error)) [
              | inl g ↦ rw g (copied-Takes task.hashcode path b _ (grow b past _ seen h))
              | inr g ↦ rw g (reject-Takes b _ (grow b past _ seen h))
            ]
    ]

    consumed-Takes : (d : Delivery) → Takes k (consumed json files oss next d)
    unfolding consumed
    consumed-Takes broken b past h = λ n. absurd (cc n)
    consumed-Takes timeout b past h = takes b past h
    consumed-Takes (message body) b past h = elim (Result-cases (parse_backup_task json body)) [
      | inl (task, e) ↦ rw (e, Ensures) (back_up-Takes task b past h)
      | inr (x, e) ↦ rw (e, Ensures) (reject-Takes b past h)
    ]

module _ {J : Type 0} (json : JsonLibrary J) (files : FileStorage) (oss : OssBackupStorage) where
  run-Takes : (rounds : ℕ) → Takes rounds (run json files oss rounds)
  unfolding run
  run-Takes zero b past h = λ n. omega arith
  run-Takes (suc rounds) b past h = λ stop. elim (Bool-cases stop) [
    | inl e ↦ rw e λ sent. elim (Bool-cases sent) [
      | inl g ↦ rw g λ n. absurd (cc n)
      | inr g ↦ rw g λ n. absurd (cc n)
    ]
    | inr e ↦ rw e λ d.
        let passed : b
            ≤ rounds + tests_passed (past ++ record { command = should_stop; reply = false } ∷ []) =
          omega (
            arith,
            tests_passed-append past (record { command = should_stop; reply = false } ∷ []),
          ) in
        consumed-Takes rounds (run json files oss rounds) (run-Takes rounds) json files oss d b _
          (grow rounds (run json files oss rounds) (run-Takes rounds) b _ basic_consume d passed)
  ]

  -- The worker runs out of its rounds only after it found the stop flag not set as many times; so it
  -- ends with a result in every run in which the flag is set before that.
  pub run-NeedsTests : (rounds : ℕ) → NeedsTests rounds [] (run json files oss rounds)
  run-NeedsTests rounds = run-Takes rounds rounds [] (omega arith)
