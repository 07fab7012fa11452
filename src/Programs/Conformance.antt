-- ===== src/Programs/Conformance.antt =====
-- The parts that the programs share keep to the machine.
use web_cloud_disk.Base.{
  ◌++◌, [], ◌∷◌, ◌≢◌, not, if◌then◌else◌, Bool, true, false, Option, none, some, Bytes, Result,
  success, failure, AppError, Bool-cases, Option-cases, inl, inr, is_empty,
}
use web_cloud_disk.Flow.{Flow, answer, call, then_with}
use web_cloud_disk.Config.Types.{Log, RabbitMq}
use web_cloud_disk.Backend
use web_cloud_disk.Logging
use web_cloud_disk.Logging.{
  Level, parse_level, or_throw, install, make_file_sink, add_file, add_console,
}
use web_cloud_disk.Logging.Setup.{console_first, no_console}
use web_cloud_disk.Programs.{
  Program, returned, in_logging, in_backend, logging, or_exit, newline, print_err, with_log,
}
use web_cloud_disk.Storage.Local.{FileStorage, init}
use web_cloud_disk.Messaging.Publisher.{create}
use web_cloud_disk.Programs.Lifecycle.{
  Kind, IsSetup, Phase, cold, faulty, refused, ready, closed, Step, Ends, Conforms,
}

-- Requests that set something up are the only ones.
abbrev pub OnlySetup : {A : Type 0} → Flow Backend.Request Backend.Reply A → Type 0
OnlySetup (answer a) = Unit
OnlySetup (call c f) = IsSetup c × ((r : Backend.Reply c) → OnlySetup (f r))

pub init-OnlySetup : (s : FileStorage) → OnlySetup (init s)
unfolding init
init-OnlySetup s = (
  tt,
  λ made. elim (Bool-cases made) [
    | inr m ↦ rw (m, OnlySetup) tt
    | inl m ↦
        rw (m, OnlySetup)
          (
            tt,
            λ temporary. elim (Bool-cases temporary) [
              | inr t ↦ rw (t, OnlySetup) tt
              | inl t ↦ rw (t, OnlySetup) tt
            ],
          )
  ],
)

pub create-OnlySetup : (rabbitmq : RabbitMq) → OnlySetup (create rabbitmq)
unfolding create
create-OnlySetup rabbitmq = (
  tt,
  λ opened. elim (Bool-cases opened) [
    | inr o ↦ rw (o, OnlySetup) tt
    | inl o ↦
        rw (o, OnlySetup)
          (
            tt,
            λ declared. elim (Bool-cases declared) [
              | inr d ↦ rw (d, OnlySetup) tt
              | inl d ↦ rw (d, OnlySetup) tt
            ],
          )
  ],
)

module _ (kind : Kind) where
  -- A body that runs under the log's guard.
  abbrev pub Guarded : Phase → Program → Type 0
  Guarded p m = Conforms kind p (then_with m λ e. call (logging Logging.shutdown) λ v. answer e)

  pub backend-Guarded :
      {A : Type 0} (m : Flow Backend.Request Backend.Reply A) (k : A → Program)
      → OnlySetup m
      → ((a : A) → Guarded ready (k a))
      → Guarded ready (then_with (in_backend m) k)
  backend-Guarded (answer a) k o h = h a
  backend-Guarded (call c f) k (s, o) h =
      λ r. (ready, Step.prepare c r s, backend-Guarded (f r) k (o r) h)

  pub failed-Guarded : Guarded ready (answer (returned 1))
  failed-Guarded = λ v. (closed false, Step.close_early, Ends.failed)

  -- What follows the set-up of the log, by its result.
  module _ (parent_path : Bytes → Bytes) (settings : Log) (k : Result (Unit {0}) → Program)
      (no : (e : AppError) → Conforms kind cold (k (failure e)))
      (failing : (e : AppError) → Conforms kind faulty (k (failure e)))
      (yes : Conforms kind ready (k (success tt))) where
    abbrev Installs : Logging.Action → Type 0
    Installs m = Conforms kind cold (then_with (in_logging m) k)

    -- What follows a call that may throw, `Next r q` being its step for the reply `r`.
    thrown-Installs :
        (Next : Option Bytes → Phase → Type 0) (p : Phase)
        → Next none p
        → ((what : Bytes) → Next (some what) faulty)
        → (m : Logging.Action) → Conforms kind p (then_with (in_logging m) k)
        → (thrown : Option Bytes)
        → (q : Phase) × Next thrown q
          × Conforms kind q (then_with (in_logging (or_throw thrown m)) k)
    unfolding or_throw
    thrown-Installs Next p fine broken m h none = (p, fine, h)
    thrown-Installs Next p fine broken m h (some what) = (faulty, broken what, failing _)

    install-Installs : (level : Level) (has_sinks : Bool) → Installs (install level has_sinks)
    unfolding install
    install-Installs level false = no _
    install-Installs level true = λ thrown.
        thrown-Installs (λ r q. Step kind cold (logging (Logging.set_default_logger level)) r q)
          ready (Step.log_ready level) (Step.no_log level) (answer (success tt)) yes thrown

    make_file_sink-Installs : (level : Level) → Installs (make_file_sink parent_path settings level)
    unfolding make_file_sink
    make_file_sink-Installs level = λ thrown.
        thrown-Installs
          (λ r q.
            Step kind cold
              (logging (Logging.file_sink settings.file settings.roll_size settings.roll_files)) r
              q)
          cold (Step.prepare_file _ _ _) (Step.no_file _ _ _) (install level true)
          (install-Installs level true) thrown

    directory-Installs :
        (level : Level) (directory : Bytes) (made : Bool) (e : AppError)
        → (q : Phase) × Step kind cold (logging (Logging.create_directories directory)) made q
          × Conforms kind q (
              then_with
                (in_logging (
                  if not made
                  then answer (failure e)
                  else make_file_sink parent_path settings level))
                k)
    directory-Installs level directory true e =
        (cold, Step.prepare_directory directory, make_file_sink-Installs level)
    directory-Installs level directory false e = (faulty, Step.no_directory directory, failing e)

    add_file-Installs : (level : Level) → Installs (add_file parent_path settings level)
    unfolding add_file
    add_file-Installs level = elim (Bool-cases (is_empty settings.file)) [
      | inl f ↦ rw f (install-Installs level settings.console)
      | inr f ↦ elim (Bool-cases (is_empty (parent_path settings.file))) [
        | inl p ↦ rw (f, p) (make_file_sink-Installs level)
        | inr p ↦ rw (f, p) λ made. directory-Installs level _ made _
      ]
    ]

    add_console-Installs : (level : Level) → Installs (add_console parent_path settings level)
    add_console-Installs level = elim (Bool-cases settings.console) [
      | inr c ↦ rw (no_console parent_path settings level c) (add_file-Installs level)
      | inl c ↦ rw (console_first parent_path settings level c) λ thrown.
          thrown-Installs (λ r q. Step kind cold (logging Logging.console_sink) r q) cold
            Step.prepare_console Step.no_console (add_file parent_path settings level)
            (add_file-Installs level) thrown
    ]

    pub init-Installs : Installs (Logging.init parent_path settings)
    unfolding Logging.init
    init-Installs = elim (Option-cases (parse_level settings.level)) [
      | inl e ↦ rw (e, Conforms) (no _)
      | inr (level, e) ↦ rw (e, Conforms) (add_console-Installs level)
    ]

  ends_not_empty : (s : Bytes) → s ++ newline ≢ []
  ends_not_empty [] e = cc e
  ends_not_empty (c ∷ s) e = cc e

  -- An error that is printed, at a phase that allows it.
  pub or_exit-Conforms :
      {A : Type 0} (p : Phase) (e : AppError) (rest : A → Program)
      → ((why : Bytes) → why ≢ [] → Step kind p (print_err why) tt (refused 1))
      → Conforms kind p (or_exit (failure e) rest)
  unfolding or_exit
  or_exit-Conforms p e rest told =
      λ u. (refused 1, told _ (ends_not_empty e.message), Ends.without_log 1)

  pub with_log-Conforms :
      (parent_path : Bytes → Bytes) (settings : Log) (body : Program)
      → Guarded ready body
      → Conforms kind cold (with_log parent_path settings body)
  unfolding with_log or_exit
  with_log-Conforms parent_path settings body h =
      let under_guard : Unit {0} → Program =
        λ u. then_with body λ exit. call (logging Logging.shutdown) λ v. answer exit in
      init-Installs parent_path settings (λ r. or_exit r under_guard)
        (λ e. or_exit-Conforms cold e under_guard Step.complain_of_log)
        (λ e. or_exit-Conforms faulty e under_guard Step.complain) h
