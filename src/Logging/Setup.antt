-- ===== src/Logging/Setup.antt =====
-- How the log is set up.
use web_cloud_disk.Base.{
  ◌≡◌, refl, sym, inl, inr, Bool, true, false, not, ◌||◌, Option, none, some, List, [], ◌∷◌, ◌++◌,
  append_assoc, append-nil, Bytes, Result, success, failure, arith, Bool-cases, Option-cases,
  is_empty, if◌then◌else◌,
}
use web_cloud_disk.Flow.{answer, call, Exchange, Ensures}
use web_cloud_disk.Config.Types.{Log}
use web_cloud_disk.Logging.{
  Level, parse_level, Request, Reply, console_sink, create_directories, file_sink,
  set_default_logger, or_throw, install, make_file_sink, add_file, add_console, init,
}

abbrev pub Past : Type 0
Past = List (Exchange Request Reply)

abbrev pub done : (c : Request) → Reply c → Past
done c r = record { command = c; reply = r } ∷ []

module _ (parent_path : Bytes → Bytes) (config : Log) where
  -- The calls of a successful set-up, in order: the sinks that the settings ask for, the file's after
  -- its directory, and then the logger.
  abbrev pub file_calls : Past
  file_calls =
      if is_empty config.file
      then []
      else (if is_empty (parent_path config.file)
          then []
          else done (create_directories (parent_path config.file)) true)
        ++ done (file_sink config.file config.roll_size config.roll_files) none

  abbrev pub console_calls : Past
  console_calls = if not config.console then [] else done console_sink none

  abbrev pub InitOutcome : Past → Result (Unit {0}) → Type 0
  InitOutcome past (success u) =
      (level : Level) × (parse_level config.level ≡ some level)
      × ((config.console || not (is_empty config.file)) ≡ true)
      × (past ≡ console_calls ++ (file_calls ++ done (set_default_logger level) none))
  InitOutcome past (failure e) = e.status_code ≡ 500

  pub console_first :
      (level : Level)
      → config.console ≡ true
      → add_console parent_path config level
        ≡ call console_sink (λ thrown. or_throw thrown (add_file parent_path config level))
  unfolding add_console
  console_first level c = simp c refl

  pub no_console :
      (level : Level)
      → config.console ≡ false
      → add_console parent_path config level ≡ add_file parent_path config level
  unfolding add_console
  no_console level c = simp c refl

  module _ (level : Level) (parsed : parse_level config.level ≡ some level) where
    install-Outcome :
        (past : Past) (has_sinks : Bool)
        → (has_sinks ≡ true → (config.console || not (is_empty config.file)) ≡ true)
        → past ≡ console_calls ++ file_calls
        → Ensures InitOutcome past (install level has_sinks)
    unfolding install or_throw
    install-Outcome past false some_sink e = refl
    install-Outcome past true some_sink e = λ thrown. set_Outcome thrown
      where
        set_Outcome :
            (thrown : Option Bytes)
            → Ensures InitOutcome
                (past ++ done (set_default_logger level) thrown)
                (or_throw thrown (answer (success tt)))
        set_Outcome (some what) = refl
        set_Outcome none =
            (level, parsed, some_sink refl, rw e (append_assoc console_calls file_calls _))

    file_sink-Outcome :
        (past : Past)
        → is_empty config.file ≡ false
        → past ++ done (file_sink config.file config.roll_size config.roll_files) none
          ≡ console_calls ++ file_calls
        → Ensures InitOutcome past (make_file_sink parent_path config level)
    unfolding make_file_sink or_throw
    file_sink-Outcome past given e = λ thrown. made thrown
      where
        made :
            (thrown : Option Bytes)
            → Ensures InitOutcome
                (past ++ done (file_sink config.file config.roll_size config.roll_files) thrown)
                (or_throw thrown (install level true))
        made (some what) = refl
        made none = install-Outcome _ true (λ t. ground (arith, given)) e

    add_file-Outcome :
        (past : Past)
        → past ≡ console_calls
        → Ensures InitOutcome past (add_file parent_path config level)
    unfolding add_file
    add_file-Outcome past e = elim (Bool-cases (is_empty config.file)) [
      | inl f ↦
          rw f (
            install-Outcome past config.console (λ t. ground arith)
              (rw (e, f) (sym (append-nil _))))
      | inr f ↦ elim (Bool-cases (is_empty (parent_path config.file))) [
        | inl p ↦ rw (f, p) (file_sink-Outcome past f (rw (e, f, p) refl))
        | inr p ↦
            rw (f, p)
              λ made. elim (Bool-cases made) [
                | inr m ↦ rw m refl
                | inl m ↦
                    rw m (file_sink-Outcome _ f (rw (e, f, p) (append_assoc console_calls _ _)))
              ]
      ]
    ]

    add_console-Outcome : Ensures InitOutcome [] (add_console parent_path config level)
    unfolding or_throw
    add_console-Outcome = elim (Bool-cases config.console) [
      | inr c ↦ rw (no_console level c) (add_file-Outcome [] (simp c refl))
      | inl c ↦ rw (console_first level c) λ thrown. sink_Outcome c thrown
    ]
      where
        sink_Outcome :
            config.console ≡ true
            → (thrown : Option Bytes)
            → Ensures InitOutcome
                (done console_sink thrown)
                (or_throw thrown (add_file parent_path config level))
        sink_Outcome c (some what) = refl
        sink_Outcome c none = add_file-Outcome (done console_sink none) (simp c refl)

  -- Whatever the calls end with, a set-up that succeeds had a known level and a console or a file, and
  -- has made exactly these calls with success, in this order: the console's sink if it is asked for;
  -- for a file, its directory if the path has one, and then its sink; the logger with that level. Every
  -- failure is a 500.
  pub init-InitOutcome : Ensures InitOutcome [] (init parent_path config)
  unfolding init
  init-InitOutcome = elim (Option-cases (parse_level config.level)) [
    | inl e ↦ rw (e, Ensures) refl
    | inr (level, e) ↦ rw (e, Ensures) (add_console-Outcome level e)
  ]
