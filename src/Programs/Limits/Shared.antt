-- ===== src/Programs/Limits/Shared.antt =====
-- The parts that all programs share: the command line, the settings and the log.
use web_cloud_disk.Base.{
  ◌≡◌, ◌≢◌, refl, Bool, true, false, Option, none, some, List, [], Bytes, Result, success, failure,
  Bool-cases, Option-cases, Result-cases, inl, inr, is_empty, arith,
}
use web_cloud_disk.Flow.{Uses, Uses-then_with}
use web_cloud_disk.CommandLine.{parse_config_command_line}
use web_cloud_disk.Config.Types.{Log}
use web_cloud_disk.Config.Load.{Opened, check_parse, load_config_file}
use web_cloud_disk.Config.WellFormed.{IsLog}
use web_cloud_disk.Logging
use web_cloud_disk.Logging.{
  Level, parse_level, or_throw, install, make_file_sink, add_file, add_console, init,
}
use web_cloud_disk.Logging.Setup.{console_first, no_console}
use web_cloud_disk.Programs.{Program, with_path, with_options, or_exit, with_config, with_log}
use web_cloud_disk.Programs.Sound.{SoundLogging, Sound, in_logging-Sound}

-- Nothing is asked of the answer.
abbrev pub Any : {A : Type 0} → A → Type 0
Any a = Unit {0}

abbrev pub SoundProgram : Program → Type 0
SoundProgram = Uses Sound Any

module _ (parent_path : Bytes → Bytes) (settings : Log) (limits : IsLog settings) where
  abbrev SoundAction : Logging.Action → Type 0
  SoundAction = Uses SoundLogging Any

  or_throw-Sound :
      (thrown : Option Bytes) (m : Logging.Action) → SoundAction m → SoundAction (or_throw thrown m)
  unfolding or_throw
  or_throw-Sound none m h = h
  or_throw-Sound (some what) m h = tt

  install-Sound : (level : Level) (has_sinks : Bool) → SoundAction (install level has_sinks)
  unfolding install
  install-Sound level false = tt
  install-Sound level true = (tt, λ thrown. or_throw-Sound thrown _ tt)

  make_file_sink-Sound :
      (level : Level) → settings.file ≢ [] → SoundAction (make_file_sink parent_path settings level)
  unfolding make_file_sink
  make_file_sink-Sound level given = (
    (given, limits.0, limits.2, limits.3),
    λ thrown. or_throw-Sound thrown _ (install-Sound level true),
  )

  add_file-Sound : (level : Level) → SoundAction (add_file parent_path settings level)
  unfolding add_file
  add_file-Sound level = elim (Bool-cases (is_empty settings.file)) [
    | inl f ↦ rw f (install-Sound level settings.console)
    | inr f ↦
        let given : settings.file ≢ [] = λ e. ground arith in
        elim (Bool-cases (is_empty (parent_path settings.file))) [
          | inl p ↦ rw (f, p) (make_file_sink-Sound level given)
          | inr p ↦
              rw (f, p)
                (
                  tt,
                  λ made. elim (Bool-cases made) [
                    | inl m ↦ rw (m, Uses) (make_file_sink-Sound level given)
                    | inr m ↦ rw (m, Uses) tt
                  ],
                )
        ]
  ]

  add_console-Sound : (level : Level) → SoundAction (add_console parent_path settings level)
  unfolding add_console
  add_console-Sound level = elim (Bool-cases settings.console) [
    | inr c ↦ rw (no_console parent_path settings level c) (add_file-Sound level)
    | inl c ↦
        rw (console_first parent_path settings level c)
          (tt, λ thrown. or_throw-Sound thrown _ (add_file-Sound level))
  ]

  init-Sound : SoundAction (init parent_path settings)
  unfolding init
  init-Sound = elim (Option-cases (parse_level settings.level)) [
    | inl e ↦ rw (e, Uses) tt
    | inr (level, e) ↦ rw (e, Uses) (add_console-Sound level)
  ]

or_exit-Sound :
    {A : Type 0} (r : Result A) (rest : A → Program)
    → ((a : A) → r ≡ success a → SoundProgram (rest a))
    → SoundProgram (or_exit r rest)
unfolding or_exit
or_exit-Sound (failure e) rest h = (tt, λ u. tt)
or_exit-Sound (success a) rest h = h a refl

pub with_log-Sound :
    (parent_path : Bytes → Bytes) (settings : Log) (body : Program)
    → IsLog settings
    → SoundProgram body
    → SoundProgram (with_log parent_path settings body)
unfolding with_log
with_log-Sound parent_path settings body limits h =
    Uses-then_with Sound Any Any _ _
      (in_logging-Sound Any (init parent_path settings) (init-Sound parent_path settings limits))
      (λ result u.
        or_exit-Sound result _
          (λ v e. Uses-then_with Sound Any Any body _ h (λ exit w. (tt, λ x. tt))))

-- Settings that are used were accepted, whatever file they came from.
loaded :
    {A : Type 0} (normal : Bytes → Bytes) (path : Bytes) (opened : Opened)
    (loader : (Bytes → Bytes → Bytes → Bytes) → Bytes → Result A) (a : A)
    → load_config_file normal path opened loader ≡ success a
    → (working_dir : Bytes) × (loader opened.get_value working_dir ≡ success a)
unfolding load_config_file
loaded normal path opened loader a e = elim (Option-cases opened.absolute_path) [
  | inl n ↦ absurd (ground arith)
  | inr (p, q) ↦ elim (Result-cases (check_parse opened.parse_error (normal p))) [
    | inr (x, bad) ↦ absurd (ground arith)
    | inl (u, good) ↦ elim (Option-cases opened.current_path) [
      | inl n ↦ absurd (ground arith)
      | inr (c, r) ↦ (normal c, ground arith)
    ]
  ]
]

pub with_config-Sound :
    {A : Type 0} (normal : Bytes → Bytes)
    (loader : (Bytes → Bytes → Bytes → Bytes) → Bytes → Result A) (path : Bytes)
    (rest : A → Program)
    → ((get : Bytes → Bytes → Bytes → Bytes) (working_dir : Bytes) (a : A)
        → loader get working_dir ≡ success a
        → SoundProgram (rest a))
    → SoundProgram (with_config normal loader path rest)
unfolding with_config
with_config-Sound normal loader path rest h = (
  tt,
  λ opened. or_exit-Sound (load_config_file normal path opened loader) rest λ a e.
      let (working_dir, accepted) = loaded normal path opened loader a e in
      h opened.get_value working_dir a accepted,
)

pub with_options-Sound :
    (usage_text : Bytes) (arguments : List Bytes) (rest : Bytes → Program)
    → ((path : Bytes) → SoundProgram (rest path))
    → SoundProgram (with_options usage_text arguments rest)
unfolding with_options
with_options-Sound usage_text arguments rest h =
    elim (Result-cases (parse_config_command_line arguments)) [
      | inr (e, parsed) ↦ rw (parsed, Uses) (tt, λ u. tt)
      | inl (o, parsed) ↦ elim (Bool-cases o.show_help) [
        | inl s ↦ rw (parsed, s, Uses) (tt, λ u. tt)
        | inr s ↦ rw (parsed, s, Uses) (given o.config_file)
      ]
    ]
  where
    given : (path : Option Bytes) → SoundProgram (with_path path rest)
    given none = tt
    given (some path) = h path
