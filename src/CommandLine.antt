-- ===== src/CommandLine.antt =====
-- common/ConfigCommandLine: the options of all four programs.
pub mod Forms
use web_cloud_disk.Base.{
  Bool, true, false, not, ◌||◌, ◌&&◌, Option, none, some, List, [], ◌∷◌, ◌++◌, Bytes, codes, beq,
  AppError, Result, success, failure, fail, ◌==◌, if◌then◌else◌,
}

pub record ConfigCommandLineOptions : Type 0 where
  pub config_file : Option Bytes
  pub show_help : Bool

unfoldable pub is_help : Bytes → Bool
unfolding beq codes
is_help argument = beq argument (codes "--help") || beq argument (codes "-h")

unfoldable pub is_config : Bytes → Bool
unfolding beq codes
is_config argument = beq argument (codes "--config") || beq argument (codes "-c")

-- Empty, or an option by its first character.
unfoldable pub no_path : Bytes → Bool
no_path [] = true
no_path (c ∷ s) = c == b'-'

unfoldable pub unknown : Bytes → Result ConfigCommandLineOptions
unknown argument =
    failure (record { status_code = 400; message = codes "Unknown argument: " ++ argument })

unfoldable pub finish : ConfigCommandLineOptions → Result ConfigCommandLineOptions
finish o = elim o.config_file [
  | some p ↦ success o
  | none ↦ if o.show_help then success o else fail 400 "--config is required"
]

abbrev has_config : ConfigCommandLineOptions → Bool
has_config o = elim o.config_file [ some p ↦ true | none ↦ false ]

-- The loop, over the arguments behind the program's name.
unfoldable pub parse_arguments :
    List Bytes → ConfigCommandLineOptions → Result ConfigCommandLineOptions
unfolding finish unknown
parse_arguments [] o = finish o
parse_arguments (a ∷ []) o =
    if is_help a
    then (if o.show_help
        then fail 400 "--help may only be specified once"
        else finish (record o { show_help = true }))
    else if is_config a
    then (if has_config o
        then fail 400 "--config may only be specified once"
        else fail 400 "--config requires a file path")
    else unknown a
parse_arguments (a ∷ b ∷ rest) o =
    let after_help = parse_arguments (b ∷ rest) (record o { show_help = true }) in
    let after_path = parse_arguments rest (record o { config_file = some b }) in
    if is_help a
    then (if o.show_help then fail 400 "--help may only be specified once" else after_help)
    else if is_config a
    then (if has_config o
        then fail 400 "--config may only be specified once"
        else if no_path b
        then fail 400 "--config requires a file path"
        else after_path)
    else unknown a

unfoldable pub parse_config_command_line : List Bytes → Result ConfigCommandLineOptions
unfolding parse_arguments
parse_config_command_line arguments =
    parse_arguments arguments (record { config_file = none; show_help = false })
