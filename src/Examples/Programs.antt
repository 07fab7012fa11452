-- ===== src/Examples/Programs.antt =====
-- The programs and the log at concrete values.
use web_cloud_disk.Base.{true, List, [], ◌∷◌, Bytes, codes}
use web_cloud_disk.Flow.{Ensures}
use web_cloud_disk.Config.Types.{Log}
use web_cloud_disk.Logging.{init}
use web_cloud_disk.Logging.Setup.{InitOutcome, init-InitOutcome}
use web_cloud_disk.Programs.Lifecycle.{Phase, Starts, Conforms}
use web_cloud_disk.Programs.Orderly.{user_service, kind, main, usage_of, accepts, main-Conforms}
use web_cloud_disk.Programs.Limits.{main-Sound}
use web_cloud_disk.Programs.Limits.Shared.{SoundProgram}
use web_cloud_disk.Examples.Libraries.{json}

abbrev log : Log
log = record {
  level = codes "info";
  console = true;
  file = codes "logs/user.log";
  roll_size = 10485760;
  roll_files = 5;
}

abbrev parent : Bytes → Bytes
parent path = codes "logs"

init_example : Ensures (InitOutcome parent log) [] (init parent log)
init_example = init-InitOutcome parent log

abbrev command_line : List Bytes
command_line = codes "-c" ∷ codes "user_service.ini" ∷ []

main_example :
    (p : Phase) × Starts
      (usage_of user_service)
      (accepts (λ path. path) user_service)
      command_line
      p
    × Conforms
        (kind user_service)
        p
        (main json 3 (λ s. s) (λ path. path) parent command_line user_service)
main_example = main-Conforms json 3 (λ s. s) (λ path. path) parent command_line user_service

main_limits_example :
    SoundProgram (main json 3 (λ s. s) (λ path. path) parent command_line user_service)
main_limits_example = main-Sound json 3 (λ s. s) (λ path. path) parent command_line user_service
