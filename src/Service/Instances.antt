-- ===== src/Service/Instances.antt =====
-- service/AuthService.h and service/FileService.h: the services as the main functions make them.
use web_cloud_disk.Base.{ℕ, Option, none, Bytes}
use web_cloud_disk.Database.{MySqlClient}
use web_cloud_disk.Security.Jwt.{JwtService}
use web_cloud_disk.Storage.Local.{FileStorage}

-- The repositories stand for their clients of the database, the password hasher for its rounds.
pub record AuthService : Type 0 where
  pub users : MySqlClient
  pub password_hasher : ℕ
  pub jwt_service : JwtService

-- The publisher is its queue.
pub record FileService : Type 0 where
  pub files : MySqlClient
  pub storage : FileStorage
  pub backup_task_publisher : Option Bytes
  pub max_file_size : ℕ

-- The constructor.
unfoldable pub new_file_service : MySqlClient → FileStorage → ℕ → FileService
new_file_service files storage max_file_size = record {
  files = files;
  storage = storage;
  backup_task_publisher = none;
  max_file_size = max_file_size;
}

unfoldable pub set_backup_task_publisher : Option Bytes → FileService → FileService
set_backup_task_publisher publisher s = record s { backup_task_publisher = publisher }
