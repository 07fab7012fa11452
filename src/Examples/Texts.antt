-- ===== src/Examples/Texts.antt =====
-- The settings' texts at concrete values.
use web_cloud_disk.Base.{◌≡◌, refl, true, [], ◌∷◌, Bytes}
use web_cloud_disk.Config.Types.{
  Database, Auth, Log, GatewayConfig, UserServiceConfig, FileServiceConfig, default_auth,
  default_storage, default_rabbitmq, default_rpc, default_consul,
}
use web_cloud_disk.Config.Summary.{user_service_to_string, file_service_to_string}
use web_cloud_disk.Config.Secrecy.{user_service_secrecy, file_service_secrecy}

-- A secret other than the ones that are set below.
abbrev other : Bytes
other = 9 ∷ 9 ∷ []

abbrev auth : Auth
auth = record default_auth { jwt_secret = 1 ∷ [] }

abbrev database : Database
database = record {
  host = 2 ∷ [];
  port = 3306;
  username = 3 ∷ [];
  password = 4 ∷ [];
  database = 5 ∷ [];
  retry_max = 3;
}

abbrev log : Log
log = record { level = 6 ∷ []; console = true; file = []; roll_size = 1; roll_files = 1 }

abbrev gateway_config : GatewayConfig
gateway_config = record {
  server = record { port = 8888; web_root = 7 ∷ [] };
  auth = auth;
  storage = default_storage;
  rpc = default_rpc;
  consul = default_consul;
  log = log;
}

abbrev user_service_config : UserServiceConfig
user_service_config = record {
  database = database;
  auth = auth;
  rpc = default_rpc;
  consul = default_consul;
  log = log;
}

user_service_secrecy_example :
    user_service_to_string (record user_service_config {
      database = record database { username = other; password = other };
      auth = record auth { jwt_secret = other };
      consul = record default_consul { token = [] };
    })
    ≡ user_service_to_string user_service_config
user_service_secrecy_example =
    user_service_secrecy user_service_config other other other [] refl refl refl refl

abbrev file_service_config : FileServiceConfig
file_service_config = record {
  database = database;
  storage = default_storage;
  backup_enabled = true;
  rabbitmq = default_rabbitmq;
  rpc = default_rpc;
  consul = default_consul;
  log = log;
}

file_service_secrecy_example :
    file_service_to_string (record file_service_config {
      database = record database { username = other; password = other };
      rabbitmq = record default_rabbitmq { username = []; password = [] };
      consul = record default_consul { token = [] };
    })
    ≡ file_service_to_string file_service_config
file_service_secrecy_example =
    file_service_secrecy file_service_config other other [] [] [] refl refl refl refl refl
