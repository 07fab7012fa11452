-- ===== src/Programs/UserService.antt =====
-- user_service/main.cc. `normal` and `parent_path` are the standard library's, `url_encode` the client's of
-- the database, as elsewhere.
use web_cloud_disk.Base.{List, Bytes, codes}
use web_cloud_disk.Config.Types.{UserServiceConfig}
use web_cloud_disk.Config.Load.{load_user_service}
use web_cloud_disk.Security.Jwt.{JwtService}
use web_cloud_disk.Database.{make_client}
use web_cloud_disk.Service.Instances.{AuthService}
use web_cloud_disk.Programs.{user_rpc, Program, usage, with_options, with_config, with_log, serve}

unfoldable pub user_usage : Bytes
user_usage = usage (codes "cloud_disk_user_service") (codes "user service")

-- The token service that the program makes.
unfoldable pub user_jwt_service : UserServiceConfig → JwtService
user_jwt_service config = record {
  secret = config.auth.jwt_secret;
  token_issuer = config.auth.jwt_issuer;
  token_ttl = config.auth.token_ttl;
}

-- The accounts' service that the program makes.
unfoldable pub user_auth_service : (Bytes → Bytes) → UserServiceConfig → AuthService
unfolding user_jwt_service
user_auth_service url_encode config = record {
  users = make_client url_encode config.database;
  password_hasher = config.auth.password_iterations;
  jwt_service = user_jwt_service config;
}

-- The rest of `main` once there is a log.
unfoldable pub run_user_service : (Bytes → Bytes) → UserServiceConfig → Program
unfolding user_auth_service
run_user_service url_encode config =
    serve config.consul config.consul.user_service_name config.rpc.user_service_host
      config.rpc.user_service_port (user_rpc (user_auth_service url_encode config)) 1048576

unfoldable pub main_user_service :
    (Bytes → Bytes) → (Bytes → Bytes) → (Bytes → Bytes) → List Bytes → Program
unfolding run_user_service
main_user_service url_encode normal parent_path arguments =
    with_options user_usage arguments λ path.
      with_config normal (λ get. load_user_service get normal) path
        λ config. with_log parent_path config.log (run_user_service url_encode config)
