-- ===== src/Config/Sections.antt =====
-- config/Config.cc: the loading of each section. `get` is `INIReader::Get` of section, name and
-- default.
use web_cloud_disk.Base.{
  ℕ, Bool, true, false, ◌||◌, ◌&&◌, [], ◌∷◌, ◌++◌, Bytes, codes, Result, success, ◌>>=◌, ◌>>◌,
  reject_if, ltb, ◌==◌, if◌then◌else◌, is_empty, length,
}
use web_cloud_disk.Numbers.{max_u64, max_int}
use web_cloud_disk.Config.Types.{
  Server, Database, Auth, Storage, Oss, RabbitMq, Rpc, default_auth, default_storage, default_rpc,
}
use web_cloud_disk.Config.Values.{parse_unsigned, resolve_path}

pub data ConsulScope : Type 0 where
  gateway user_service file_service : ConsulScope

abbrev pub is_gateway : ConsulScope → Bool
is_gateway gateway = true
is_gateway _ = false

abbrev pub is_user_service : ConsulScope → Bool
is_user_service user_service = true
is_user_service _ = false

abbrev pub is_file_service : ConsulScope → Bool
is_file_service file_service = true
is_file_service _ = false

abbrev pub starts_with_slash : Bytes → Bool
starts_with_slash [] = false
starts_with_slash (c ∷ s) = c == b'/'

unfoldable pub ends_with_slash : Bytes → Bool
ends_with_slash [] = false
ends_with_slash (c ∷ []) = c == b'/'
ends_with_slash (c ∷ d ∷ s) = ends_with_slash (d ∷ s)

-- `if (back() != '/') push_back('/')`
unfoldable pub close_prefix : Bytes → Bytes
unfolding ends_with_slash
close_prefix s = if ends_with_slash s then s else s ++ b'/' ∷ []

-- `pop_back`
unfoldable pub pop_back : Bytes → Bytes
pop_back [] = []
pop_back (c ∷ []) = []
pop_back (c ∷ d ∷ s) = c ∷ pop_back (d ∷ s)

module _ (get : Bytes → Bytes → Bytes → Bytes) where
  unfoldable pub load_server : (Bytes → Bytes) → Bytes → Result Server
  load_server normal working_dir = do
    port ←
        parse_unsigned (get (codes "server") (codes "port") (codes "9527")) (codes "server.port") 1
          65535
    success (record {
      port = port;
      web_root =
          resolve_path normal working_dir (get (codes "server") (codes "web_root") (codes "./www"));
    })

  unfoldable pub load_database : Result Database
  load_database = do
    port ←
        parse_unsigned (get (codes "database") (codes "port") (codes "3306"))
          (codes "database.port") 1 65535
    retry_max ←
        parse_unsigned (get (codes "database") (codes "retry_max") (codes "3"))
          (codes "database.retry_max") 0 10
    let host = get (codes "database") (codes "host") (codes "127.0.0.1")
    let username = get (codes "database") (codes "username") (codes "")
    let database = get (codes "database") (codes "database") (codes "")
    reject_if (is_empty host || (is_empty username || is_empty database)) 500
        "database.host, database.username, and database.database must not be empty"
    success (record {
      host = host;
      port = port;
      username = username;
      password = get (codes "database") (codes "password") (codes "");
      database = database;
      retry_max = retry_max;
    })

  unfoldable pub load_token_ttl : Bool → Result ℕ
  load_token_ttl false = success default_auth.token_ttl
  load_token_ttl true =
      parse_unsigned (get (codes "auth") (codes "token_ttl_seconds") (codes "3600"))
        (codes "auth.token_ttl_seconds") 60 604800

  unfoldable pub load_password_iterations : Bool → Result ℕ
  load_password_iterations false = success default_auth.password_iterations
  load_password_iterations true =
      parse_unsigned (get (codes "auth") (codes "password_iterations") (codes "600000"))
        (codes "auth.password_iterations") 600000 max_int

  unfoldable pub load_auth : Bool → Bool → Result Auth
  unfolding load_token_ttl load_password_iterations
  load_auth with_token_ttl with_password_iterations = do
    let jwt_secret = get (codes "auth") (codes "jwt_secret") (codes "")
    let jwt_issuer = get (codes "auth") (codes "jwt_issuer") (codes "web-cloud-disk")
    reject_if (ltb (length jwt_secret) 32) 500 "auth.jwt_secret must contain at least 32 characters"
    reject_if (is_empty jwt_issuer) 500 "auth.jwt_issuer must not be empty"
    token_ttl ← load_token_ttl with_token_ttl
    password_iterations ← load_password_iterations with_password_iterations
    success (record {
      jwt_secret = jwt_secret;
      jwt_issuer = jwt_issuer;
      token_ttl = token_ttl;
      password_iterations = password_iterations;
    })

  unfoldable pub load_max_file_size : Bool → Result ℕ
  load_max_file_size false = success default_storage.max_file_size
  load_max_file_size true =
      parse_unsigned (get (codes "storage") (codes "max_file_size_bytes") (codes "104857600"))
        (codes "storage.max_file_size_bytes") 1 max_u64

  unfoldable pub load_storage : (Bytes → Bytes) → Bytes → Bool → Bool → Result Storage
  unfolding load_max_file_size
  load_storage normal working_dir load_root with_max_file_size = do
    max_file_size ← load_max_file_size with_max_file_size
    success (record {
      root =
          if load_root
          then resolve_path normal working_dir
              (get (codes "storage") (codes "root") (codes "./upload"))
          else default_storage.root;
      max_file_size = max_file_size;
    })

  unfoldable pub load_oss : Result Oss
  unfolding close_prefix
  load_oss = do
    let region = get (codes "oss") (codes "region") (codes "")
    let bucket = get (codes "oss") (codes "bucket") (codes "")
    let key_prefix = get (codes "oss") (codes "key_prefix") (codes "backup/sha256/")
    reject_if (is_empty region || is_empty bucket) 500 "oss.region and oss.bucket must not be empty"
    reject_if (is_empty key_prefix || starts_with_slash key_prefix) 500
        "oss.key_prefix must be a non-empty relative object prefix"
    success (record { region = region; bucket = bucket; key_prefix = close_prefix key_prefix })

  unfoldable pub load_rabbitmq : Bool → Result RabbitMq
  load_rabbitmq required = do
    port ←
        parse_unsigned (get (codes "rabbitmq") (codes "port") (codes "5672"))
          (codes "rabbitmq.port") 1 65535
    let host = get (codes "rabbitmq") (codes "host") (codes "127.0.0.1")
    let username = get (codes "rabbitmq") (codes "username") (codes "")
    let password = get (codes "rabbitmq") (codes "password") (codes "")
    let vhost = get (codes "rabbitmq") (codes "vhost") (codes "/")
    let queue = get (codes "rabbitmq") (codes "queue") (codes "webdisk.oss.backup.v1")
    reject_if
        (required
          && (is_empty host
              || (is_empty username || (is_empty password || (is_empty vhost || is_empty queue)))))
        500
        "rabbitmq.host, username, password, vhost, and queue must not be empty when backup is enabled"
    success (record {
      host = host;
      port = port;
      username = username;
      password = password;
      vhost = vhost;
      queue = queue;
    })

  unfoldable pub load_gateway_rpc : Result Rpc
  load_gateway_rpc = do
    timeout ←
        parse_unsigned (get (codes "rpc") (codes "request_timeout_ms") (codes "120000"))
          (codes "rpc.request_timeout_ms") 1000 600000
    success (record default_rpc { request_timeout_ms = timeout })

  unfoldable pub load_service_rpc : Bool → Result Rpc
  load_service_rpc true = do
    port ←
        parse_unsigned (get (codes "rpc") (codes "user_service_port") (codes "9601"))
          (codes "rpc.user_service_port") 1 65535
    let host = get (codes "rpc") (codes "user_service_host") (codes "127.0.0.1")
    reject_if (is_empty host) 500 "rpc.user_service_host must not be empty"
    success (record default_rpc { user_service_host = host; user_service_port = port })
  load_service_rpc false = do
    port ←
        parse_unsigned (get (codes "rpc") (codes "file_service_port") (codes "9602"))
          (codes "rpc.file_service_port") 1 65535
    let host = get (codes "rpc") (codes "file_service_host") (codes "127.0.0.1")
    reject_if (is_empty host) 500 "rpc.file_service_host must not be empty"
    success (record default_rpc { file_service_host = host; file_service_port = port })
