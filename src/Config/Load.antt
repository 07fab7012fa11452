-- ===== src/Config/Load.antt =====
-- config/Config.cc: the Consul and log sections, and the loading of each program's settings.
use web_cloud_disk.Base.{
  ℕ, zero, suc, Bool, true, false, not, ◌||◌, ◌&&◌, Option, none, some, [], ◌∷◌, ◌++◌, Bytes, codes,
  AppError, Result, success, failure, ◌>>=◌, ◌>>◌, reject_if, ltb, if◌then◌else◌, is_empty, length,
}
use web_cloud_disk.Numbers.{ℤ, pos, negsuc, max_u64, to_string}
use web_cloud_disk.Config.Types.{
  RabbitMq, Consul, Log, GatewayConfig, UserServiceConfig, FileServiceConfig, BackupWorkerConfig,
  default_rabbitmq, default_consul,
}
use web_cloud_disk.Config.Values.{parse_unsigned, parse_boolean, valid_consul_url, resolve_path}
use web_cloud_disk.Config.Sections.{
  ConsulScope, gateway, user_service, file_service, is_gateway, is_user_service, is_file_service,
  ends_with_slash, pop_back, load_server, load_database, load_auth, load_storage, load_oss,
  load_rabbitmq, load_gateway_rpc, load_service_rpc,
}

unfoldable pub trim_url : Bytes → Bytes
unfolding ends_with_slash pop_back
trim_url url = if ltb 1 (length url) && ends_with_slash url then pop_back url else url

-- What `load_consul` reads for a service that registers itself.
pub record HealthCheck : Type 0 where
  pub host : Bytes
  pub interval_ms : ℕ
  pub timeout_ms : ℕ
  pub deregister_after_ms : ℕ

module _ (get : Bytes → Bytes → Bytes → Bytes) where
  unfoldable pub load_service_name : Bool → Bytes → Bytes → Result Bytes
  load_service_name false key default = success default
  load_service_name true key default =
      let name = get (codes "consul") key default in
      if is_empty name
      then failure (record {
        status_code = 500;
        message = codes "consul." ++ (key ++ codes " must not be empty");
      })
      else success name

  unfoldable pub load_health_check : Bool → Result HealthCheck
  load_health_check false = success (record {
    host = default_consul.health_check_host;
    interval_ms = default_consul.health_check_interval_ms;
    timeout_ms = default_consul.health_check_timeout_ms;
    deregister_after_ms = default_consul.deregister_critical_after_ms;
  })
  load_health_check true = do
    interval ←
        parse_unsigned (get (codes "consul") (codes "health_check_interval_ms") (codes "5000"))
          (codes "consul.health_check_interval_ms") 1000 600000
    timeout ←
        parse_unsigned (get (codes "consul") (codes "health_check_timeout_ms") (codes "2000"))
          (codes "consul.health_check_timeout_ms") 100 600000
    deregister ←
        parse_unsigned
          (get (codes "consul") (codes "deregister_critical_after_ms") (codes "600000"))
          (codes "consul.deregister_critical_after_ms") 60000 86400000
    let host = get (codes "consul") (codes "health_check_host") (codes "host.docker.internal")
    reject_if (is_empty host) 500 "consul.health_check_host must not be empty"
    reject_if (ltb interval timeout) 500
        "consul.health_check_timeout_ms must not exceed health_check_interval_ms"
    success (record {
      host = host;
      interval_ms = interval;
      timeout_ms = timeout;
      deregister_after_ms = deregister;
    })

  unfoldable pub load_consul : ConsulScope → Result Consul
  load_consul scope = do
    retry_max ←
        parse_unsigned (get (codes "consul") (codes "retry_max") (codes "3"))
          (codes "consul.retry_max") 0 10
    let url = trim_url (get (codes "consul") (codes "url") (codes "http://127.0.0.1:8500"))
    let datacenter = get (codes "consul") (codes "datacenter") (codes "dc1")
    reject_if (not (valid_consul_url url)) 500
        "consul.url must contain only an HTTP or HTTPS origin without credentials"
    reject_if (is_empty datacenter) 500 "consul.datacenter must not be empty"
    user_name ←
        load_service_name (is_gateway scope || is_user_service scope) (codes "user_service_name")
          (codes "webdisk-user-service")
    file_name ←
        load_service_name (is_gateway scope || is_file_service scope) (codes "file_service_name")
          (codes "webdisk-file-service")
    health ← load_health_check (not (is_gateway scope))
    success (record {
      url = url;
      datacenter = datacenter;
      token = get (codes "consul") (codes "token") (codes "");
      user_service_name = user_name;
      file_service_name = file_name;
      health_check_host = health.host;
      retry_max = retry_max;
      health_check_interval_ms = health.interval_ms;
      health_check_timeout_ms = health.timeout_ms;
      deregister_critical_after_ms = health.deregister_after_ms;
    })

  unfoldable pub load_log : (Bytes → Bytes) → Bytes → Bytes → Result Log
  load_log normal working_dir default_file = do
    console ←
        parse_boolean (get (codes "log") (codes "console") (codes "true")) (codes "log.console")
    roll_size ←
        parse_unsigned (get (codes "log") (codes "roll_size") (codes "100000000"))
          (codes "log.roll_size") 1 max_u64
    roll_files ←
        parse_unsigned (get (codes "log") (codes "roll_files") (codes "5")) (codes "log.roll_files")
          1 1000
    let file_text = get (codes "log") (codes "file") default_file
    let file = if is_empty file_text then [] else resolve_path normal working_dir file_text
    reject_if (not console && is_empty file) 500 "log.console and log.file cannot both be disabled"
    success (record {
      level = get (codes "log") (codes "level") (codes "info");
      console = console;
      file = file;
      roll_size = roll_size;
      roll_files = roll_files;
    })

  module _ (normal : Bytes → Bytes) (working_dir : Bytes) where
    unfoldable pub load_gateway : Result GatewayConfig
    load_gateway = do
      server ← load_server get normal working_dir
      auth ← load_auth get false false
      storage ← load_storage get normal working_dir false true
      rpc ← load_gateway_rpc get
      consul ← load_consul gateway
      log ← load_log normal working_dir (codes "./log/cloud_disk_api_gateway.log")
      success (record {
        server = server;
        auth = auth;
        storage = storage;
        rpc = rpc;
        consul = consul;
        log = log;
      })

    unfoldable pub load_user_service : Result UserServiceConfig
    load_user_service = do
      database ← load_database get
      auth ← load_auth get true true
      rpc ← load_service_rpc get true
      consul ← load_consul user_service
      log ← load_log normal working_dir (codes "./log/cloud_disk_user_service.log")
      success (record { database = database; auth = auth; rpc = rpc; consul = consul; log = log })

    unfoldable pub load_enabled_rabbitmq : Bool → Result RabbitMq
    load_enabled_rabbitmq true = load_rabbitmq get true
    load_enabled_rabbitmq false = success default_rabbitmq

    unfoldable pub load_file_service : Result FileServiceConfig
    unfolding load_enabled_rabbitmq
    load_file_service = do
      database ← load_database get
      storage ← load_storage get normal working_dir true true
      backup_enabled ←
          parse_boolean (get (codes "backup") (codes "enabled") (codes "true"))
            (codes "backup.enabled")
      rpc ← load_service_rpc get false
      consul ← load_consul file_service
      log ← load_log normal working_dir (codes "./log/cloud_disk_file_service.log")
      rabbitmq ← load_enabled_rabbitmq backup_enabled
      success (record {
        database = database;
        storage = storage;
        backup_enabled = backup_enabled;
        rabbitmq = rabbitmq;
        rpc = rpc;
        consul = consul;
        log = log;
      })

    unfoldable pub load_backup_worker : Result BackupWorkerConfig
    load_backup_worker = do
      storage ← load_storage get normal working_dir true false
      oss ← load_oss get
      rabbitmq ← load_rabbitmq get true
      log ← load_log normal working_dir (codes "./log/cloud_disk_backup_worker.log")
      success (record { storage = storage; oss = oss; rabbitmq = rabbitmq; log = log })

-- What opening the file yields: `absolute` of the path, the reader's `ParseError()` and its entries,
-- and the working directory. `none` is an error code that is set.
pub record Opened : Type 0 where
  pub absolute_path : Option Bytes
  pub parse_error : ℤ
  pub get_value : Bytes → Bytes → Bytes → Bytes
  pub current_path : Option Bytes

-- `ParseError()` is 0, or -1 if the file did not open, or the line of the first error.
unfoldable pub check_parse : ℤ → Bytes → Result (Unit {0})
check_parse (pos zero) path = success tt
check_parse (pos (suc n)) path = failure (record {
  status_code = 500;
  message = codes "INI syntax error at line: " ++ to_string (suc n);
})
check_parse (negsuc zero) path =
    failure
      (record { status_code = 500; message = codes "Failed to open configuration file: " ++ path })
check_parse (negsuc (suc n)) path = failure (record {
  status_code = 500;
  message = codes "INI syntax error at line: " ++ (b'-' ∷ to_string (suc (suc n)));
})

abbrev or_fail : {A : Type 0} → Option A → AppError → Result A
or_fail (some a) e = success a
or_fail none e = failure e

unfoldable pub load_config_file :
    {A : Type 0}
    → (Bytes → Bytes)
    → Bytes
    → Opened
    → ((Bytes → Bytes → Bytes → Bytes) → Bytes → Result A)
    → Result A
load_config_file normal path opened loader = do
  absolute_path ← or_fail opened.absolute_path (record {
    status_code = 500;
    message = codes "Failed to resolve configuration file path: " ++ path;
  })
  check_parse opened.parse_error (normal absolute_path)
  current ← or_fail opened.current_path (record {
    status_code = 500;
    message = codes "Failed to resolve the process working directory";
  })
  loader opened.get_value (normal current)
