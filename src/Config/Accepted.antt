-- ===== src/Config/Accepted.antt =====
-- What each program may rely on once its settings file is accepted.
use web_cloud_disk.Base.{◌≤◌, ◌≡◌, ◌≢◌, refl, Bool, true, false, [], Bytes, codes, success, arith}
use web_cloud_disk.Config.Types.{
  Server, RabbitMq, Rpc, Consul, GatewayConfig, UserServiceConfig, FileServiceConfig,
  BackupWorkerConfig,
}
use web_cloud_disk.Config.Values.{parse_unsigned-bounds}
use web_cloud_disk.Config.Sections.{
  ConsulScope, gateway, user_service, file_service, load_server, load_database, load_auth,
  load_storage, load_oss, load_rabbitmq, load_gateway_rpc, load_service_rpc,
}
use web_cloud_disk.Config.Load.{
  load_consul, load_log, load_gateway, load_user_service, load_file_service, load_backup_worker,
  load_enabled_rabbitmq,
}
use web_cloud_disk.Config.Bounds.{load_consul-bounds, load_oss-bounds}
use web_cloud_disk.Config.Origin.{valid_consul_url-IsOrigin}
use web_cloud_disk.Config.WellFormed.{
  IsPort, IsDatabase, IsAuth, IsStorage, IsOss, IsRabbitMq, IsConsul, IsChecked, IsLog,
  load_database-IsDatabase, load_auth-IsAuth, load_storage-IsStorage, load_rabbitmq-IsRabbitMq,
  load_log-IsLog, load_consul-user_name, load_consul-file_name,
}

pub record IsUserService (c : UserServiceConfig) : Type 0 where
  pub database : IsDatabase c.database
  pub auth : IsAuth c.auth
  pub rpc : IsPort c.rpc.user_service_port × (c.rpc.user_service_host ≢ [])
  pub consul : IsConsul c.consul × IsChecked c.consul × (c.consul.user_service_name ≢ [])
  pub log : IsLog c.log

pub record IsGateway (c : GatewayConfig) : Type 0 where
  pub server : IsPort c.server.port
  pub auth : IsAuth c.auth
  pub storage : IsStorage c.storage
  pub timeout : (1000 ≤ c.rpc.request_timeout_ms) × (c.rpc.request_timeout_ms ≤ 600000)
  pub consul :
      IsConsul c.consul × (c.consul.user_service_name ≢ []) × (c.consul.file_service_name ≢ [])
  pub log : IsLog c.log

pub record IsFileService (c : FileServiceConfig) : Type 0 where
  pub database : IsDatabase c.database
  pub storage : IsStorage c.storage
  pub rabbitmq : (c.backup_enabled ≡ true) → IsRabbitMq c.rabbitmq
  pub rpc : IsPort c.rpc.file_service_port × (c.rpc.file_service_host ≢ [])
  pub consul : IsConsul c.consul × IsChecked c.consul × (c.consul.file_service_name ≢ [])
  pub log : IsLog c.log

pub record IsBackupWorker (c : BackupWorkerConfig) : Type 0 where
  pub storage : IsStorage c.storage
  pub oss : IsOss c.oss
  pub rabbitmq : IsRabbitMq c.rabbitmq
  pub log : IsLog c.log

module _ (get : Bytes → Bytes → Bytes → Bytes) (normal : Bytes → Bytes) (working_dir : Bytes) where
  load_user_rpc :
      (r : Rpc)
      → load_service_rpc get true ≡ success r
      → IsPort r.user_service_port × (r.user_service_host ≢ [])
  unfolding load_service_rpc
  load_user_rpc r e = ground (
    arith,
    parse_unsigned-bounds (get (codes "rpc") (codes "user_service_port") (codes "9601"))
        (codes "rpc.user_service_port") 1 65535 r.user_service_port,
  )

  load_user_service-parts :
      (c : UserServiceConfig)
      → load_user_service get normal working_dir ≡ success c
      → (load_database get ≡ success c.database)
        × (load_auth get true true ≡ success c.auth)
        × (load_service_rpc get true ≡ success c.rpc)
        × (load_consul get user_service ≡ success c.consul)
        × (load_log get normal working_dir (codes "./log/cloud_disk_user_service.log")
            ≡ success c.log)
  unfolding load_user_service
  load_user_service-parts c e = ground arith

  load_file_rpc :
      (r : Rpc)
      → load_service_rpc get false ≡ success r
      → IsPort r.file_service_port × (r.file_service_host ≢ [])
  unfolding load_service_rpc
  load_file_rpc r e = ground (
    arith,
    parse_unsigned-bounds (get (codes "rpc") (codes "file_service_port") (codes "9602"))
        (codes "rpc.file_service_port") 1 65535 r.file_service_port,
  )

  load_gateway_timeout :
      (r : Rpc)
      → load_gateway_rpc get ≡ success r
      → (1000 ≤ r.request_timeout_ms) × (r.request_timeout_ms ≤ 600000)
  unfolding load_gateway_rpc
  load_gateway_timeout r e = ground (
    arith,
    parse_unsigned-bounds (get (codes "rpc") (codes "request_timeout_ms") (codes "120000"))
        (codes "rpc.request_timeout_ms") 1000 600000 r.request_timeout_ms,
  )

  load_server_port : (r : Server) → load_server get normal working_dir ≡ success r → IsPort r.port
  unfolding load_server
  load_server_port r e = ground (
    arith,
    parse_unsigned-bounds (get (codes "server") (codes "port") (codes "9527")) (codes "server.port")
        1 65535 r.port,
  )

  load_gateway-parts :
      (c : GatewayConfig)
      → load_gateway get normal working_dir ≡ success c
      → (load_server get normal working_dir ≡ success c.server)
        × (load_auth get false false ≡ success c.auth)
        × (load_storage get normal working_dir false true ≡ success c.storage)
        × (load_gateway_rpc get ≡ success c.rpc)
        × (load_consul get gateway ≡ success c.consul)
        × (load_log get normal working_dir (codes "./log/cloud_disk_api_gateway.log")
            ≡ success c.log)
  unfolding load_gateway
  load_gateway-parts c e = ground arith

  load_file_service-parts :
      (c : FileServiceConfig)
      → load_file_service get normal working_dir ≡ success c
      → (load_database get ≡ success c.database)
        × (load_storage get normal working_dir true true ≡ success c.storage)
        × (load_service_rpc get false ≡ success c.rpc)
        × (load_consul get file_service ≡ success c.consul)
        × (load_log get normal working_dir (codes "./log/cloud_disk_file_service.log")
            ≡ success c.log)
        × (load_enabled_rabbitmq get normal working_dir c.backup_enabled ≡ success c.rabbitmq)
  unfolding load_file_service
  load_file_service-parts c e = ground arith

  load_backup_worker-parts :
      (c : BackupWorkerConfig)
      → load_backup_worker get normal working_dir ≡ success c
      → (load_storage get normal working_dir true false ≡ success c.storage)
        × (load_oss get ≡ success c.oss)
        × (load_rabbitmq get true ≡ success c.rabbitmq)
        × (load_log get normal working_dir (codes "./log/cloud_disk_backup_worker.log")
            ≡ success c.log)
  unfolding load_backup_worker
  load_backup_worker-parts c e = ground arith

  load_enabled_rabbitmq-IsRabbitMq :
      (enabled : Bool) (r : RabbitMq)
      → load_enabled_rabbitmq get normal working_dir enabled ≡ success r
      → enabled ≡ true
      → IsRabbitMq r
  unfolding load_enabled_rabbitmq
  load_enabled_rabbitmq-IsRabbitMq true r e t = load_rabbitmq-IsRabbitMq get r e
  load_enabled_rabbitmq-IsRabbitMq false r e t = absurd (cc t)

  consul_of : (scope : ConsulScope) (c : Consul) → load_consul get scope ≡ success c → IsConsul c
  consul_of scope c e =
      let (u, d, n, h) = load_consul-bounds get scope c e in
      (valid_consul_url-IsOrigin c.url u, d, n)

  -- Settings that the user service accepts name a database with a port, a JWT secret of at least 32 bytes, an
  -- issuer, tokens that live from a minute to a week, at least 600000 rounds of hashing that fit an `int`, a
  -- host and a port to serve, an origin of Consul, a health check within its limits, a service name, and a
  -- log that goes somewhere.
  pub load_user_service-IsUserService :
      (c : UserServiceConfig)
      → load_user_service get normal working_dir ≡ success c
      → IsUserService c
  load_user_service-IsUserService c e =
      let (d, a, r, n, l) = load_user_service-parts c e in
      record {
        database = load_database-IsDatabase get c.database d;
        auth = load_auth-IsAuth get true true c.auth a;
        rpc = load_user_rpc c.rpc r;
        consul = (
          consul_of user_service c.consul n,
          (load_consul-bounds get user_service c.consul n).3 refl,
          load_consul-user_name get user_service c.consul n refl,
        );
        log = load_log-IsLog get normal working_dir _ c.log l;
      }

  pub load_gateway-IsGateway :
      (c : GatewayConfig) → load_gateway get normal working_dir ≡ success c → IsGateway c
  load_gateway-IsGateway c e =
      let (p, a, s, r, n, l) = load_gateway-parts c e in
      record {
        server = load_server_port c.server p;
        auth = load_auth-IsAuth get false false c.auth a;
        storage = load_storage-IsStorage get normal working_dir false true c.storage s;
        timeout = load_gateway_timeout c.rpc r;
        consul = (
          consul_of gateway c.consul n,
          load_consul-user_name get gateway c.consul n refl,
          load_consul-file_name get gateway c.consul n refl,
        );
        log = load_log-IsLog get normal working_dir _ c.log l;
      }

  pub load_file_service-IsFileService :
      (c : FileServiceConfig)
      → load_file_service get normal working_dir ≡ success c
      → IsFileService c
  load_file_service-IsFileService c e =
      let (d, s, r, n, l, m) = load_file_service-parts c e in
      record {
        database = load_database-IsDatabase get c.database d;
        storage = load_storage-IsStorage get normal working_dir true true c.storage s;
        rabbitmq = load_enabled_rabbitmq-IsRabbitMq c.backup_enabled c.rabbitmq m;
        rpc = load_file_rpc c.rpc r;
        consul = (
          consul_of file_service c.consul n,
          (load_consul-bounds get file_service c.consul n).3 refl,
          load_consul-file_name get file_service c.consul n refl,
        );
        log = load_log-IsLog get normal working_dir _ c.log l;
      }

  pub load_backup_worker-IsBackupWorker :
      (c : BackupWorkerConfig)
      → load_backup_worker get normal working_dir ≡ success c
      → IsBackupWorker c
  load_backup_worker-IsBackupWorker c e =
      let (s, o, r, l) = load_backup_worker-parts c e in
      record {
        storage = load_storage-IsStorage get normal working_dir true false c.storage s;
        oss = load_oss-bounds get c.oss o;
        rabbitmq = load_rabbitmq-IsRabbitMq get c.rabbitmq r;
        log = load_log-IsLog get normal working_dir _ c.log l;
      }
