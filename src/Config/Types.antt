-- ===== src/Config/Types.antt =====
-- config/Config.h: the sections, with the values that a fresh one has.
use web_cloud_disk.Base.{ℕ, Bool, [], Bytes, codes}

pub record Server : Type 0 where
  pub port : ℕ
  pub web_root : Bytes

pub record Database : Type 0 where
  pub host : Bytes
  pub port : ℕ
  pub username : Bytes
  pub password : Bytes
  pub database : Bytes
  pub retry_max : ℕ

pub record Auth : Type 0 where
  pub jwt_secret : Bytes
  pub jwt_issuer : Bytes
  pub token_ttl : ℕ
  pub password_iterations : ℕ

pub record Storage : Type 0 where
  pub root : Bytes
  pub max_file_size : ℕ

pub record Oss : Type 0 where
  pub region : Bytes
  pub bucket : Bytes
  pub key_prefix : Bytes

pub record RabbitMq : Type 0 where
  pub host : Bytes
  pub port : ℕ
  pub username : Bytes
  pub password : Bytes
  pub vhost : Bytes
  pub queue : Bytes

pub record Rpc : Type 0 where
  pub user_service_host : Bytes
  pub user_service_port : ℕ
  pub file_service_host : Bytes
  pub file_service_port : ℕ
  pub request_timeout_ms : ℕ

pub record Consul : Type 0 where
  pub url : Bytes
  pub datacenter : Bytes
  pub token : Bytes
  pub user_service_name : Bytes
  pub file_service_name : Bytes
  pub health_check_host : Bytes
  pub retry_max : ℕ
  pub health_check_interval_ms : ℕ
  pub health_check_timeout_ms : ℕ
  pub deregister_critical_after_ms : ℕ

pub record Log : Type 0 where
  pub level : Bytes
  pub console : Bool
  pub file : Bytes
  pub roll_size : ℕ
  pub roll_files : ℕ

pub record GatewayConfig : Type 0 where
  pub server : Server
  pub auth : Auth
  pub storage : Storage
  pub rpc : Rpc
  pub consul : Consul
  pub log : Log

pub record UserServiceConfig : Type 0 where
  pub database : Database
  pub auth : Auth
  pub rpc : Rpc
  pub consul : Consul
  pub log : Log

pub record FileServiceConfig : Type 0 where
  pub database : Database
  pub storage : Storage
  pub backup_enabled : Bool
  pub rabbitmq : RabbitMq
  pub rpc : Rpc
  pub consul : Consul
  pub log : Log

pub record BackupWorkerConfig : Type 0 where
  pub storage : Storage
  pub oss : Oss
  pub rabbitmq : RabbitMq
  pub log : Log

abbrev pub default_auth : Auth
default_auth = record {
  jwt_secret = [];
  jwt_issuer = codes "web-cloud-disk";
  token_ttl = 3600;
  password_iterations = 600000;
}

abbrev pub default_storage : Storage
default_storage = record { root = []; max_file_size = 104857600 }

abbrev pub default_rabbitmq : RabbitMq
default_rabbitmq = record {
  host = codes "127.0.0.1";
  port = 5672;
  username = [];
  password = [];
  vhost = codes "/";
  queue = codes "webdisk.oss.backup.v1";
}

abbrev pub default_rpc : Rpc
default_rpc = record {
  user_service_host = codes "127.0.0.1";
  user_service_port = 9601;
  file_service_host = codes "127.0.0.1";
  file_service_port = 9602;
  request_timeout_ms = 120000;
}

abbrev pub default_consul : Consul
default_consul = record {
  url = codes "http://127.0.0.1:8500";
  datacenter = codes "dc1";
  token = [];
  user_service_name = codes "webdisk-user-service";
  file_service_name = codes "webdisk-file-service";
  health_check_host = codes "host.docker.internal";
  retry_max = 3;
  health_check_interval_ms = 5000;
  health_check_timeout_ms = 2000;
  deregister_critical_after_ms = 600000;
}
