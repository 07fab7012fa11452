-- ===== src/Config/WellFormed.antt =====
-- What holds of each program's settings once they are loaded.
use web_cloud_disk.Base.{
  ℕ, ◌≤◌, ◌≡◌, ◌≢◌, ◌||◌, Bool, true, false, [], Bytes, codes, success, length, arith,
}
use web_cloud_disk.Numbers.{max_u64, max_int}
use web_cloud_disk.Config.Types.{Database, Auth, Storage, Oss, RabbitMq, Consul, Log}
use web_cloud_disk.Config.Values.{parse_unsigned-bounds}
use web_cloud_disk.Config.Origin.{IsOrigin}
use web_cloud_disk.Config.Sections.{
  ConsulScope, is_gateway, is_user_service, is_file_service, starts_with_slash, ends_with_slash,
  load_database, load_auth, load_storage, load_rabbitmq, load_max_file_size, load_token_ttl,
  load_password_iterations,
}
use web_cloud_disk.Config.Load.{load_service_name, load_consul, load_log}
use web_cloud_disk.Config.Bounds.{IsHealthCheck}

abbrev pub IsPort : ℕ → Type 0
IsPort p = (1 ≤ p) × (p ≤ 65535)

abbrev pub IsDatabase : Database → Type 0
IsDatabase d =
    IsPort d.port × (d.retry_max ≤ 10) × (d.host ≢ []) × (d.username ≢ []) × (d.database ≢ [])

-- The secret is long enough, and the hasher's rounds and the lifetime of tokens are within their limits.
abbrev pub IsAuth : Auth → Type 0
IsAuth a =
    (32 ≤ length a.jwt_secret)
    × (a.jwt_issuer ≢ [])
    × (60 ≤ a.token_ttl)
    × (a.token_ttl ≤ 604800)
    × (600000 ≤ a.password_iterations)
    × (a.password_iterations ≤ max_int)

abbrev pub IsStorage : Storage → Type 0
IsStorage s = (1 ≤ s.max_file_size) × (s.max_file_size ≤ max_u64)

abbrev pub IsOss : Oss → Type 0
IsOss o =
    (o.region ≢ [])
    × (o.bucket ≢ [])
    × (starts_with_slash o.key_prefix ≡ false)
    × (ends_with_slash o.key_prefix ≡ true)

abbrev pub IsRabbitMq : RabbitMq → Type 0
IsRabbitMq r =
    IsPort r.port
    × (r.host ≢ [])
    × (r.username ≢ [])
    × (r.password ≢ [])
    × (r.vhost ≢ [])
    × (r.queue ≢ [])

abbrev pub IsConsul : Consul → Type 0
IsConsul c = IsOrigin c.url × (c.datacenter ≢ []) × (c.retry_max ≤ 10)

-- The health check of a program that registers itself.
abbrev pub IsChecked : Consul → Type 0
IsChecked c =
    IsHealthCheck c.health_check_interval_ms c.health_check_timeout_ms
      c.deregister_critical_after_ms c.health_check_host

-- Something is logged to, and log files are kept within limits.
abbrev pub IsLog : Log → Type 0
IsLog l =
    (1 ≤ l.roll_size)
    × (l.roll_size ≤ max_u64)
    × (1 ≤ l.roll_files)
    × (l.roll_files ≤ 1000)
    × ((l.console ≡ false) → l.file ≢ [])

module _ (get : Bytes → Bytes → Bytes → Bytes) where
  pub load_database-IsDatabase : (d : Database) → load_database get ≡ success d → IsDatabase d
  unfolding load_database
  load_database-IsDatabase d e = ground (
    arith,
    parse_unsigned-bounds (get (codes "database") (codes "port") (codes "3306"))
        (codes "database.port") 1 65535 d.port,
    parse_unsigned-bounds (get (codes "database") (codes "retry_max") (codes "3"))
        (codes "database.retry_max") 0 10 d.retry_max,
  )

  load_token_ttl-bounds :
      (with_ttl : Bool) (n : ℕ) → load_token_ttl get with_ttl ≡ success n → (60 ≤ n) × (n ≤ 604800)
  unfolding load_token_ttl
  load_token_ttl-bounds false n e = ground arith
  load_token_ttl-bounds true n e =
      parse_unsigned-bounds (get (codes "auth") (codes "token_ttl_seconds") (codes "3600"))
        (codes "auth.token_ttl_seconds") 60 604800 n e

  load_password_iterations-bounds :
      (with_iterations : Bool) (n : ℕ)
      → load_password_iterations get with_iterations ≡ success n
      → (600000 ≤ n) × (n ≤ max_int)
  unfolding load_password_iterations
  load_password_iterations-bounds false n e = ground arith
  load_password_iterations-bounds true n e =
      parse_unsigned-bounds (get (codes "auth") (codes "password_iterations") (codes "600000"))
        (codes "auth.password_iterations") 600000 max_int n e

  pub load_auth-IsAuth :
      (with_ttl with_iterations : Bool) (a : Auth)
      → load_auth get with_ttl with_iterations ≡ success a
      → IsAuth a
  unfolding load_auth
  load_auth-IsAuth with_ttl with_iterations a e = ground (
    arith,
    load_token_ttl-bounds with_ttl a.token_ttl,
    load_password_iterations-bounds with_iterations a.password_iterations,
  )

  load_max_file_size-bounds :
      (with_max : Bool) (n : ℕ)
      → load_max_file_size get with_max ≡ success n
      → (1 ≤ n) × (n ≤ max_u64)
  unfolding load_max_file_size
  load_max_file_size-bounds false n e = ground arith
  load_max_file_size-bounds true n e =
      parse_unsigned-bounds
        (get (codes "storage") (codes "max_file_size_bytes") (codes "104857600"))
        (codes "storage.max_file_size_bytes") 1 max_u64 n e

  pub load_storage-IsStorage :
      (normal : Bytes → Bytes) (working_dir : Bytes) (with_root with_max : Bool) (s : Storage)
      → load_storage get normal working_dir with_root with_max ≡ success s
      → IsStorage s
  unfolding load_storage
  load_storage-IsStorage normal working_dir with_root with_max s e =
      ground (arith, load_max_file_size-bounds with_max s.max_file_size)

  pub load_rabbitmq-IsRabbitMq : (r : RabbitMq) → load_rabbitmq get true ≡ success r → IsRabbitMq r
  unfolding load_rabbitmq
  load_rabbitmq-IsRabbitMq r e = ground (
    arith,
    parse_unsigned-bounds (get (codes "rabbitmq") (codes "port") (codes "5672"))
        (codes "rabbitmq.port") 1 65535 r.port,
  )

  pub load_log-IsLog :
      (normal : Bytes → Bytes) (working_dir default_file : Bytes) (l : Log)
      → load_log get normal working_dir default_file ≡ success l
      → IsLog l
  unfolding load_log
  load_log-IsLog normal working_dir default_file l e = ground (
    arith,
    parse_unsigned-bounds (get (codes "log") (codes "roll_size") (codes "100000000"))
        (codes "log.roll_size") 1 max_u64 l.roll_size,
    parse_unsigned-bounds (get (codes "log") (codes "roll_files") (codes "5"))
        (codes "log.roll_files") 1 1000 l.roll_files,
  )

  load_service_name-given :
      (key default name : Bytes) → load_service_name get true key default ≡ success name → name ≢ []
  unfolding load_service_name
  load_service_name-given key default name e = ground arith

  pub load_consul-user_name :
      (scope : ConsulScope) (c : Consul)
      → load_consul get scope ≡ success c
      → (is_gateway scope || is_user_service scope) ≡ true
      → c.user_service_name ≢ []
  unfolding load_consul
  load_consul-user_name scope c e t = ground (
    arith,
    load_service_name-given (codes "user_service_name") (codes "webdisk-user-service")
        c.user_service_name,
  )

  pub load_consul-file_name :
      (scope : ConsulScope) (c : Consul)
      → load_consul get scope ≡ success c
      → (is_gateway scope || is_file_service scope) ≡ true
      → c.file_service_name ≢ []
  unfolding load_consul
  load_consul-file_name scope c e t = ground (
    arith,
    load_service_name-given (codes "file_service_name") (codes "webdisk-file-service")
        c.file_service_name,
  )
