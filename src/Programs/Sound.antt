-- ===== src/Programs/Sound.antt =====
-- Which values the programs' requests may carry.
use web_cloud_disk.Base.{◌<◌, ℕ, ◌≤◌, ◌≡◌, ◌≢◌, true, false, some, [], Bytes, length}
use web_cloud_disk.Flow.{Flow, answer, call, Uses}
use web_cloud_disk.Numbers.{max_u64, max_int}
use web_cloud_disk.Backend
use web_cloud_disk.Logging
use web_cloud_disk.Config.Origin.{IsOrigin}
use web_cloud_disk.Gateway.Routes.{HasRoom}
use web_cloud_disk.Config.Sections.{starts_with_slash}
use web_cloud_disk.Config.WellFormed.{IsPort}
use web_cloud_disk.Discovery.Client.{ConsulConfig}
use web_cloud_disk.Discovery.Registrar
use web_cloud_disk.Programs.{
  Request, RpcService, user_rpc, file_rpc, logging, backend, consul, init_discovery, add_service,
  register_routes, start_server, in_logging, in_backend, in_consul,
}

-- Passwords are hashed in at least 600000 rounds, secrets are long, tokens live from a minute to a week; a
-- request has room for a content of the allowed size and 2 MiB more, if 64 bits hold that; tasks are
-- published to a queue with a name.
abbrev pub SoundService : RpcService → ℕ → Type 0
SoundService (user_rpc s) limit =
    (s.users.retry_max ≤ 10)
    × (600000 ≤ s.password_hasher)
    × (s.password_hasher ≤ max_int)
    × (32 ≤ length s.jwt_service.secret)
    × (s.jwt_service.token_issuer ≢ [])
    × (60 ≤ s.jwt_service.token_ttl)
    × (s.jwt_service.token_ttl ≤ 604800)
SoundService (file_rpc s) limit =
    (s.files.retry_max ≤ 10)
    × (1 ≤ s.max_file_size)
    × HasRoom 2097152 s.max_file_size limit
    × ((queue : Bytes) → s.backup_task_publisher ≡ some queue → queue ≢ [])

abbrev pub SoundClient : ConsulConfig → Type 0
SoundClient c = IsOrigin c.url × (c.datacenter ≢ [])

-- A health check times out before the next one; an instance is given up after a minute or later.
abbrev pub SoundCheck : ConsulConfig → Type 0
SoundCheck c =
    (100 ≤ c.check_timeout)
    × (c.check_timeout ≤ c.check_interval)
    × (c.check_interval ≤ 600000)
    × (60000 ≤ c.auto_deregister_time)

abbrev pub SoundConsul : Registrar.Request → Type 0
SoundConsul (Registrar.init_client c) = SoundClient c × SoundCheck c
SoundConsul (Registrar.register_task name id address port) =
    (name ≢ []) × (id ≢ []) × (address ≢ []) × IsPort port
SoundConsul (Registrar.deregister_task id) = id ≢ []

abbrev pub SoundBackend : Backend.Request → Type 0
SoundBackend (Backend.open_channel o) =
    IsPort o.port × (o.host ≢ []) × (o.vhost ≢ []) × (o.username ≢ []) × (o.password ≢ [])
SoundBackend (Backend.declare_queue queue) = queue ≢ []
SoundBackend (Backend.basic_consume_start queue) = queue ≢ []
SoundBackend (Backend.put_object bucket key path) = (bucket ≢ []) × (starts_with_slash key ≡ false)
SoundBackend _ = Unit

abbrev pub SoundLogging : Logging.Request → Type 0
SoundLogging (Logging.file_sink path size files) =
    (path ≢ []) × (1 ≤ size) × (1 ≤ files) × (files ≤ 1000)
SoundLogging _ = Unit

abbrev pub Sound : Request → Type 0
Sound (add_service s limit) = SoundService s limit
Sound (start_server port) = IsPort port
Sound (register_routes t) = (1048576 < t.request_size_limit) × (t.request_size_limit ≤ max_u64)
Sound (init_discovery c) = SoundClient c × (c.passing ≡ true)
Sound (consul c) = SoundConsul c
Sound (backend c) = SoundBackend c
Sound (logging c) = SoundLogging c
Sound _ = Unit

module _ {A : Type 0} (P : A → Type 0) where
  pub in_backend-Sound :
      (m : Flow Backend.Request Backend.Reply A)
      → Uses SoundBackend P m
      → Uses Sound P (in_backend m)
  in_backend-Sound (answer a) h = h
  in_backend-Sound (call c f) (q, h) = (q, λ r. in_backend-Sound (f r) (h r))

  pub in_consul-Sound :
      (m : Flow Registrar.Request Registrar.Reply A)
      → Uses SoundConsul P m
      → Uses Sound P (in_consul m)
  in_consul-Sound (answer a) h = h
  in_consul-Sound (call c f) (q, h) = (q, λ r. in_consul-Sound (f r) (h r))

  pub in_logging-Sound :
      (m : Flow Logging.Request Logging.Reply A)
      → Uses SoundLogging P m
      → Uses Sound P (in_logging m)
  in_logging-Sound (answer a) h = h
  in_logging-Sound (call c f) (q, h) = (q, λ r. in_logging-Sound (f r) (h r))
