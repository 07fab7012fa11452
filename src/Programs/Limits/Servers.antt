-- ===== src/Programs/Limits/Servers.antt =====
-- The programs with a server.
use web_cloud_disk.Base.{
  ℕ, ◌+◌, ◌≤◌, ◌<◌, ◌⊎◌, ◌≡◌, ◌≢◌, refl, Option, none, some, [], Bytes, Result, success, failure,
  Bool-cases, inl, inr, arith,
}
use web_cloud_disk.Numbers.{max_u64}
use web_cloud_disk.Flow.{Uses, Uses-then_with}
use web_cloud_disk.Config.Types.{RabbitMq, FileServiceConfig, UserServiceConfig, GatewayConfig}
use web_cloud_disk.Config.WellFormed.{IsRabbitMq}
use web_cloud_disk.Config.Accepted.{IsUserService, IsFileService, IsGateway}
use web_cloud_disk.Discovery.Client.{discovery_config}
use web_cloud_disk.Gateway.Routes.{route_table, request_limit-HasRoom}
use web_cloud_disk.Messaging.Publisher.{create, channel_options}
use web_cloud_disk.Storage.Local.{FileStorage, init}
use web_cloud_disk.Database.{make_client}
use web_cloud_disk.Programs.UserService.{run_user_service, user_auth_service, user_jwt_service}
use web_cloud_disk.Programs.FileService.{
  run_file_service, with_storage, serve_files, with_publisher, made_file_service,
}
use web_cloud_disk.Programs.Gateway.{
  run_gateway, init_application, create_discovery, set_routes, run_application,
}
use web_cloud_disk.Service.Instances.{new_file_service, set_backup_task_publisher}
use web_cloud_disk.Programs.Sound.{SoundBackend, Sound, in_backend-Sound}
use web_cloud_disk.Programs.Limits.Shared.{Any, SoundProgram}
use web_cloud_disk.Programs.Limits.Serving.{serve-Sound}

pub run_user_service-Sound :
    (url_encode : Bytes → Bytes) (config : UserServiceConfig)
    → IsUserService config
    → SoundProgram (run_user_service url_encode config)
unfolding run_user_service user_auth_service user_jwt_service make_client
run_user_service-Sound url_encode config ok =
    serve-Sound config.consul config.consul.user_service_name config.rpc.user_service_host
      config.rpc.user_service_port ok.consul.0 ok.consul.1 ok.consul.2 ok.rpc.1 ok.rpc.0 _ 1048576
      (ok.database.1, ok.auth.4, ok.auth.5, ok.auth.0, ok.auth.1, ok.auth.2, ok.auth.3)

pub init-Sound : (s : FileStorage) → Uses SoundBackend Any (init s)
unfolding init
init-Sound s = (
  tt,
  λ made. elim (Bool-cases made) [
    | inr m ↦ rw (m, Uses) tt
    | inl m ↦
        rw (m, Uses)
          (
            tt,
            λ temporary. elim (Bool-cases temporary) [
              | inr t ↦ rw (t, Uses) tt
              | inl t ↦ rw (t, Uses) tt
            ],
          )
  ],
)

-- The queue of a publisher that was made has a name.
abbrev Named : Result Bytes → Type 0
Named (failure e) = Unit
Named (success queue) = queue ≢ []

create_publisher-Sound :
    (rabbitmq : RabbitMq) → IsRabbitMq rabbitmq → Uses SoundBackend Named (create rabbitmq)
unfolding create channel_options
create_publisher-Sound rabbitmq ok = (
  (ok.0, ok.1, ok.4, ok.2, ok.3),
  λ opened. elim (Bool-cases opened) [
    | inr o ↦ rw (o, Uses) tt
    | inl o ↦
        rw (o, Uses)
          (
            ok.5,
            λ declared. elim (Bool-cases declared) [
              | inr d ↦ rw (d, Uses) tt
              | inl d ↦ rw (d, Uses) ok.5
            ],
          )
  ],
)

module _ (url_encode : Bytes → Bytes) (config : FileServiceConfig) (ok : IsFileService config) where
  serve_with :
      (publisher : Option Bytes)
      → ((queue : Bytes) → publisher ≡ some queue → queue ≢ [])
      → SoundProgram (
          serve_files config
            (success (set_backup_task_publisher publisher (made_file_service url_encode config))))
  unfolding serve_files made_file_service new_file_service set_backup_task_publisher make_client
  serve_with publisher named =
      let room =
        request_limit-HasRoom 2097152 config.storage.max_file_size (omega arith) ok.storage.1 in
      serve-Sound config.consul config.consul.file_service_name config.rpc.file_service_host
        config.rpc.file_service_port ok.consul.0 ok.consul.1 ok.consul.2 ok.rpc.1 ok.rpc.0 _ _
        (ok.database.1, ok.storage.0, room, named)

  serve_made :
      (r : Result Bytes)
      → Named r
      → SoundProgram (serve_files config (with_publisher (made_file_service url_encode config) r))
  unfolding with_publisher serve_files
  serve_made (failure e) n = tt
  serve_made (success queue) n = serve_with (some queue) (λ q e empty. n cc)

  serve_unpublished :
      SoundProgram (serve_files config (success (made_file_service url_encode config)))
  unfolding made_file_service new_file_service set_backup_task_publisher
  serve_unpublished = serve_with none (λ q e. absurd (cc e))

  with_storage-Sound : (r : Result (Unit {0})) → SoundProgram (with_storage url_encode config r)
  unfolding with_storage
  with_storage-Sound (failure e) = tt
  with_storage-Sound (success u) = elim (Bool-cases config.backup_enabled) [
    | inr b ↦ rw b serve_unpublished
    | inl b ↦ rw b (
        Uses-then_with Sound Named Any _ _
          (in_backend-Sound Named _ (create_publisher-Sound config.rabbitmq (ok.rabbitmq b)))
          serve_made)
  ]

  pub run_file_service-Sound : SoundProgram (run_file_service url_encode config)
  unfolding run_file_service
  run_file_service-Sound =
      Uses-then_with Sound Any Any _ (with_storage url_encode config)
        (in_backend-Sound Any _ (init-Sound _)) (λ r u. with_storage-Sound r)

module _ (config : GatewayConfig) (ok : IsGateway config) where
  run_application-Sound : (r : Result (Unit {0})) → SoundProgram (run_application config r)
  unfolding run_application
  run_application-Sound (failure e) = tt
  run_application-Sound (success u) = (
    tt,
    λ v. (
      ok.server,
      λ started. elim (Bool-cases started) [
        | inr b ↦ rw (b, Uses) tt
        | inl b ↦ rw (b, Uses) (tt, λ w. (tt, λ x. tt))
      ],
    ),
  )

  wide :
      {size limit : ℕ}
      → size ≤ limit
      → 1 ≤ size
      → (limit ≡ size + 1048576) ⊎ (max_u64 < size + 1048576)
      → 1048576 < limit
  wide fits given (inl e) = omega arith
  wide fits given (inr big) = omega arith

  pub run_gateway-Sound : SoundProgram (run_gateway config)
  unfolding run_gateway init_application create_discovery set_routes discovery_config route_table
  run_gateway-Sound = (
    ((ok.consul.0.0, ok.consul.0.1), refl),
    λ initialised. elim (Bool-cases initialised) [
      | inr i ↦ rw (i, Uses) tt
      | inl i ↦
          rw (i, Uses)
            (let (fits, most, room) =
                request_limit-HasRoom 1048576 config.storage.max_file_size (omega arith)
                  ok.storage.1 in
              ((wide fits ok.storage.0 room, most), λ u. run_application-Sound (success tt)))
    ],
  )
