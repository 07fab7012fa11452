-- ===== src/Config/Summary.antt =====
-- config/Config.cc: the settings as text for the log.
use web_cloud_disk.Base.{
  Bool, true, false, not, ◌||◌, [], ◌∷◌, ◌++◌, Bytes, codes, if◌then◌else◌, is_empty,
}
use web_cloud_disk.Numbers.{to_string}
use web_cloud_disk.Config.Types.{
  Database, Auth, RabbitMq, Consul, Log, GatewayConfig, UserServiceConfig, FileServiceConfig,
  BackupWorkerConfig,
}
use web_cloud_disk.Config.Sections.{
  ConsulScope, gateway, user_service, file_service, is_gateway, is_user_service, is_file_service,
}

-- `std::boolalpha`
unfoldable pub bool_text : Bool → Bytes
bool_text true = codes "true"
bool_text false = codes "false"

unfoldable pub database_summary : Database → Bytes
database_summary c =
    codes "database{host="
    ++ (c.host
        ++ (codes ", port="
            ++ (to_string c.port
                ++ (codes ", database="
                    ++ (c.database
                        ++ (codes ", retry_max="
                            ++ (to_string c.retry_max
                                ++ (codes ", username_configured="
                                    ++ (bool_text (not (is_empty c.username))
                                        ++ (codes ", password_configured="
                                            ++ (bool_text (not (is_empty c.password))
                                                ++ codes "}")))))))))))

unfoldable pub auth_summary : Auth → Bool → Bool → Bytes
auth_summary c include_token_ttl include_password_iterations =
    codes "auth{jwt_issuer="
    ++ (c.jwt_issuer
        ++ ((if include_token_ttl
              then codes ", token_ttl_seconds=" ++ to_string c.token_ttl
              else [])
            ++ ((if include_password_iterations
                  then codes ", password_iterations=" ++ to_string c.password_iterations
                  else [])
                ++ (codes ", jwt_secret_configured="
                    ++ (bool_text (not (is_empty c.jwt_secret)) ++ codes "}")))))

unfoldable pub rabbitmq_summary : RabbitMq → Bytes
rabbitmq_summary c =
    codes "rabbitmq{host="
    ++ (c.host
        ++ (codes ", port="
            ++ (to_string c.port
                ++ (codes ", vhost="
                    ++ (c.vhost
                        ++ (codes ", queue="
                            ++ (c.queue
                                ++ (codes ", username_configured="
                                    ++ (bool_text (not (is_empty c.username))
                                        ++ (codes ", password_configured="
                                            ++ (bool_text (not (is_empty c.password))
                                                ++ codes "}")))))))))))

unfoldable pub consul_summary : Consul → ConsulScope → Bytes
consul_summary c scope =
    codes "consul{url="
    ++ (c.url
        ++ (codes ", datacenter="
            ++ (c.datacenter
                ++ (codes ", token_configured="
                    ++ (bool_text (not (is_empty c.token))
                        ++ ((if is_gateway scope || is_user_service scope
                              then codes ", user_service_name=" ++ c.user_service_name
                              else [])
                            ++ ((if is_gateway scope || is_file_service scope
                                  then codes ", file_service_name=" ++ c.file_service_name
                                  else [])
                                ++ ((if not (is_gateway scope)
                                      then codes ", health_check_host="
                                        ++ (c.health_check_host
                                            ++ (codes ", health_check_interval_ms="
                                                ++ (to_string c.health_check_interval_ms
                                                    ++ (codes ", health_check_timeout_ms="
                                                        ++ (to_string c.health_check_timeout_ms
                                                            ++ (codes
                                                            ", deregister_critical_after_ms="
                                                            ++ to_string
                                                            c.deregister_critical_after_ms))))))
                                      else [])
                                    ++ (codes ", retry_max="
                                        ++ (to_string c.retry_max ++ codes "}"))))))))))

unfoldable pub log_summary : Log → Bytes
log_summary c =
    codes "log{level="
    ++ (c.level
        ++ (codes ", console="
            ++ (bool_text c.console
                ++ (codes ", file="
                    ++ ((if is_empty c.file then codes "disabled" else c.file)
                        ++ (codes ", roll_size="
                            ++ (to_string c.roll_size
                                ++ (codes ", roll_files="
                                    ++ (to_string c.roll_files ++ codes "}")))))))))

unfoldable pub gateway_to_string : GatewayConfig → Bytes
unfolding auth_summary consul_summary
gateway_to_string c =
    codes "server{port="
    ++ (to_string c.server.port
        ++ (codes ", web_root="
            ++ (c.server.web_root
                ++ (codes "} "
                    ++ (auth_summary c.auth false false
                        ++ (codes " storage{max_file_size="
                            ++ (to_string c.storage.max_file_size
                                ++ (codes "} rpc{request_timeout_ms="
                                    ++ (to_string c.rpc.request_timeout_ms
                                        ++ (codes "} "
                                            ++ (consul_summary c.consul gateway
                                                ++ (codes " " ++ log_summary c.log))))))))))))

unfoldable pub user_service_to_string : UserServiceConfig → Bytes
unfolding database_summary auth_summary consul_summary
user_service_to_string c =
    database_summary c.database
    ++ (codes " "
        ++ (auth_summary c.auth true true
            ++ (codes " rpc{user_service="
                ++ (c.rpc.user_service_host
                    ++ (b':'
                        ∷ (to_string c.rpc.user_service_port
                            ++ (codes "} "
                                ++ (consul_summary c.consul user_service
                                    ++ (codes " " ++ log_summary c.log)))))))))

unfoldable pub file_service_to_string : FileServiceConfig → Bytes
unfolding database_summary rabbitmq_summary consul_summary
file_service_to_string c =
    database_summary c.database
    ++ (codes " storage{root="
        ++ (c.storage.root
            ++ (codes ", max_file_size="
                ++ (to_string c.storage.max_file_size
                    ++ (codes "} backup{enabled="
                        ++ (bool_text c.backup_enabled
                            ++ (codes "} "
                                ++ ((if c.backup_enabled
                                      then rabbitmq_summary c.rabbitmq ++ codes " "
                                      else [])
                                    ++ (codes "rpc{file_service="
                                        ++ (c.rpc.file_service_host
                                            ++ (b':'
                                                ∷ (to_string c.rpc.file_service_port
                                                    ++ (codes "} "
                                                        ++ (consul_summary c.consul file_service
                                                            ++ (codes " "
                                                            ++ log_summary c.log)))))))))))))))

unfoldable pub backup_worker_to_string : BackupWorkerConfig → Bytes
unfolding rabbitmq_summary
backup_worker_to_string c =
    codes "storage{root="
    ++ (c.storage.root
        ++ (codes "} oss{region="
            ++ (c.oss.region
                ++ (codes ", bucket="
                    ++ (c.oss.bucket
                        ++ (codes ", key_prefix="
                            ++ (c.oss.key_prefix
                                ++ (codes ", credentials_provider=environment} "
                                    ++ (rabbitmq_summary c.rabbitmq
                                        ++ (codes " " ++ log_summary c.log))))))))))
