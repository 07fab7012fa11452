-- ===== src/Config/Secrecy.antt =====
-- Passwords, signing keys and tokens in the settings' texts.
use web_cloud_disk.Base.{◌≡◌, Bytes, is_empty}
use web_cloud_disk.Config.Types.{GatewayConfig, UserServiceConfig, FileServiceConfig}
use web_cloud_disk.Config.Summary.{
  gateway_to_string, user_service_to_string, file_service_to_string,
}

-- The gateway's text depends on the signing key and the Consul token only by whether they are set.
pub gateway_secrecy :
    (c : GatewayConfig) (secret token : Bytes)
    → is_empty secret ≡ is_empty c.auth.jwt_secret
    → is_empty token ≡ is_empty c.consul.token
    → gateway_to_string (record c {
      auth = record (c.auth) { jwt_secret = secret };
      consul = record (c.consul) { token = token };
    })
      ≡ gateway_to_string c
unfolding gateway_to_string
gateway_secrecy c secret token s t = rw (s, t)

-- The user service's text depends on the database's user and password, the signing key and the Consul
-- token only by whether they are set.
pub user_service_secrecy :
    (c : UserServiceConfig) (user password secret token : Bytes)
    → is_empty user ≡ is_empty c.database.username
    → is_empty password ≡ is_empty c.database.password
    → is_empty secret ≡ is_empty c.auth.jwt_secret
    → is_empty token ≡ is_empty c.consul.token
    → user_service_to_string (record c {
      database = record (c.database) { username = user; password = password };
      auth = record (c.auth) { jwt_secret = secret };
      consul = record (c.consul) { token = token };
    })
      ≡ user_service_to_string c
unfolding user_service_to_string
user_service_secrecy c user password secret token u p s t = rw (u, p, s, t)

-- The file service's text depends on the user and password of the database and of the broker, and on
-- the Consul token, only by whether they are set.
pub file_service_secrecy :
    (c : FileServiceConfig) (user password broker_user broker_password token : Bytes)
    → is_empty user ≡ is_empty c.database.username
    → is_empty password ≡ is_empty c.database.password
    → is_empty broker_user ≡ is_empty c.rabbitmq.username
    → is_empty broker_password ≡ is_empty c.rabbitmq.password
    → is_empty token ≡ is_empty c.consul.token
    → file_service_to_string (record c {
      database = record (c.database) { username = user; password = password };
      rabbitmq = record (c.rabbitmq) { username = broker_user; password = broker_password };
      consul = record (c.consul) { token = token };
    })
      ≡ file_service_to_string c
unfolding file_service_to_string
file_service_secrecy c user password broker_user broker_password token u p b q t =
    rw (u, p, b, q, t)
