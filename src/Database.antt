-- ===== src/Database.antt =====
-- database/MySqlClient: the tasks for the database. `url_encode` is `StringUtil::url_encode_component`;
-- the client's `escape` is a parameter of the repositories.
pub mod Urls
use web_cloud_disk.Base.{ℕ, ◌∷◌, ◌++◌, Bytes, codes}
use web_cloud_disk.Numbers.{to_string}
use web_cloud_disk.Config.Types.{Database}

pub record MySqlClient : Type 0 where
  pub url : Bytes
  pub retry_max : ℕ

-- What is handed to `create_mysql_task`, with the query that is set.
pub record MySqlTask : Type 0 where
  pub url : Bytes
  pub retry_max : ℕ
  pub query : Bytes

-- The constructor.
unfoldable pub make_client : (Bytes → Bytes) → Database → MySqlClient
make_client url_encode config = record {
  url =
      codes "mysql://"
      ++ (url_encode config.username
          ++ b':'
            ∷ (url_encode config.password
                ++ b'@'
                  ∷ (config.host
                      ++ b':' ∷ (to_string config.port ++ b'/' ∷ url_encode config.database))));
  retry_max = config.retry_max;
}

unfoldable pub create_task : MySqlClient → Bytes → MySqlTask
create_task client sql = record { url = client.url; retry_max = client.retry_max; query = sql }
