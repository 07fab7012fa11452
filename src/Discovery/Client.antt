-- ===== src/Discovery/Client.antt =====
-- The Consul clients of discovery/: their settings, and the creation of the gateway's.
use web_cloud_disk.Base.{ℕ, Bool, true, false, [], Bytes, codes}
use web_cloud_disk.Config.Types.{Consul}

-- What is set of a `protocol::ConsulConfig`, with the URL of the client.
pub record ConsulConfig : Type 0 where
  pub url : Bytes
  pub token : Bytes
  pub datacenter : Bytes
  pub passing : Bool
  pub replace_checks : Bool
  pub health_check : Bool
  pub check_name : Bytes
  pub check_tcp : Bytes
  pub check_interval : ℕ
  pub check_timeout : ℕ
  pub auto_deregister_time : ℕ
  pub initial_status : Bytes

-- Of `ConsulServiceDiscovery::create`; what is not set is false, 0 or empty here.
unfoldable pub discovery_config : Consul → ConsulConfig
discovery_config config = record {
  url = config.url;
  token = config.token;
  datacenter = config.datacenter;
  passing = true;
  replace_checks = false;
  health_check = false;
  check_name = [];
  check_tcp = [];
  check_interval = 0;
  check_timeout = 0;
  auto_deregister_time = 0;
  initial_status = [];
}

-- Of `ConsulServiceRegistrar::create`.
unfoldable pub registrar_config : Consul → ConsulConfig
registrar_config config = record {
  url = config.url;
  token = config.token;
  datacenter = config.datacenter;
  passing = false;
  replace_checks = true;
  health_check = true;
  check_name = [];
  check_tcp = [];
  check_interval = config.health_check_interval_ms;
  check_timeout = config.health_check_timeout_ms;
  auto_deregister_time = config.deregister_critical_after_ms;
  initial_status = codes "critical";
}
