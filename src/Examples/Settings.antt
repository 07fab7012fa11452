-- ===== src/Examples/Settings.antt =====
-- Settings, command lines and endpoints at concrete values.
use web_cloud_disk.Base.{
  ℕ, ◌%◌, ◌≤◌, ◌<◌, ◌≡◌, ◌↔◌, refl, true, none, List, [], ◌∷◌, Bytes, codes, success, arith,
  is_empty, length, if◌then◌else◌, contains, All,
}
use web_cloud_disk.Numbers.{max_u64, from_chars}
use web_cloud_disk.CommandLine.{parse_config_command_line}
use web_cloud_disk.CommandLine.Forms.{Form, parse_config_command_line-Form}
use web_cloud_disk.Config.Types.{Oss, Consul}
use web_cloud_disk.Config.Values.{parse_unsigned, valid_consul_url}
use web_cloud_disk.Config.Unsigned.{parse_unsigned_iff}
use web_cloud_disk.Numbers.Decimal.{Spells}
use web_cloud_disk.Config.Sections.{user_service, load_oss, close_prefix, ends_with_slash}
use web_cloud_disk.Config.Load.{load_consul, trim_url, load_service_name, load_health_check}
use web_cloud_disk.Discovery.Endpoints.{
  ServiceInstance, ServiceEndpoint, lt_text, usable, insert, stable_sort, make_endpoints,
}
use web_cloud_disk.Discovery.Endpoints.Sorting.{IsUsable, Sorted, of_id, make_endpoints-success}
use web_cloud_disk.Discovery.Endpoints.Order.{make_endpoints_iff}
use web_cloud_disk.Discovery.RoundRobin.{get_or, select}
use web_cloud_disk.Discovery.RoundRobin.Fairness.{counter_after, select_fair}

-- A file that sets every key without a default to "x", and no other key.
abbrev get : Bytes → Bytes → Bytes → Bytes
get section key default = if is_empty default then b'x' ∷ [] else default

abbrev oss : Oss
oss = record { region = b'x' ∷ []; bucket = b'x' ∷ []; key_prefix = codes "backup/sha256/" }

oss_loaded : load_oss get ≡ success oss
unfolding load_oss codes close_prefix ends_with_slash
oss_loaded = refl

abbrev consul : Consul
consul = record {
  url = codes "http://127.0.0.1:8500";
  datacenter = codes "dc1";
  token = b'x' ∷ [];
  user_service_name = codes "webdisk-user-service";
  file_service_name = codes "webdisk-file-service";
  health_check_host = codes "host.docker.internal";
  retry_max = 3;
  health_check_interval_ms = 5000;
  health_check_timeout_ms = 2000;
  deregister_critical_after_ms = 600000;
}

consul_loaded : load_consul get user_service ≡ success consul
unfolding load_consul codes trim_url valid_consul_url load_service_name load_health_check
    parse_unsigned from_chars contains
consul_loaded = refl

parse_unsigned_example :
    (parse_unsigned (codes "09601") [] 1 65535 ≡ success 9601)
    ↔ (Spells max_u64 (codes "09601") 9601 × (1 ≤ 9601) × (9601 ≤ 65535))
parse_unsigned_example = parse_unsigned_iff (codes "09601") [] 1 65535 9601

abbrev help_line : List Bytes
help_line = codes "--help" ∷ []

command_line_example :
    (parse_config_command_line help_line
      ≡ success (record { config_file = none; show_help = true }))
    ↔ Form help_line (record { config_file = none; show_help = true })
command_line_example =
    parse_config_command_line-Form help_line (record { config_file = none; show_help = true })

abbrev endpoint : ℕ → ServiceEndpoint
endpoint n = record { instance_id = n ∷ []; host = 1 ∷ []; port = n }

abbrev service_instance : ℕ → ServiceInstance
service_instance n = record { service_id = n ∷ []; address = 1 ∷ []; service_port = n }

abbrev instances : List ServiceInstance
instances = service_instance 3 ∷ service_instance 0 ∷ service_instance 2 ∷ []

abbrev endpoints : List ServiceEndpoint
endpoints = endpoint 2 ∷ endpoint 3 ∷ []

endpoints_made : make_endpoints instances ≡ success endpoints
unfolding make_endpoints usable stable_sort insert lt_text
endpoints_made = refl

make_endpoints_example :
    All IsUsable endpoints
    × Sorted endpoints
    × ((i : Bytes) → of_id i endpoints ≡ of_id i (usable instances))
make_endpoints_example = make_endpoints-success instances endpoints endpoints_made

-- The same instances in another order.
abbrev reordered : List ServiceInstance
reordered = service_instance 2 ∷ service_instance 3 ∷ service_instance 0 ∷ []

make_endpoints_order_example :
    (make_endpoints instances ≡ make_endpoints reordered)
    ↔ ((i : Bytes) → of_id i (usable instances) ≡ of_id i (usable reordered))
make_endpoints_order_example = make_endpoints_iff instances reordered

same_answer : make_endpoints reordered ≡ success endpoints
unfolding make_endpoints usable stable_sort insert lt_text
same_answer = refl

select_fair_example :
    (j : ℕ) × (j < length endpoints)
    × ((select (counter_after j 7 endpoints) endpoints).1
        ≡ success (get_or endpoints 0 (endpoint 2)))
    × ((k : ℕ) → k < length endpoints → counter_after k 7 endpoints % length endpoints ≡ 0 → k ≡ j)
select_fair_example = select_fair 7 0 (endpoint 2) (endpoint 3 ∷ []) (omega arith) (omega arith)
