-- ===== src/Programs/Gateway.antt =====
-- gateway/main.cc, and the start and stop of gateway/GatewayApplication.
use web_cloud_disk.Base.{
  Bool, true, false, List, Bytes, codes, not, Result, success, failure, fail, if◌then◌else◌,
}
use web_cloud_disk.Flow.{◌>>=◌, Flow, answer, call, then_with}
use web_cloud_disk.Config.Types.{Consul, GatewayConfig}
use web_cloud_disk.Config.Load.{load_gateway}
use web_cloud_disk.Discovery.Client.{discovery_config}
use web_cloud_disk.Programs.{
  Request, Reply, init_discovery, handle_signals, register_routes, start_server, stop_server, wait,
  Program, returned, usage, with_options, with_config, with_log,
}
use web_cloud_disk.Gateway.Routes.{route_table}

unfoldable pub gateway_usage : Bytes
gateway_usage = usage (codes "cloud_disk_api_gateway") (codes "gateway")

-- Setting the routes cannot fail. The state says whether they were set.
unfoldable pub set_routes : GatewayConfig → Bool → Flow Request Reply Bool
set_routes config routes_registered =
    if routes_registered
    then answer true
    else call (register_routes (route_table config)) λ u. answer true

-- `ConsulServiceDiscovery::create`
unfoldable pub create_discovery : Consul → Flow Request Reply (Result (Unit {0}))
create_discovery config = call (init_discovery (discovery_config config)) λ initialised.
    if not initialised
    then answer (fail 500 "Failed to initialize Consul discovery client")
    else answer (success tt)

-- `GatewayApplication::init` of a fresh application.
unfoldable pub init_application : GatewayConfig → Flow Request Reply (Result (Unit {0}))
unfolding create_discovery set_routes
init_application config = create_discovery config.consul >>= λ discovery.
    then_with (set_routes config false) λ registered. answer (success tt)

unfoldable pub run_application : GatewayConfig → Result (Unit {0}) → Program
run_application config (failure e) = answer (returned 1)
run_application config (success u) = call handle_signals λ v.
    call (start_server config.server.port) λ started.
      if not started
      then answer (returned 1)
      else call wait λ w. call stop_server λ x. answer (returned 0)

unfoldable pub run_gateway : GatewayConfig → Program
unfolding init_application run_application
run_gateway config = then_with (init_application config) (run_application config)

unfoldable pub main_gateway : (Bytes → Bytes) → (Bytes → Bytes) → List Bytes → Program
unfolding run_gateway
main_gateway normal parent_path arguments = with_options gateway_usage arguments λ path.
    with_config normal (λ get. load_gateway get normal) path
      λ config. with_log parent_path config.log (run_gateway config)
