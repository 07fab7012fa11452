-- ===== src/Discovery/Registrar.antt =====
-- discovery/ConsulServiceRegistrar: its state is the ID of the registered instance, or empty.
pub mod Ids
pub mod Registration
use web_cloud_disk.Base.{
  ℕ, Bool, true, false, not, Option, none, some, ◌||◌, ◌&&◌, [], ◌∷◌, ◌++◌, Bytes, codes, Result,
  success, failure, fail, ◌==◌, leb, if◌then◌else◌, is_empty, contains,
}
use web_cloud_disk.Numbers.{to_string}
use web_cloud_disk.Flow.{Flow, answer, call}
use web_cloud_disk.Config.Types.{Consul}
use web_cloud_disk.Config.Sections.{pop_back}
use web_cloud_disk.Discovery.Client.{ConsulConfig, registrar_config}

-- `std::isalnum` in the C locale.
abbrev pub is_alnum : ℕ → Bool
is_alnum c = leb b'0' c && leb c b'9' || (leb b'A' c && leb c b'Z' || leb b'a' c && leb c b'z')

abbrev pub is_plain : ℕ → Bool
is_plain c = is_alnum c || c == b'-'

-- What the loop appends, by `last_was_separator`.
unfoldable pub fold_address : Bool → Bytes → Bytes
fold_address last [] = []
fold_address last (c ∷ s) =
    let rest = fold_address (not (is_plain c)) s in
    if is_plain c then c ∷ rest else (if not last then b'-' ∷ rest else rest)

unfoldable pub ends_with_dash : Bytes → Bool
ends_with_dash [] = false
ends_with_dash (c ∷ []) = c == b'-'
ends_with_dash (c ∷ d ∷ s) = ends_with_dash (d ∷ s)

unfoldable pub drop_dash : Bytes → Bytes
unfolding ends_with_dash pop_back
drop_dash s = if ends_with_dash s then pop_back s else s

unfoldable pub make_instance_id : Bytes → Bytes → ℕ → Bytes
unfolding fold_address drop_dash
make_instance_id service_name service_address service_port =
    drop_dash (service_name ++ b'-' ∷ fold_address false service_address)
    ++ b'-' ∷ to_string service_port

unfoldable pub ends_with_bracket : Bytes → Bool
ends_with_bracket [] = false
ends_with_bracket (c ∷ []) = c == b']'
ends_with_bracket (c ∷ d ∷ s) = ends_with_bracket (d ∷ s)

abbrev starts_with_bracket : Bytes → Bool
starts_with_bracket [] = false
starts_with_bracket (c ∷ s) = c == b'['

unfoldable pub make_tcp_address : Bytes → ℕ → Bytes
unfolding ends_with_bracket
make_tcp_address host port =
    if contains b':' host && (not (starts_with_bracket host) || not (ends_with_bracket host))
    then b'[' ∷ (host ++ (b']' ∷ b':' ∷ to_string port))
    else host ++ b':' ∷ to_string port

-- A finished Consul task: `state == WFT_STATE_SUCCESS`, the error's text, and the HTTP status's.
pub record ConsulTaskResult : Type 0 where
  pub state_success : Bool
  pub error_text : Bytes
  pub http_status : Bytes

-- What the callback reads of a task; `get_status_code` may be null.
pub record WfConsulTask : Type 0 where
  pub state_success : Bool
  pub error_text : Bytes
  pub status_code : Option Bytes

unfoldable pub capture_task_result : WfConsulTask → ConsulTaskResult
capture_task_result task = record {
  state_success = task.state_success;
  error_text = task.error_text;
  http_status = elim task.status_code [ none ↦ [] | some status_code ↦ status_code ];
}

pub data Request : Type 0 where
  init_client : ConsulConfig → Request
  -- service name, instance ID, address and port
  register_task : Bytes → Bytes → Bytes → ℕ → Request
  deregister_task : Bytes → Request

abbrev pub Reply : Request → Type 0
Reply (init_client c) = Bool
Reply (register_task n i a p) = WfConsulTask
Reply (deregister_task i) = WfConsulTask

unfoldable pub task_result : ConsulTaskResult → Bytes → Result (Unit {0})
task_result result operation =
    if result.state_success
    then success tt
    else failure (record {
      status_code = 500;
      message =
          codes "Consul service "
          ++ (operation
              ++ (codes " failed: "
                  ++ (result.error_text
                      ++ (if is_empty result.http_status
                          then []
                          else codes " (HTTP " ++ (result.http_status ++ codes ")")))));
    })

-- The state after a task: `changed` if the task succeeded.
unfoldable pub settle : Bytes → Bytes → Result (Unit {0}) → Bytes × Result (Unit {0})
settle held changed (success u) = (changed, success u)
settle held changed (failure e) = (held, failure e)

module _ (config : Consul) where
  -- `create`: a registrar with no instance.
  unfoldable pub create : Flow Request Reply (Result Bytes)
  create = call (init_client (registrar_config config)) λ initialised.
      if not initialised
      then answer (fail 500 "Failed to initialize Consul client")
      else answer (success [])

  unfoldable pub register_service :
      Bytes → Bytes → ℕ → Bytes → Flow Request Reply (Bytes × Result (Unit {0}))
  unfolding settle task_result capture_task_result make_instance_id make_tcp_address
  register_service service_name service_address service_port held =
      call
        (init_client (record (registrar_config config) {
          check_name = service_name ++ codes " TCP";
          check_tcp = make_tcp_address config.health_check_host service_port;
        }))
        λ initialised.
          if not initialised
          then answer (
            held,
            failure (record {
              status_code = 500;
              message = codes "Failed to initialize Consul registration client";
            }),
          )
          else call
              (register_task service_name
                (make_instance_id service_name service_address service_port) service_address
                service_port)
              λ task. answer (
                settle held (make_instance_id service_name service_address service_port)
                  (task_result (capture_task_result task) (codes "registration")))

unfoldable pub deregister_service : Bytes → Flow Request Reply (Bytes × Result (Unit {0}))
unfolding settle task_result capture_task_result
deregister_service held =
    if is_empty held
    then answer (held, success tt)
    else call (deregister_task held) λ task.
      answer (settle held [] (task_result (capture_task_result task) (codes "deregistration")))
