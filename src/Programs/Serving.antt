-- ===== src/Programs/Serving.antt =====
-- The bodies of the programs with a server keep to the machine of the programs.
use web_cloud_disk.Base.{
  ℕ, ◌≡◌, refl, Bool, true, false, not, [], ◌∷◌, ◌++◌, Bytes, codes, Result, success, failure,
  AppError, arith, Bool-cases, Result-cases, inl, inr, is_empty, if◌then◌else◌,
}
use web_cloud_disk.Flow.{answer, call, then_with}
use web_cloud_disk.Numbers.{to_string}
use web_cloud_disk.Config.Types.{Consul, FileServiceConfig, GatewayConfig}
use web_cloud_disk.Discovery.Registrar
use web_cloud_disk.Discovery.Registrar.{
  WfConsulTask, capture_task_result, task_result, settle, drop_dash, fold_address, make_instance_id,
  register_service, deregister_service,
}
use web_cloud_disk.Programs
use web_cloud_disk.Programs.{
  RpcService, Program, returned, in_consul, consul, announced, announce, serve, with_options,
}
use web_cloud_disk.Programs.Lifecycle.{
  registered, unregistered, Phase, ready, listening, leaving, retired, stopped, closed, Step, Ends,
  Conforms,
}
use web_cloud_disk.Programs.Conformance.{
  init-OnlySetup, create-OnlySetup, Guarded, failed-Guarded, backend-Guarded,
}
use web_cloud_disk.Programs.FileService.{
  run_file_service, with_storage, serve_files, with_publisher, made_file_service,
}
use web_cloud_disk.Service.Instances.{FileService}
use web_cloud_disk.Programs.Gateway.{
  run_gateway, init_application, create_discovery, set_routes, run_application,
}

append-not-empty : (s : Bytes) (c : ℕ) (t : Bytes) → is_empty (s ++ c ∷ t) ≡ false
append-not-empty [] c t = refl
append-not-empty (d ∷ s) c t = refl

pub make_instance_id-not-empty :
    (name address : Bytes) (port : ℕ) → is_empty (make_instance_id name address port) ≡ false
unfolding make_instance_id
make_instance_id-not-empty name address port =
    append-not-empty (drop_dash (name ++ b'-' ∷ fold_address false address)) b'-' (to_string port)

failed_registration :
    (r : WfConsulTask) (operation held changed : Bytes)
    → r.state_success ≡ false
    → (e : AppError) × (settle held changed (task_result (capture_task_result r) operation)
        ≡ (held, failure e))
unfolding settle task_result capture_task_result
failed_registration r operation held changed s =
    elim (Result-cases (task_result (capture_task_result r) operation)) [
      | inl (u, q) ↦ absurd (ground arith)
      | inr (e, q) ↦ (e, rw q refl)
    ]

done_registration :
    (r : WfConsulTask) (operation held changed : Bytes)
    → r.state_success ≡ true
    → settle held changed (task_result (capture_task_result r) operation) ≡ (changed, success tt)
unfolding settle task_result capture_task_result
done_registration r operation held changed s = simp s refl

-- An instance ends with its removal from Consul, then the stop of the server.
announced-Guarded :
    (id : Bytes)
    → is_empty id ≡ false
    → Guarded registered (Phase.announced id) (announced (id, success tt))
unfolding announced deregister_service
announced-Guarded id e =
    rw (e, Conforms)
      λ u. (
        leaving id,
        Step.signalled id,
        λ r. (
          retired,
          Step.deregistration id r,
          λ w. (stopped true, Step.stop, λ v. (closed true, Step.close true, Ends.orderly)),
        ),
      )

unannounced-Guarded :
    (held : Bytes) (e : AppError) → Guarded registered listening (announced (held, failure e))
unfolding announced
unannounced-Guarded held e =
    λ u. (stopped false, Step.stop_early, λ v. (closed false, Step.close false, Ends.failed))

registered-Guarded :
    (config : Consul) (name host : Bytes) (port : ℕ) (held : Bytes)
    → Guarded registered listening
        (then_with (in_consul (register_service config name host port held)) announced)
unfolding register_service
registered-Guarded config name host port held = λ initialised. (
  listening,
  Step.client _ initialised,
  elim (Bool-cases initialised) [
    | inr i ↦ rw (i, Conforms) (unannounced-Guarded held _)
    | inl i ↦
        rw (i, Conforms)
          λ r. elim (Bool-cases r.state_success) [
            | inl s ↦ (
              Phase.announced (make_instance_id name host port),
              Step.registration _ _ _ _ r s,
              rw
                  (
                    done_registration r (codes "registration") held
                        (make_instance_id name host port) s,
                    Conforms,
                  )
                  (announced-Guarded _ (make_instance_id-not-empty name host port)),
            )
            | inr s ↦
                let (e, q) =
                  failed_registration r (codes "registration") held
                    (make_instance_id name host port) s in
                (
                  listening,
                  Step.no_registration _ _ _ _ r s,
                  rw (q, Conforms) (unannounced-Guarded held e),
                )
          ]
  ],
)

announce-Guarded :
    (config : Consul) (name host : Bytes) (port : ℕ)
    → Guarded registered listening
        (then_with (in_consul (Registrar.create config)) (announce config name host port))
unfolding announce Registrar.create
announce-Guarded config name host port = λ initialised. (
  listening,
  Step.client _ initialised,
  elim (Bool-cases initialised) [
    | inl i ↦ rw (i, Conforms) (registered-Guarded config name host port [])
    | inr i ↦
        rw (i, Conforms)
          λ u. (stopped false, Step.stop_early, λ v. (closed false, Step.close false, Ends.failed))
  ],
)

pub serve-Guarded :
    (config : Consul) (name host : Bytes) (port : ℕ) (service : RpcService) (limit : ℕ)
    → Guarded registered ready (serve config name host port service limit)
unfolding serve
serve-Guarded config name host port service limit = λ added. (
  ready,
  Step.service service limit added,
  elim (Bool-cases added) [
    | inr a ↦ rw (a, Conforms) (failed-Guarded registered)
    | inl a ↦ rw (a, Conforms) λ u. (ready, Step.signals, λ started. started_server started)
  ],
)
  where
    started_server :
        (started : Bool)
        → (q : Phase) × Step registered ready (Programs.start_server port) started q
          × Guarded registered q (
              if not started
              then answer (returned 1)
              else then_with (in_consul (Registrar.create config)) (announce config name host port))
    started_server false = (ready, Step.no_start port, failed-Guarded registered)
    started_server true = (listening, Step.start port, announce-Guarded config name host port)

pub run_file_service-Guarded :
    (url_encode : Bytes → Bytes) (config : FileServiceConfig)
    → Guarded registered ready (run_file_service url_encode config)
unfolding run_file_service with_storage serve_files
run_file_service-Guarded url_encode config =
    backend-Guarded registered _ (with_storage url_encode config) (init-OnlySetup _) stored
  where
    served : (made : Result FileService) → Guarded registered ready (serve_files config made)
    served (failure e) = failed-Guarded registered
    served (success service) = serve-Guarded _ _ _ _ _ _

    stored :
        (made : Result (Unit {0})) → Guarded registered ready (with_storage url_encode config made)
    stored (failure e) = failed-Guarded registered
    stored (success u) = elim (Bool-cases config.backup_enabled) [
      | inl b ↦ rw b (
          backend-Guarded registered _ _ (create-OnlySetup config.rabbitmq)
            (λ r. served (with_publisher (made_file_service url_encode config) r)))
      | inr b ↦ rw b (served (success (made_file_service url_encode config)))
    ]

run_application-Guarded :
    (config : GatewayConfig) (made : Result (Unit {0}))
    → Guarded unregistered ready (run_application config made)
unfolding run_application
run_application-Guarded config (failure e) = failed-Guarded unregistered
run_application-Guarded config (success u) = λ v. (ready, Step.signals, λ started. served started)
  where
    served :
        (started : Bool)
        → (q : Phase) × Step unregistered ready (Programs.start_server config.server.port) started q
          × Guarded unregistered q (
              if not started
              then answer (returned 1)
              else call Programs.wait λ w. call Programs.stop_server λ x. answer (returned 0))
    served false = (ready, Step.no_start _, failed-Guarded unregistered)
    served true = (
      listening,
      Step.start _,
      λ w. (
        retired,
        Step.signalled_unregistered refl,
        λ x. (stopped true, Step.stop, λ v. (closed true, Step.close true, Ends.orderly)),
      ),
    )

pub run_gateway-Guarded : (config : GatewayConfig) → Guarded unregistered ready (run_gateway config)
unfolding run_gateway init_application create_discovery set_routes
run_gateway-Guarded config = λ initialised. (
  ready,
  Step.discovery _ initialised,
  elim (Bool-cases initialised) [
    | inr i ↦ rw (i, Conforms) (failed-Guarded unregistered)
    | inl i ↦
        rw (i, Conforms) λ u. (ready, Step.routes _, run_application-Guarded config (success tt))
  ],
)
