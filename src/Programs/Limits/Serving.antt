-- ===== src/Programs/Limits/Serving.antt =====
-- The serving of an RPC service, with its registration at Consul.
use web_cloud_disk.Base.{
  ℕ, ◌≡◌, ◌≢◌, false, [], Bytes, Result, success, failure, Bool-cases, inl, inr, is_empty, arith,
}
use web_cloud_disk.Flow.{Uses, Uses-then_with}
use web_cloud_disk.Config.Types.{Consul}
use web_cloud_disk.Config.WellFormed.{IsPort, IsConsul, IsChecked}
use web_cloud_disk.Discovery.Client.{registrar_config}
use web_cloud_disk.Discovery.Registrar
use web_cloud_disk.Discovery.Registrar.{
  register_service, deregister_service, settle, make_instance_id, task_result, capture_task_result,
  WfConsulTask,
}
use web_cloud_disk.Programs.{RpcService, announced, announce, serve}
use web_cloud_disk.Programs.Serving.{make_instance_id-not-empty}
use web_cloud_disk.Programs.Sound.{SoundService, SoundConsul, Sound, in_consul-Sound}
use web_cloud_disk.Programs.Limits.Shared.{Any, SoundProgram}

not_empty : (s : Bytes) → is_empty s ≡ false → s ≢ []
not_empty s h e = ground arith

-- The answer of a registration is the ID of the instance, or the state before with an error.
abbrev Held : Bytes × Result (Unit {0}) → Type 0
Held (held, failure e) = Unit
Held (held, success u) = held ≢ []

settled : (held id : Bytes) (r : Result (Unit {0})) → id ≢ [] → Held (settle held id r)
unfolding settle
settled held id (failure e) n = tt
settled held id (success u) n = n

announced-Sound : (held : Bytes × Result (Unit {0})) → Held held → SoundProgram (announced held)
unfolding announced deregister_service
announced-Sound (held, failure e) h = (tt, λ u. tt)
announced-Sound (held, success v) h = (
  tt,
  λ u. elim (Bool-cases (is_empty held)) [
    | inl e ↦ absurd (h (ground arith))
    | inr e ↦ rw (e, Uses) (h, λ r. (tt, λ w. tt))
  ],
)

module _ (config : Consul) (name host : Bytes) (port : ℕ) (origin : IsConsul config)
    (checked : IsChecked config) (named : name ≢ []) (hosted : host ≢ [])
    (is_port : IsPort port) where
  register-Sound :
      (held : Bytes) → Uses SoundConsul Held (register_service config name host port held)
  unfolding register_service registrar_config
  register-Sound held = (
    (
      (origin.0, origin.1),
      (
        checked.timeout_least, checked.timeout_most, checked.interval_most,
        checked.deregister_least,
      ),
    ),
    λ initialised. elim (Bool-cases initialised) [
      | inr i ↦ rw (i, Uses) tt
      | inl i ↦
          rw (i, Uses)
            (
              (named, not_empty _ (make_instance_id-not-empty name host port), hosted, is_port),
              λ task.
                  settled held (make_instance_id name host port) _
                    (not_empty _ (make_instance_id-not-empty name host port)),
            )
    ],
  )

  announce-Sound :
      (registrar : Result Bytes) → SoundProgram (announce config name host port registrar)
  unfolding announce
  announce-Sound (failure e) = (tt, λ u. tt)
  announce-Sound (success registrar) =
      Uses-then_with Sound Held Any _ announced (in_consul-Sound Held _ (register-Sound registrar))
        announced-Sound

  create-Sound : Uses SoundConsul Any (Registrar.create config)
  unfolding Registrar.create registrar_config
  create-Sound = (
    (
      (origin.0, origin.1),
      (
        checked.timeout_least, checked.timeout_most, checked.interval_most,
        checked.deregister_least,
      ),
    ),
    λ initialised. elim (Bool-cases initialised) [
      | inr i ↦ rw (i, Uses) tt
      | inl i ↦ rw (i, Uses) tt
    ],
  )

  pub serve-Sound :
      (service : RpcService) (limit : ℕ)
      → SoundService service limit
      → SoundProgram (serve config name host port service limit)
  unfolding serve
  serve-Sound service limit s = (
    s,
    λ added. elim (Bool-cases added) [
      | inr a ↦ rw (a, Uses) tt
      | inl a ↦
          rw (a, Uses)
            (
              tt,
              λ u. (
                is_port,
                λ started. elim (Bool-cases started) [
                  | inr b ↦ rw (b, Uses) tt
                  | inl b ↦
                      rw (b, Uses)
                        (Uses-then_with Sound Any Any _ _ (in_consul-Sound Any _ create-Sound)
                          (λ r v. announce-Sound r))
                ],
              ),
            )
    ],
  )
