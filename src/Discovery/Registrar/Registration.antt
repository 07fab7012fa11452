-- ===== src/Discovery/Registrar/Registration.antt =====
-- The state of the registrar and what Consul was told.
use web_cloud_disk.Base.{
  ◌≡◌, ◌≢◌, refl, sym, ◌∙◌, ℕ, List, [], ◌∷◌, ◌++◌, Bytes, codes, Result, if◌then◌else◌, Bool-cases,
  inl, inr,
}
use web_cloud_disk.Flow.{
  Flow, answer, then_with, Exchange, Ensures, Always, Ensures-then_with, Always-then_with,
}
use web_cloud_disk.Config.Types.{Consul}
use web_cloud_disk.Discovery.Registrar.{
  WfConsulTask, capture_task_result, Request, Reply, init_client, register_task, deregister_task,
  task_result, settle, make_instance_id, register_service, deregister_service,
}

abbrev Log : Type 0
Log = List (Exchange Request Reply)

-- The instance that Consul holds for the registrar, as its replies say.
abbrev told : Bytes → (c : Request) → Reply c → Bytes
told held (init_client c) r = held
told held (register_task n i a p) r = if r.state_success then i else held
told held (deregister_task i) r = if r.state_success then [] else held

abbrev current_from : Bytes → Log → Bytes
current_from held [] = held
current_from held (x ∷ xs) = current_from (told held x.command x.reply) xs

abbrev pub current : Log → Bytes
current past = current_from [] past

current_from-append :
    (held : Bytes) (xs ys : Log)
    → current_from held (xs ++ ys) ≡ current_from (current_from held xs) ys
current_from-append held [] ys = refl
current_from-append held (x ∷ xs) ys = current_from-append (told held x.command x.reply) xs ys

-- The calls of a program on its registrar, one after the other.
pub data Operation : Type 0 where
  register : Bytes → Bytes → ℕ → Operation
  deregister : Operation

module _ (config : Consul) where
  abbrev pub perform : Operation → Bytes → Flow Request Reply (Bytes × Result (Unit {0}))
  perform (register n a p) held = register_service config n a p held
  perform deregister held = deregister_service held

  abbrev pub session : List Operation → Bytes → Flow Request Reply Bytes
  session [] held = answer held
  session (op ∷ ops) held = then_with (perform op held) λ r. session ops r.0

  -- The registrar's ID is the instance that Consul holds.
  abbrev pub Agrees : Log → Bytes → Type 0
  Agrees past held = held ≡ current past

  -- Only a held instance is deregistered.
  abbrev pub OnlyHeld : Log → Request → Type 0
  OnlyHeld past (deregister_task i) = (i ≡ current past) × (i ≢ [])
  OnlyHeld past (init_client c) = Unit
  OnlyHeld past (register_task n i a p) = Unit

  abbrev Kept : Log → Bytes × Result (Unit {0}) → Type 0
  Kept past r = Agrees past r.0

  settled :
      (held changed operation : Bytes) (r : WfConsulTask)
      → (settle held changed (task_result (capture_task_result r) operation)).0
        ≡ (if r.state_success then changed else held)
  unfolding settle task_result capture_task_result
  settled held changed operation r = elim (Bool-cases r.state_success) [
    | inl e ↦ rw e refl
    | inr e ↦ rw e refl
  ]

  register-Kept :
      (past : Log) (n a : Bytes) (p : ℕ) (held : Bytes)
      → Agrees past held
      → Ensures Kept past (register_service config n a p held)
  unfolding register_service
  register-Kept past n a p held h = λ initialised. elim (Bool-cases initialised) [
    | inr e ↦ rw (e, Ensures) (h ∙ sym (current_from-append [] past _))
    | inl e ↦
        rw (e, Ensures)
          λ r.
            settled held (make_instance_id n a p) (codes "registration") r
            ∙ rw
                (
                  current_from-append [] (past ++ _ ∷ []) (_ ∷ []),
                  current_from-append [] past (_ ∷ []),
                  ← h,
                )
                refl
  ]

  deregister-Kept :
      (past : Log) (held : Bytes) → Agrees past held → Ensures Kept past (deregister_service held)
  unfolding deregister_service
  deregister-Kept past [] h = h
  deregister-Kept past (c ∷ s) h = λ r.
      settled (c ∷ s) [] (codes "deregistration") r
      ∙ rw (current_from-append [] past (_ ∷ []), ← h) refl

  perform-Kept :
      (past : Log) (op : Operation) (held : Bytes)
      → Agrees past held
      → Ensures Kept past (perform op held)
  perform-Kept past (register n a p) held h = register-Kept past n a p held h
  perform-Kept past deregister held h = deregister-Kept past held h

  register-OnlyHeld :
      (past : Log) (n a : Bytes) (p : ℕ) (held : Bytes)
      → Always OnlyHeld past (register_service config n a p held)
  unfolding register_service
  register-OnlyHeld past n a p held = (
    tt,
    λ initialised. elim (Bool-cases initialised) [
      | inr e ↦ rw (e, Always) tt
      | inl e ↦ rw (e, Always) (tt, λ r. tt)
    ],
  )

  perform-OnlyHeld :
      (past : Log) (op : Operation) (held : Bytes)
      → Agrees past held
      → Always OnlyHeld past (perform op held)
  unfolding deregister_service
  perform-OnlyHeld past (register n a p) held h = register-OnlyHeld past n a p held
  perform-OnlyHeld past deregister [] h = tt
  perform-OnlyHeld past deregister (c ∷ s) h = ((h, λ e. cc e), λ r. tt)

  session-Agrees_from :
      (ops : List Operation) (past : Log) (held : Bytes)
      → Agrees past held
      → Ensures Agrees past (session ops held)
  session-Agrees_from [] past held h = h
  session-Agrees_from (op ∷ ops) past held h =
      Ensures-then_with Kept Agrees past (perform op held) _ (perform-Kept past op held h)
        (λ past' r k. session-Agrees_from ops past' r.0 k)

  session-OnlyHeld_from :
      (ops : List Operation) (past : Log) (held : Bytes)
      → Agrees past held
      → Always OnlyHeld past (session ops held)
  session-OnlyHeld_from [] past held h = tt
  session-OnlyHeld_from (op ∷ ops) past held h =
      Always-then_with Kept OnlyHeld past (perform op held) _ (perform-OnlyHeld past op held h)
        (perform-Kept past op held h) (λ past' r k. session-OnlyHeld_from ops past' r.0 k)

  -- From a fresh registrar, after any sequence of registrations and deregistrations and whatever Consul
  -- replies, the ID kept is the instance that Consul confirmed last and did not confirm to be gone,
  -- empty if there is none; and every request to deregister names that instance, never an empty ID.
  pub session-Agrees :
      (ops : List Operation)
      → Ensures Agrees [] (session ops []) × Always OnlyHeld [] (session ops [])
  session-Agrees ops = (session-Agrees_from ops [] [] refl, session-OnlyHeld_from ops [] [] refl)
