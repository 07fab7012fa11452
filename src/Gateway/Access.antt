-- ===== src/Gateway/Access.antt =====
-- On whose behalf the gateway calls the services, and what it answers when a call fails.
use web_cloud_disk.Base.{
  ℕ, ◌≡◌, refl, inl, inr, Option, none, some, List, [], ◌∷◌, ◌++◌, Bytes, Result, success, failure,
  Bool-cases, Result-cases, is_empty, codes,
}
use web_cloud_disk.Flow.{answer, Exchange, Always, Starts, Starts-append}
use web_cloud_disk.Config.Types.{GatewayConfig}
use web_cloud_disk.Security.Jwt.{AuthContext, JwtLibrary}
use web_cloud_disk.Messaging.Json.{JsonLibrary}
use web_cloud_disk.Discovery.Endpoints.{ServiceEndpoint}
use web_cloud_disk.Discovery.RoundRobin.{select}
use web_cloud_disk.Http.{HttpResponse, authenticate, error_response}
use web_cloud_disk.Gateway.{
  HttpRequest, RpcCall, register_call, login_call, current_user_call, list_files_call,
  upload_file_call, download_file_call, Response, RpcReply, Service, Request, Reply, system_now,
  discover, fetch_add, rpc, Handler, discovered, choose, add_discovered_rpc_task, parse_json_object,
  parse_file_id, ContentType, application_json, multipart_form_data, other_type,
}
use web_cloud_disk.Gateway.Handlers.{
  jwt_service, authenticated, with_body, register_user, login, current_user, list_files,
  upload_form, upload_file, download_id, download_file, Route, register_route, login_route,
  me_route, files_route, upload_route, file_route, handle,
}

module _ {J : Type 0} (json : JsonLibrary J) (lib : JwtLibrary) (url_encode : Bytes → Bytes)
    (config : GatewayConfig) (request : HttpRequest) where
  -- The past begins with a reading of the clock at which the request's header authenticates the user.
  abbrev pub Authentic : List (Exchange Request Reply) → ℕ → Type 0
  Authentic past i =
      (now : ℕ) × Starts (record { command = system_now; reply = now }) past
      × (authenticate lib (jwt_service config) now request.authorization
          ≡ success (record { user_id = i }))

  abbrev pub Permitted : List (Exchange Request Reply) → RpcCall → Type 0
  Permitted past (register_call u p c) = Unit
  Permitted past (login_call u p) = Unit
  Permitted past (current_user_call i) = Authentic past i
  Permitted past (list_files_call i) = Authentic past i
  Permitted past (upload_file_call i n c) = Authentic past i
  Permitted past (download_file_call i f) = Authentic past i

  -- A call that names a user needs that user's token.
  abbrev pub Authorised : List (Exchange Request Reply) → Request → Type 0
  Authorised past (rpc e c) = Permitted past c
  Authorised past system_now = Unit
  Authorised past (discover name) = Unit
  Authorised past (fetch_add service) = Unit

  Authentic-append :
      (past more : List (Exchange Request Reply)) (i : ℕ)
      → Authentic past i
      → Authentic (past ++ more) i
  Authentic-append past more i (now, s, a) = (now, Starts-append _ past more s, a)

  Permitted-append :
      (past more : List (Exchange Request Reply)) (c : RpcCall)
      → Permitted past c
      → Permitted (past ++ more) c
  Permitted-append past more (register_call u p c) h = tt
  Permitted-append past more (login_call u p) h = tt
  Permitted-append past more (current_user_call i) h = Authentic-append past more i h
  Permitted-append past more (list_files_call i) h = Authentic-append past more i h
  Permitted-append past more (upload_file_call i n c) h = Authentic-append past more i h
  Permitted-append past more (download_file_call i f) h = Authentic-append past more i h

  choose-Always :
      (past : List (Exchange Request Reply)) (service : Service) (c : RpcCall)
      (rest : RpcReply (Response c) → HttpResponse) (es : List ServiceEndpoint)
      → Permitted past c
      → Always Authorised past (choose json service c rest es)
  unfolding choose select
  choose-Always past service c rest [] h = tt
  choose-Always past service c rest (x ∷ xs) h =
      (tt, λ next. (Permitted-append past _ c h, λ reply. tt))

  discovered-Always :
      (past : List (Exchange Request Reply)) (service : Service) (name : Bytes) (c : RpcCall)
      (rest : RpcReply (Response c) → HttpResponse)
      → Permitted past c
      → Always Authorised past (add_discovered_rpc_task json service name c rest)
  unfolding add_discovered_rpc_task
  discovered-Always past service name c rest h = (
    tt,
    λ d. elim (Result-cases (discovered d)) [
      | inl (es, e) ↦
          rw (e, Always) (choose-Always _ service c rest es (Permitted-append past _ c h))
      | inr (x, e) ↦ rw (e, Always) tt
    ],
  )

  authenticated-Always :
      (rest : AuthContext → Handler)
      → ((past : List (Exchange Request Reply)) (context : AuthContext)
          → Authentic past context.user_id
          → Always Authorised past (rest context))
      → Always Authorised [] (authenticated json lib url_encode config request rest)
  unfolding authenticated
  authenticated-Always rest ok = (
    tt,
    λ now. elim (Result-cases (authenticate lib (jwt_service config) now request.authorization)) [
      | inl (context, e) ↦ rw (e, Always) (ok _ context (now, refl, e))
      | inr (x, e) ↦ rw (e, Always) tt
    ],
  )

  body_Always :
      (r : Result J) (rest : J → Handler)
      → ((body : J) → Always Authorised [] (rest body))
      → Always Authorised [] (with_body json lib url_encode config r rest)
  unfolding with_body
  body_Always (failure e) rest ok = tt
  body_Always (success body) rest ok = ok body

  form_Always :
      (past : List (Exchange Request Reply)) (context : AuthContext) (form : Option (Bytes × Bytes))
      → Authentic past context.user_id
      → Always Authorised past (upload_form json lib url_encode config context form)
  unfolding upload_form
  form_Always past context none h = tt
  form_Always past context (some (filename, content)) h = elim (Bool-cases (is_empty filename)) [
    | inl e ↦ rw e tt
    | inr e ↦
        rw e (discovered-Always past _ _ (upload_file_call context.user_id filename content) _ h)
  ]

  upload_Always :
      (past : List (Exchange Request Reply)) (context : AuthContext) (t : ContentType)
      → Authentic past context.user_id
      → Always Authorised past (elim t [
        | multipart_form_data ↦ upload_form json lib url_encode config context request.form_file
        | application_json ↦ answer (
            error_response json
              (record { status_code = 400; message = codes "Invalid request format" }))
        | other_type ↦ answer (
            error_response json
              (record { status_code = 400; message = codes "Invalid request format" }))
      ])
  upload_Always past context multipart_form_data h = form_Always past context request.form_file h
  upload_Always past context application_json h = tt
  upload_Always past context other_type h = tt

  download_Always :
      (past : List (Exchange Request Reply)) (context : AuthContext) (r : Result ℕ)
      → Authentic past context.user_id
      → Always Authorised past (download_id json lib url_encode config context r)
  unfolding download_id
  download_Always past context (failure e) h = tt
  download_Always past context (success file_id) h =
      discovered-Always past _ _ (download_file_call context.user_id file_id) _ h

  -- Whatever the surroundings reply: when a handler makes a call on behalf of a user, it has begun with
  -- a reading of the clock at which the request's header authenticates that very user.
  pub handle-Authorised :
      (route : Route) → Always Authorised [] (handle json lib url_encode config route request)
  unfolding handle register_user login current_user list_files upload_file download_file
  handle-Authorised register_route =
      body_Always (parse_json_object json request) _ λ body. discovered-Always [] _ _ _ _ tt
  handle-Authorised login_route =
      body_Always (parse_json_object json request) _ λ body. discovered-Always [] _ _ _ _ tt
  handle-Authorised me_route =
      authenticated-Always _
        λ past context h. discovered-Always past _ _ (current_user_call context.user_id) _ h
  handle-Authorised files_route =
      authenticated-Always _
        λ past context h. discovered-Always past _ _ (list_files_call context.user_id) _ h
  handle-Authorised upload_route =
      authenticated-Always _ λ past context h. upload_Always past context request.content_type h
  handle-Authorised file_route =
      authenticated-Always _
        λ past context h. download_Always past context (parse_file_id request.param_id) h
