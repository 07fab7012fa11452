-- ===== src/Gateway/Relay/Requests.antt =====
-- What the gateway answers to a whole request, by what the service found for the call that it led to.
use web_cloud_disk.Base.{
  ℕ, ◌≡◌, refl, subst, sym, ap, ◌∙◌, Bool-cases, Result-cases, inl, inr, Option, none, some, List,
  [], ◌∷◌, ◌++◌, Bytes, AppError, Result, success, failure, is_empty, codes,
}
use web_cloud_disk.Flow.{answer, call, Exchange, Under}
use web_cloud_disk.Config.Types.{GatewayConfig}
use web_cloud_disk.Security.Jwt.{AuthContext, JwtLibrary}
use web_cloud_disk.Messaging.Json.{JsonLibrary}
use web_cloud_disk.Discovery.Endpoints.{ServiceEndpoint}
use web_cloud_disk.Discovery.RoundRobin.{select}
use web_cloud_disk.Http.{HttpResponse, authenticate, error_response}
use web_cloud_disk.Gateway.{
  HttpRequest, RpcCall, register_call, login_call, current_user_call, list_files_call,
  upload_file_call, download_file_call, Response, RpcReply, Service, Request, Reply, discover,
  fetch_add, rpc, Handler, discovered, respond, string_field, choose, add_discovered_rpc_task,
  parse_json_object, parse_file_id, ContentType, application_json, multipart_form_data, other_type,
}
use web_cloud_disk.Gateway.Handlers.{
  jwt_service, authenticated, with_body, register_user, login, current_user, list_files,
  upload_form, upload_file, download_id, download_file, Route, register_route, login_route,
  me_route, files_route, upload_route, file_route, handle,
}
use web_cloud_disk.Gateway.Relay.{
  Found, IsRelayable, arrived, response, described, status_of, data_of, call_page,
}

abbrev Past : Type 0
Past = List (Exchange Request Reply)

-- The route that leads to a call.
abbrev pub route_of : RpcCall → Route
route_of (register_call u p c) = register_route
route_of (login_call u p) = login_route
route_of (current_user_call i) = me_route
route_of (list_files_call i) = files_route
route_of (upload_file_call i n c) = upload_route
route_of (download_file_call i f) = file_route

abbrev pub IsLocal : Request → Type 0
IsLocal (rpc at c) = ⊥
IsLocal _ = Unit {0}

-- No service was called.
abbrev pub Uncalled : Past → Type 0
Uncalled [] = Unit {0}
Uncalled (x ∷ past) = IsLocal x.command × Uncalled past

Uncalled-append :
    (past : Past) (c : Request) (r : Reply c)
    → Uncalled past
    → IsLocal c
    → Uncalled (past ++ record { command = c; reply = r } ∷ [])
Uncalled-append [] c r h l = (l, tt)
Uncalled-append (x ∷ past) c r (h, hs) l = (h, Uncalled-append past c r hs l)

module _ {J : Type 0} (json : JsonLibrary J) (url_encode : Bytes → Bytes)
    (found : (c : RpcCall) → Result (Found c)) where
  -- A call of a service comes through with the response to what the service found for it.
  abbrev pub Serves : (c : Request) → Reply c → Type 0
  Serves (rpc at c) reply = reply ≡ arrived (response c (found c))
  Serves _ reply = Unit {0}

  abbrev pub Served : Past → Exchange Request Reply → Type 0
  Served past x = Serves x.command x.reply

  -- The answer to a request on a route: an error if no service was called; and after the call, which is the
  -- route's and comes last, the page that describes what the service found.
  pub data Relayed (route : Route) : Past → HttpResponse → Type 0 where
    uncalled :
        (past : Past) (e : AppError) → Uncalled past → Relayed route past (error_response json e)
    called :
        (past : Past) (at : ServiceEndpoint) (c : RpcCall) (reply : RpcReply (Response c))
        → Uncalled past
        → route_of c ≡ route
        → Relayed route
            (past ++ record { command = rpc at c; reply = reply } ∷ [])
            (described json url_encode c (found c))

  module _ (route : Route) where
    abbrev Relays : Past → Handler → Type 0
    Relays = Under Served (Relayed route)

    -- A call of the route whose callback shows what the service found.
    module _ (service : Service) (name : Bytes) (c : RpcCall)
        (rest : RpcReply (Response c) → HttpResponse) (its : route_of c ≡ route)
        (shows : rest (arrived (response c (found c)))
          ≡ described json url_encode c (found c)) where
      asked :
          (past : Past) (at : ServiceEndpoint)
          → Uncalled past
          → Relays past (call (rpc at c) (λ reply. answer (rest reply)))
      asked past at h = λ reply came.
          subst (Relayed route (past ++ record { command = rpc at c; reply = reply } ∷ []))
            (sym (ap rest came ∙ shows)) (called past at c reply h its)

      choose-Relays :
          (past : Past) (es : List ServiceEndpoint)
          → Uncalled past
          → Relays past (choose json service c rest es)
      unfolding choose select
      choose-Relays past [] h = uncalled past _ h
      choose-Relays past (x ∷ xs) h =
          λ next u. asked _ _ (Uncalled-append past (fetch_add service) next h tt)

      discovered-Relays :
          (past : Past)
          → Uncalled past
          → Relays past (add_discovered_rpc_task json service name c rest)
      unfolding add_discovered_rpc_task
      discovered-Relays past h = λ d u.
          let later = Uncalled-append past (discover name) d h tt in
          elim (Result-cases (discovered d)) [
            | inl (es, e) ↦ rw (e, Under) (choose-Relays _ es later)
            | inr (x, e) ↦ rw (e, Under) (uncalled _ x later)
          ]

  module _ (lib : JwtLibrary) (config : GatewayConfig)
      (relayable : (c : RpcCall) → IsRelayable (found c)) (request : HttpRequest) where
    shown :
        (c : RpcCall)
        → respond json
            (arrived (response c (found c)))
            (status_of json url_encode c)
            (data_of json url_encode c)
          ≡ described json url_encode c (found c)
    shown c = call_page json url_encode c (found c) (relayable c)

    authenticated-Relays :
        (route : Route) (rest : AuthContext → Handler)
        → ((past : Past) (context : AuthContext) → Uncalled past → Relays route past (rest context))
        → Relays route [] (authenticated json lib url_encode config request rest)
    unfolding authenticated
    authenticated-Relays route rest ok = λ now u.
        elim (Result-cases (authenticate lib (jwt_service config) now request.authorization)) [
          | inl (context, e) ↦ rw (e, Under) (ok _ context (tt, tt))
          | inr (x, e) ↦ rw (e, Under) (uncalled _ x (tt, tt))
        ]

    body_Relays :
        (route : Route) (r : Result J) (rest : J → Handler)
        → ((body : J) → Relays route [] (rest body))
        → Relays route [] (with_body json lib url_encode config r rest)
    unfolding with_body
    body_Relays route (failure e) rest ok = uncalled [] e tt
    body_Relays route (success body) rest ok = ok body

    form_Relays :
        (past : Past) (context : AuthContext) (form : Option (Bytes × Bytes))
        → Uncalled past
        → Relays upload_route past (upload_form json lib url_encode config context form)
    unfolding upload_form
    form_Relays past context none h = uncalled past _ h
    form_Relays past context (some (filename, content)) h = elim (Bool-cases (is_empty filename)) [
      | inl e ↦ rw e (uncalled past _ h)
      | inr e ↦ rw e (
          discovered-Relays upload_route _ _ (upload_file_call context.user_id filename content) _
            refl (shown (upload_file_call context.user_id filename content)) past h)
    ]

    upload_Relays :
        (past : Past) (context : AuthContext) (t : ContentType)
        → Uncalled past
        → Relays upload_route past (elim t [
          | multipart_form_data ↦ upload_form json lib url_encode config context request.form_file
          | application_json ↦ answer (
              error_response json
                (record { status_code = 400; message = codes "Invalid request format" }))
          | other_type ↦ answer (
              error_response json
                (record { status_code = 400; message = codes "Invalid request format" }))
        ])
    upload_Relays past context multipart_form_data h = form_Relays past context request.form_file h
    upload_Relays past context application_json h = uncalled past _ h
    upload_Relays past context other_type h = uncalled past _ h

    download_Relays :
        (past : Past) (context : AuthContext) (r : Result ℕ)
        → Uncalled past
        → Relays file_route past (download_id json lib url_encode config context r)
    unfolding download_id
    download_Relays past context (failure e) h = uncalled past e h
    download_Relays past context (success file_id) h =
        discovered-Relays file_route _ _ (download_file_call context.user_id file_id) _ refl
          (shown (download_file_call context.user_id file_id)) past h

    -- Let every call that comes to a service come back with the response that rpc/ makes of what the service
    -- found for that call, a success or an error with a status from 400 to 599 and a message. Then
    -- whatever else the surroundings reply, a request on any route is answered by an error if it led to no
    -- call; and if it led to one, that call is the route's own and the last exchange, and the answer is
    -- the page that describes what the service found: the error with its status and message, or the
    -- status, the message and the fields of the success, for a download the content under its name.
    pub handle-Relayed :
        (route : Route)
        → Under Served (Relayed route) [] (handle json lib url_encode config route request)
    unfolding handle register_user login current_user list_files upload_file download_file
    handle-Relayed register_route =
        body_Relays register_route (parse_json_object json request) _ λ body.
          discovered-Relays register_route _ _ (register_call _ _ _) _ refl
            (shown (
              register_call (string_field json body (codes "username"))
                (string_field json body (codes "password"))
                (string_field json body (codes "confirm"))))
            [] tt
    handle-Relayed login_route = body_Relays login_route (parse_json_object json request) _ λ body.
        discovered-Relays login_route _ _ (login_call _ _) _ refl
          (shown (
            login_call (string_field json body (codes "username"))
              (string_field json body (codes "password"))))
          [] tt
    handle-Relayed me_route = authenticated-Relays me_route _ λ past context h.
        discovered-Relays me_route _ _ (current_user_call context.user_id) _ refl
          (shown (current_user_call context.user_id)) past h
    handle-Relayed files_route = authenticated-Relays files_route _ λ past context h.
        discovered-Relays files_route _ _ (list_files_call context.user_id) _ refl
          (shown (list_files_call context.user_id)) past h
    handle-Relayed upload_route =
        authenticated-Relays upload_route _
          λ past context h. upload_Relays past context request.content_type h
    handle-Relayed file_route =
        authenticated-Relays file_route _
          λ past context h. download_Relays past context (parse_file_id request.param_id) h
