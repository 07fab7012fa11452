-- ===== src/Gateway/Handlers.antt =====
-- gateway/GatewayApplication: the six handlers. `url_encode` is `StringUtil::url_encode_component`.
use web_cloud_disk.Base.{
  ℕ, Option, none, some, [], ◌∷◌, ◌++◌, Bytes, codes, Result, success, failure, if◌then◌else◌,
  is_empty, map,
}
use web_cloud_disk.Flow.{answer, call}
use web_cloud_disk.Config.Types.{GatewayConfig}
use web_cloud_disk.Security.Jwt.{AuthContext, JwtLibrary, JwtService}
use web_cloud_disk.Messaging.Json.{JsonLibrary}
use web_cloud_disk.Rpc.Messages.{
  RpcFileInfo, RegisterResponse, LoginResponse, GetCurrentUserResponse, ListFilesResponse,
  UploadFileResponse, DownloadFileResponse,
}
use web_cloud_disk.Http.{HttpResponse, authenticate, success_response, error_response}
use web_cloud_disk.Gateway.{
  application_json, multipart_form_data, other_type, HttpRequest, register_call, login_call,
  current_user_call, list_files_call, upload_file_call, download_file_call, user_service,
  file_service, system_now, Handler, parse_file_id, parse_json_object, string_field, respond,
  add_discovered_rpc_task,
}

-- The constructor: the token service of the settings.
unfoldable pub jwt_service : GatewayConfig → JwtService
jwt_service config = record {
  secret = config.auth.jwt_secret;
  token_issuer = config.auth.jwt_issuer;
  token_ttl = config.auth.token_ttl;
}

module _ {J : Type 0} (json : JsonLibrary J) where
  unfoldable pub register_data : RegisterResponse → HttpResponse
  register_data r = success_response json 201 (codes "Registration successful") (
      json.object (
        (codes "userId", json.number r.user.user_id)
        ∷ (codes "username", json.text r.user.username)
        ∷ []))

  unfoldable pub login_data : LoginResponse → HttpResponse
  login_data r = success_response json 200 (codes "Login successful") (
      json.object (
        (codes "accessToken", json.text r.access_token)
        ∷ (codes "tokenType", json.text (codes "Bearer"))
        ∷ (
          codes "user",
          json.object (
              (codes "userId", json.number r.user.user_id)
              ∷ (codes "username", json.text r.user.username)
              ∷ []),
        )
        ∷ []))

  unfoldable pub current_user_data : GetCurrentUserResponse → HttpResponse
  current_user_data r = success_response json 200 (codes "User profile retrieved successfully") (
      json.object (
        (codes "userId", json.number r.user.user_id)
        ∷ (codes "username", json.text r.user.username)
        ∷ (codes "createdAt", json.text r.user.created_at)
        ∷ []))

  unfoldable pub file_data : RpcFileInfo → J
  file_data file = json.object (
      (codes "fileId", json.number file.file_id)
      ∷ (codes "filename", json.text file.filename)
      ∷ (codes "size", json.number file.size)
      ∷ (codes "createdAt", json.text file.created_at)
      ∷ (codes "updatedAt", json.text file.updated_at)
      ∷ [])

  unfoldable pub list_data : ListFilesResponse → HttpResponse
  unfolding file_data
  list_data r =
      success_response json 200 (codes "File list retrieved successfully")
        (json.object ((codes "files", json.array (map file_data r.files)) ∷ []))

  unfoldable pub upload_data : UploadFileResponse → HttpResponse
  upload_data r = success_response json 201 (codes "Upload successful") (
      json.object
        ((codes "fileId", json.number r.file_id) ∷ (codes "filename", json.text r.filename) ∷ []))

unfoldable pub download_data : (Bytes → Bytes) → DownloadFileResponse → HttpResponse
download_data url_encode r = record {
  status = none;
  headers =
      (codes "Content-Type", codes "application/octet-stream")
      ∷ (
        codes "Content-Disposition",
        codes "attachment; filename=\"download\"; filename*=UTF-8''" ++ url_encode r.filename,
      )
      ∷ [];
  body = r.content;
}

module _ {J : Type 0} (json : JsonLibrary J) (lib : JwtLibrary) (url_encode : Bytes → Bytes)
    (config : GatewayConfig) where
  -- `auth_middleware_.authenticate(request)` and the early return. The clock is read for the check of
  -- the token.
  unfoldable pub authenticated : HttpRequest → (AuthContext → Handler) → Handler
  authenticated request rest = call system_now λ now.
      elim (authenticate lib (jwt_service config) now request.authorization) [
        | failure e ↦ answer (error_response json e)
        | success context ↦ rest context
      ]

  -- From the body's check on.
  unfoldable pub with_body : Result J → (J → Handler) → Handler
  with_body (failure e) rest = answer (error_response json e)
  with_body (success body) rest = rest body

  unfoldable pub register_user : HttpRequest → Handler
  unfolding with_body
  register_user request = with_body (parse_json_object json request) λ body.
      add_discovered_rpc_task json user_service config.consul.user_service_name
        (register_call (string_field json body (codes "username"))
          (string_field json body (codes "password")) (string_field json body (codes "confirm")))
        (λ reply. respond json reply (λ r. r.status) (register_data json))

  unfoldable pub login : HttpRequest → Handler
  unfolding with_body
  login request = with_body (parse_json_object json request) λ body.
      add_discovered_rpc_task json user_service config.consul.user_service_name
        (login_call (string_field json body (codes "username"))
          (string_field json body (codes "password")))
        (λ reply. respond json reply (λ r. r.status) (login_data json))

  unfoldable pub current_user : HttpRequest → Handler
  unfolding authenticated
  current_user request = authenticated request λ context.
      add_discovered_rpc_task json user_service config.consul.user_service_name
        (current_user_call context.user_id)
        (λ reply. respond json reply (λ r. r.status) (current_user_data json))

  unfoldable pub list_files : HttpRequest → Handler
  unfolding authenticated
  list_files request = authenticated request λ context.
      add_discovered_rpc_task json file_service config.consul.file_service_name
        (list_files_call context.user_id)
        (λ reply. respond json reply (λ r. r.status) (list_data json))

  -- From the form's check on.
  unfoldable pub upload_form : AuthContext → Option (Bytes × Bytes) → Handler
  upload_form context none =
      answer (
        error_response json
          (record { status_code = 400; message = codes "No uploaded file found" }))
  upload_form context (some (filename, content)) =
      if is_empty filename
      then answer (
          error_response json
            (record { status_code = 400; message = codes "No uploaded file found" }))
      else add_discovered_rpc_task json file_service config.consul.file_service_name
          (upload_file_call context.user_id filename content)
          (λ reply. respond json reply (λ r. r.status) (upload_data json))

  unfoldable pub upload_file : HttpRequest → Handler
  unfolding authenticated upload_form
  upload_file request = authenticated request λ context. elim request.content_type [
    | multipart_form_data ↦ upload_form context request.form_file
    | application_json ↦ answer (
        error_response json
          (record { status_code = 400; message = codes "Invalid request format" }))
    | other_type ↦ answer (
        error_response json
          (record { status_code = 400; message = codes "Invalid request format" }))
  ]

  -- From the check of the file ID on.
  unfoldable pub download_id : AuthContext → Result ℕ → Handler
  download_id context (failure e) = answer (error_response json e)
  download_id context (success file_id) =
      add_discovered_rpc_task json file_service config.consul.file_service_name
        (download_file_call context.user_id file_id)
        (λ reply. respond json reply (λ r. r.status) (download_data url_encode))

  unfoldable pub download_file : HttpRequest → Handler
  unfolding authenticated download_id
  download_file request =
      authenticated request λ context. download_id context (parse_file_id request.param_id)

-- The routes of the interface; static files are left to the server.
pub data Route : Type 0 where
  register_route login_route me_route files_route upload_route file_route : Route

unfoldable pub handle :
    {J : Type 0}
    → JsonLibrary J
    → JwtLibrary
    → (Bytes → Bytes)
    → GatewayConfig
    → Route
    → HttpRequest
    → Handler
handle json lib url_encode config register_route = register_user json lib url_encode config
handle json lib url_encode config login_route = login json lib url_encode config
handle json lib url_encode config me_route = current_user json lib url_encode config
handle json lib url_encode config files_route = list_files json lib url_encode config
handle json lib url_encode config upload_route = upload_file json lib url_encode config
handle json lib url_encode config file_route = download_file json lib url_encode config
