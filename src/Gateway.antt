-- ===== src/Gateway.antt =====
-- gateway/GatewayApplication: what the HTTP handlers share. A handler is a series like those of the
-- services, with requests of its own to the surroundings.
pub mod Handlers
pub mod Access
pub mod Ids
pub mod Routes
pub mod Trust
pub mod Relay
pub mod Replies
use web_cloud_disk.Base.{
  ℕ, Bool, true, false, not, ◌||◌, ◌&&◌, Option, none, some, List, [], ◌∷◌, ◌++◌, Bytes, codes,
  AppError, Result, success, failure, fail, ◌==◌, leb, if◌then◌else◌, is_empty,
}
use web_cloud_disk.Numbers.{ℤ, pos, negsuc, max_u64, from_chars, failed, leftover}
use web_cloud_disk.Flow.{Flow, answer, call}
use web_cloud_disk.Messaging.Json.{JsonLibrary}
use web_cloud_disk.Discovery.Endpoints.{ServiceInstance, ServiceEndpoint, make_endpoints}
use web_cloud_disk.Discovery.RoundRobin.{select}
use web_cloud_disk.Rpc.Messages.{
  RpcStatus, RegisterResponse, LoginResponse, GetCurrentUserResponse, ListFilesResponse,
  UploadFileResponse, DownloadFileResponse,
}
use web_cloud_disk.Http.{HttpResponse, error_response}

-- `content_type()` of a request.
pub data ContentType : Type 0 where
  application_json multipart_form_data other_type : ContentType

-- What the handlers read of a request: `header("Authorization")`, `body()`, the name and content of the
-- form's entry "file", and `param("id")`.
pub record HttpRequest : Type 0 where
  pub content_type : ContentType
  pub authorization : Bytes
  pub body : Bytes
  pub form_file : Option (Bytes × Bytes)
  pub param_id : Bytes

pub data RpcCall : Type 0 where
  register_call : Bytes → Bytes → Bytes → RpcCall
  login_call : Bytes → Bytes → RpcCall
  current_user_call list_files_call : ℕ → RpcCall
  upload_file_call : ℕ → Bytes → Bytes → RpcCall
  download_file_call : ℕ → ℕ → RpcCall

abbrev pub Response : RpcCall → Type 0
Response (register_call u p c) = RegisterResponse
Response (login_call u p) = LoginResponse
Response (current_user_call i) = GetCurrentUserResponse
Response (list_files_call i) = ListFilesResponse
Response (upload_file_call i n c) = UploadFileResponse
Response (download_file_call i f) = DownloadFileResponse

-- What the callback of an RPC task gets: whether there is a context with `success()`, and the response.
pub record RpcReply (A : Type 0) : Type 0 where
  pub transported : Bool
  pub response : A

-- What the callback of a discovery task reads of the task.
pub record DiscoverReply : Type 0 where
  pub state_success : Bool
  pub error_text : Bytes
  -- `get_discover_result`
  pub instances : Option (List ServiceInstance)

-- The two services, each with a name in Consul and a selector.
pub data Service : Type 0 where
  user_service file_service : Service

pub data Request : Type 0 where
  -- the clock when a token is checked
  system_now : Request
  discover : Bytes → Request
  -- `next_.fetch_add(1)` of a selector
  fetch_add : Service → Request
  rpc : ServiceEndpoint → RpcCall → Request

abbrev pub Reply : Request → Type 0
Reply system_now = ℕ
Reply (discover name) = DiscoverReply
Reply (fetch_add service) = ℕ
Reply (rpc e c) = RpcReply (Response c)

abbrev pub Handler : Type 0
Handler = Flow Request Reply HttpResponse

-- The callback of `ConsulServiceDiscovery::create_discover_task`.
unfoldable pub discovered : DiscoverReply → Result (List ServiceEndpoint)
discovered d =
    if not d.state_success
    then failure (record {
      status_code = 503;
      message = codes "Consul service discovery failed: " ++ d.error_text;
    })
    else elim d.instances [
      | none ↦ fail 503 "Invalid Consul service discovery response"
      | some instances ↦ make_endpoints instances
    ]

unfoldable pub parse_file_id : Bytes → Result ℕ
parse_file_id value =
    let r = from_chars max_u64 value in
    if is_empty value || (failed r.ec || (leftover r || r.parsed == 0))
    then fail 400 "Invalid file ID"
    else success r.parsed

-- The status that is passed on, of a status code that is not 0.
unfoldable pub application_status : ℤ → ℕ
application_status (pos n) = if leb 400 n && leb n 599 then n else 500
application_status (negsuc n) = 500

unfoldable pub rpc_error : RpcStatus → AppError
unfolding application_status
rpc_error status = record {
  status_code = application_status status.code;
  message = if is_empty status.message then codes "RPC service error" else status.message;
}

abbrev pub upstream_unavailable : AppError
upstream_unavailable = record { status_code = 502; message = codes "Upstream service unavailable" }

unfoldable pub is_ok_code : ℤ → Bool
is_ok_code (pos n) = n == 0
is_ok_code (negsuc n) = false

module _ {J : Type 0} (json : JsonLibrary J) where
  unfoldable pub parse_json_object : HttpRequest → Result J
  parse_json_object request = elim request.content_type [
    | application_json ↦ elim (json.parse request.body) [
      | none ↦ fail 400 "Invalid request format"
      | some body ↦
          if not (json.is_object body) then fail 400 "Invalid request format" else success body
    ]
    | multipart_form_data ↦ fail 400 "Invalid request format"
    | other_type ↦ fail 400 "Invalid request format"
  ]

  unfoldable pub string_field : J → Bytes → Bytes
  string_field body field = elim (json.member body field) [
    | none ↦ []
    | some v ↦ if json.is_string v then json.get_string v else []
  ]

  -- `rpc_transport_ok`, `rpc_application_ok`, then the rest of an RPC task's callback.
  unfoldable pub respond :
      {A : Type 0} → RpcReply A → (A → RpcStatus) → (A → HttpResponse) → HttpResponse
  unfolding rpc_error is_ok_code
  respond reply status rest =
      if not reply.transported
      then error_response json upstream_unavailable
      else if not (is_ok_code (status reply.response).code)
      then error_response json (rpc_error (status reply.response))
      else rest reply.response

  -- From the endpoints on.
  unfoldable pub choose :
      Service
      → (c : RpcCall) → (RpcReply (Response c) → HttpResponse)
      → List ServiceEndpoint
      → Handler
  choose service c rest [] = elim (select 0 []).1 [
    | failure e ↦ answer (error_response json e)
    | success e ↦ call (rpc e c) (λ reply. answer (rest reply))
  ]
  choose service c rest (x ∷ xs) = call (fetch_add service) λ next. elim (select next (x ∷ xs)).1 [
    | failure e ↦ answer (error_response json e)
    | success e ↦ call (rpc e c) (λ reply. answer (rest reply))
  ]

  unfoldable pub add_discovered_rpc_task :
      Service → Bytes → (c : RpcCall) → (RpcReply (Response c) → HttpResponse) → Handler
  unfolding choose discovered
  add_discovered_rpc_task service service_name c rest = call (discover service_name) λ d.
      elim (discovered d) [
        | failure e ↦ answer (error_response json e)
        | success endpoints ↦ choose service c rest endpoints
      ]
